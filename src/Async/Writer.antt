-- ===== src/Async/Writer.antt =====
-- async_logging.h, AsyncLogging::ConsumeLog: the half of the loop that writes and takes buffers back.
use openmi_base.Base.{
  ℕ, zero, suc, ◌≤◌, ◌≡◌, refl, ap, Bool, true, false, List, [], ◌∷◌, ◌++◌, Option, none, some,
  length, take, ltb, if◌then◌else◌, length-take, arith,
}
use openmi_base.Async.Buffer.{Buffer, IsBuffer, reset}
use openmi_base.Async.Logger.{
  Consumer, contents, is_empty, overloaded, kept, pop_back, refill, write_out,
}
use openmi_base.Async.Reach.{IsBlank}
use openmi_base.Async.Invariant.{AllBuffers, IsSpare, Waiting, Writing}

module _ (size : ℕ) where
  AllBuffers-take : (n : ℕ) (bs : List Buffer) → AllBuffers size bs → AllBuffers size (take n bs)
  AllBuffers-take zero bs h = tt
  AllBuffers-take (suc n) [] h = tt
  AllBuffers-take (suc n) (b ∷ bs) h = (h.0, AllBuffers-take n bs h.1)

  pop_back_lem :
      (bs : List Buffer)
      → AllBuffers size bs
      → 1 ≤ length bs
      → (rest : List Buffer) × (b : Buffer) × (pop_back bs ≡ some (rest, b))
        × AllBuffers size rest
        × IsBuffer size b
        × (length bs ≡ suc (length rest))
  unfolding pop_back
  pop_back_lem [] h pos = absurd (omega arith)
  pop_back_lem (b ∷ []) h pos = ([], b, refl, tt, h.0, refl)
  pop_back_lem (b ∷ d ∷ bs) h pos =
      let (rest, l, e, ok, l_ok, n) = pop_back_lem (d ∷ bs) h.1 (omega arith) in
      (b ∷ rest, l, rw e refl, (h.0, ok), l_ok, ap suc n)

  reset-IsBlank : (b : Buffer) → IsBuffer size b → IsBlank size (reset b)
  unfolding reset
  reset-IsBlank b h = record {
    valid = record { sized = h.sized; inside = omega (arith, h.inside) };
    clear = refl;
  }

  -- A pointer of the consumer's own is set again, from the buffers just written if it was given away.
  refill_lem :
      (o : Option Buffer) (bs : List Buffer)
      → IsSpare size o
      → AllBuffers size bs
      → (o ≡ none → 1 ≤ length bs)
      → (rest : List Buffer) × (b : Buffer) × (refill o bs ≡ some (rest, b))
        × AllBuffers size rest
        × IsBlank size b
        × (length bs ≤ suc (length rest))
  unfolding refill
  refill_lem (some b) bs blank ok need = (bs, b, refl, ok, blank, omega arith)
  refill_lem none bs blank ok need =
      let (rest, b, e, rest_ok, b_ok, n) = pop_back_lem bs ok (need refl) in
      (rest, reset b, rw e refl, rest_ok, reset-IsBlank b b_ok, omega arith)

  -- What is kept for writing, and then for taking back.
  abbrev spares : List Buffer → List Buffer
  spares bs = if ltb 2 (length (kept bs)) then take 2 (kept bs) else kept bs

  pick-AllBuffers :
      (t : Bool) (ds : List Buffer)
      → AllBuffers size ds
      → AllBuffers size (if t then take 2 ds else ds)
  pick-AllBuffers true ds ok = AllBuffers-take 2 ds ok
  pick-AllBuffers false ds ok = ok

  pub kept-AllBuffers : (bs : List Buffer) → AllBuffers size bs → AllBuffers size (kept bs)
  kept-AllBuffers bs h = pick-AllBuffers (overloaded bs) bs h

  spares-AllBuffers : (bs : List Buffer) → AllBuffers size bs → AllBuffers size (spares bs)
  spares-AllBuffers bs h =
      pick-AllBuffers (ltb 2 (length (kept bs))) (kept bs) (kept-AllBuffers bs h)

  length-spares :
      (bs : List Buffer)
      → (is_empty bs ≡ false → 1 ≤ length (spares bs)) × (2 ≤ length bs → 2 ≤ length (spares bs))
  length-spares [] = (λ e. absurd (cc), λ h. absurd (omega arith))
  length-spares (b ∷ []) = (λ e. omega arith, λ h. absurd (omega arith))
  length-spares (b ∷ d ∷ bs) = (λ e. omega (arith, two), λ h. two)
    where
      two : 2 ≤ length (spares (b ∷ d ∷ bs))
      two =
          pick (ltb 2 (length (kept (b ∷ d ∷ bs)))) (kept (b ∷ d ∷ bs))
            (pick (overloaded (b ∷ d ∷ bs)) (b ∷ d ∷ bs) (omega arith))
        where
          pick :
              (t : Bool) (ds : List Buffer)
              → 2 ≤ length ds
              → 2 ≤ length (if t then take 2 ds else ds)
          pick true ds h = omega (arith, length-take 2 ds)
          pick false ds h = h

-- The bytes that one round gives to `dest`.
abbrev pub round_stream : List ℕ → List Buffer → List ℕ
round_stream notice bs = (if overloaded bs then notice else []) ++ contents (kept bs)

-- The notice of an overload is never given: two buffers at most have been filled.
pub round_stream_lem :
    (size : ℕ) (notice : List ℕ) (c : Consumer)
    → Writing size c
    → round_stream notice c.write_buffers ≡ contents c.write_buffers
round_stream_lem size notice c w = rw light refl
  where
    light : overloaded c.write_buffers ≡ false
    light = ground (arith, w.few_left)

-- With buffers to write the second half of the loop meets no empty vector, and leads back to the head
-- of the loop with the bytes of the kept buffers added to `dest` in order.
pub write_out-Waiting :
    (size : ℕ) (notice : List ℕ) (c : Consumer)
    → Writing size c
    → (c' : Consumer) × (write_out notice c ≡ some c')
      × Waiting size c'
      × (c'.dest ≡ c.dest ++ round_stream notice c.write_buffers)
unfolding write_out
write_out-Waiting size notice c w =
    let bs = c.write_buffers in
    let (rest, b1, e1, rest_ok, blank1, n1) =
      refill_lem size none (spares size bs) tt (spares-AllBuffers size bs w.left_ok)
        (λ _. (length-spares size bs).0 w.some_left) in
    let (rest2, b2, e2, rest2_ok, blank2, n2) =
      refill_lem size c.buf2 rest w.spare_ok rest_ok
        (λ e. omega (arith, n1, (length-spares size bs).1 (w.two_left e))) in
    (
      record {
        buf1 = some b1;
        buf2 = some b2;
        write_buffers = [];
        dest = c.dest ++ round_stream notice bs;
      },
      rw (w.some_left, w.buf1_gone, e1, e2) refl,
      record {
        none_left = refl;
        one = b1;
        buf1_is = refl;
        one_blank = blank1;
        two = b2;
        buf2_is = refl;
        two_blank = blank2;
      },
      refl,
    )
