-- ===== src/Async/Drain/Rounds.antt =====
-- async_logging.h, ConsumeLog: the writes of one round.
use mathlib.Core.Path.{subst}
use mathlib.Core.List.{append-nil, append_assoc}
use openmi_base.Base.{
  ℕ, suc, ◌^◌, ◌<◌, ◌≡◌, refl, sym, ap, ◌∙◌, Bool, true, false, List, [], ◌∷◌, ◌++◌, some, length,
  take, bind_some, if◌then◌else◌, arith,
}
use openmi_base.Async.Buffer.{Buffer, view}
use openmi_base.Async.Logger.{contents, overloaded, kept}
use openmi_base.Async.Invariant.{AllBuffers}
use openmi_base.Async.Writer.{round_stream, kept-AllBuffers}
use openmi_base.Async.Sink.{Sink}
use openmi_base.Async.Drain.{write_each, write_round}

abbrev pub AllCalls : (k : Sink) → (ℕ → k.Call) → Type 0
AllCalls k q = (i : ℕ) → k.IsCall (q i)

take_all : (xs : List ℕ) → take (length xs) xs ≡ xs
take_all [] = refl
take_all (x ∷ xs) = ap (◌∷◌ x) (take_all xs)

module _ (k : Sink) (size : ℕ) (int : size < 2 ^ 31) where
  write_each-Holds :
      (q : ℕ → k.Call) (bs : List Buffer) (t : k.State) (a : List ℕ)
      → AllCalls k q
      → AllBuffers size bs
      → k.Holds t a
      → (t' : k.State) × (write_each k q bs t ≡ some t') × k.Holds t' (a ++ contents bs)
  unfolding write_each view
  write_each-Holds q [] t a ok all h = (t, refl, subst (k.Holds t) (sym (append-nil a)) h)
  write_each-Holds q (b ∷ bs) t a ok all h =
      let (t1, e, h1) =
        k.write_holds (q 0) b.memory b.cur t a (ok 0) (omega (arith, all.0.sized, all.0.inside))
          (omega (arith, all.0.inside)) h in
      let (t2, f, h2) =
        write_each-Holds (λ i. q (suc i)) bs t1 (a ++ view b) (λ i. ok (suc i)) all.1 h1 in
      (t2, rw e f, subst (k.Holds t2) (append_assoc a (view b) (contents bs)) h2)

  -- The notice of an overload.
  write_notice-Holds :
      (heavy : Bool) (call : k.Call) (notice : List ℕ) (t : k.State) (a : List ℕ)
      → k.IsCall call
      → length notice < 2 ^ 31
      → k.Holds t a
      → (t' : k.State) × ((if heavy then k.write call notice (length notice) t else some t)
          ≡ some t')
        × k.Holds t' (a ++ (if heavy then notice else []))
  write_notice-Holds false call notice t a ok short h =
      (t, refl, subst (k.Holds t) (sym (append-nil a)) h)
  write_notice-Holds true call notice t a ok short h =
      let (t1, e, h1) = k.write_holds call notice (length notice) t a ok (omega arith) short h in
      (t1, e, subst (λ (x : List ℕ). k.Holds t1 (a ++ x)) (take_all notice) h1)

  -- A round gives the file what the model of the loop counts as given.
  pub write_round-Holds :
      (q : ℕ → k.Call) (notice : List ℕ) (bs : List Buffer) (t : k.State) (a : List ℕ)
      → AllCalls k q
      → length notice < 2 ^ 31
      → AllBuffers size bs
      → k.Holds t a
      → (t' : k.State) × (write_round k q notice bs t ≡ some t')
        × k.Holds t' (a ++ round_stream notice bs)
  unfolding write_round
  write_round-Holds q notice bs t a ok short all h =
      let first : List ℕ = if overloaded bs then notice else [] in
      let (t1, e, h1) = write_notice-Holds (overloaded bs) (q 0) notice t a (ok 0) short h in
      let (t2, f, h2) =
        write_each-Holds (λ i. q (suc i)) (kept bs) t1 (a ++ first) (λ i. ok (suc i))
          (kept-AllBuffers size bs all) h1 in
      (
        t2,
        bind_some (write_each k (λ i. q (suc i)) (kept bs)) e ∙ f,
        subst (k.Holds t2) (append_assoc a first (contents (kept bs))) h2,
      )
