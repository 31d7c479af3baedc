-- ===== src/Logging/WriteOp/Given.antt =====
-- The class WriteOp on a stream that is open and good, in text mode.
use mathlib.Core.Path.{ap₂}
use mathlib.Core.List.{append_assoc, append-nil}
use native.Mathlib.Nat.{mod-eq_of_lt}
use openmi_base.Base.{
  ℕ, ◌+◌, ◌%◌, ◌^◌, ◌<◌, ◌≤◌, ◌≡◌, refl, sym, ap, ◌∙◌, Bool, true, false, List, [], ◌∷◌, ◌++◌, some,
  length, take, drop, take-append-drop, length-append, length-take, lt→ltb, arith,
}
use openmi_base.Base.Int.{ℤ, pos, eqb_ℤ}
use openmi_base.Base.Format.{read_bytes, read_bytes_all}
use openmi_base.Calendar.{to_int}
use openmi_base.Logging.WriteOp.{WriteOp, put_bytes, message_bytes, put_text, write_text}

pub record IsWriting (w : WriteOp) : Type 0 where
  pub good : w.good ≡ true
  pub open_ : w.is_open ≡ true
  pub text : w.is_binary ≡ false

abbrev pub given : List ℕ → WriteOp → WriteOp
given t w = record w { bytes = w.bytes ++ t; written_bytes = w.written_bytes + length t }

abbrev pub newline : Bool → List ℕ
newline true = 10 ∷ []
newline false = []

pub given-IsWriting : (t : List ℕ) {w : WriteOp} → IsWriting w → IsWriting (given t w)
given-IsWriting t ok = record { good = ok.good; open_ = ok.open_; text = ok.text }

pub given-given : (s t : List ℕ) (w : WriteOp) → given t (given s w) ≡ given (s ++ t) w
given-given s t w =
    ap₂ (λ (x : List ℕ) (n : ℕ). record w { bytes = x; written_bytes = n })
      (append_assoc w.bytes s t) (omega (arith, length-append s t))

put_bytes-given :
    (t : List ℕ) {w : WriteOp} → IsWriting w → put_bytes t w ≡ record w { bytes = w.bytes ++ t }
unfolding put_bytes
put_bytes-given t ok = rw (ok.good, ok.open_) refl

put_text-given :
    (t : List ℕ) (e : Bool) {w : WriteOp} → IsWriting w → put_text t e w ≡ given (t ++ newline e) w
unfolding put_text
put_text-given t true {w} ok =
    let w1 = record w { bytes = w.bytes ++ t } in
    let again : put_bytes (10 ∷ []) w1 ≡ record w1 { bytes = w1.bytes ++ 10 ∷ [] } =
      put_bytes-given (10 ∷ []) (record { good = ok.good; open_ = ok.open_; text = ok.text }) in
    rw (put_bytes-given t ok, again)
      (ap₂ (λ (x : List ℕ) (n : ℕ). record w { bytes = x; written_bytes = n })
        (append_assoc w.bytes t (10 ∷ [])) (omega (arith, length-append t (10 ∷ []))))
put_text-given t false ok = rw (put_bytes-given t ok, append-nil t) refl

pub write_text-given :
    (msg : List ℕ) (count : ℤ) (e : Bool) (t : List ℕ) {w : WriteOp}
    → IsWriting w
    → eqb_ℤ count (pos 0) ≡ false
    → message_bytes count msg ≡ some t
    → write_text (some msg) count e w ≡ some (true, given (t ++ newline e) w)
unfolding write_text
write_text-given msg count e t ok some_bytes read =
    simp (some_bytes, ok.text, ok.good, read, put_text-given t e ok)

pub to_int_small : (n : ℕ) → n < 2 ^ 31 → to_int (pos n) ≡ pos n
to_int_small n h = rw (small, lt→ltb n (2 ^ 31) h) refl
  where
    small : n % 2 ^ 32 ≡ n
    small = mod-eq_of_lt (omega (arith, h))

pub message_bytes_int :
    (msg : List ℕ) (n : ℕ)
    → n ≤ length msg
    → n < 2 ^ 31
    → message_bytes (to_int (pos n)) msg ≡ some (take n msg)
unfolding message_bytes
message_bytes_int msg n inside int = rw (to_int_small n int) (
    ap (read_bytes n) (sym (take-append-drop n msg))
    ∙ ap (λ (k : ℕ). read_bytes k (take n msg ++ drop n msg))
        (omega (arith, length-take n msg, inside))
    ∙ read_bytes_all (take n msg) (drop n msg))

pub write_whole :
    (t : List ℕ) (e : Bool) {w : WriteOp}
    → IsWriting w
    → eqb_ℤ (pos (length t)) (pos 0) ≡ false
    → write_text (some t) (pos (length t)) e w ≡ some (true, given (t ++ newline e) w)
unfolding message_bytes
write_whole t e ok some_bytes =
    write_text-given t (pos (length t)) e t ok some_bytes
      (ap (read_bytes (length t)) (sym (append-nil t)) ∙ read_bytes_all t [])

pub given_nil : (w : WriteOp) → given [] w ≡ w
given_nil w =
    ap₂ (λ (x : List ℕ) (n : ℕ). record w { bytes = x; written_bytes = n }) (append-nil w.bytes)
      (omega arith)
