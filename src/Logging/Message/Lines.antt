-- ===== src/Logging/Message/Lines.antt =====
-- logging.h and logging.cc: the buffer of a log message, from its insertions to the text that is logged.
use openmi_base.Base.{
  ℕ, zero, suc, ◌+◌, ◌<◌, ◌≤◌, ◌==◌, ◌≡◌, refl, sym, ap, ◌∙◌, inl, inr, List, [], ◌∷◌, ◌++◌, some,
  length, length-append, length-take, take, Bool-cases, ==_iff, bind_some, arith,
}
use mathlib.Core.Path.{subst}
use mathlib.Core.List.{append-nil, append_assoc}
use openmi_base.Base.Dict.{Text}
use openmi_base.Logging.Message.{last_byte, final_text}
use openmi_base.Logging.Buffer.{MessageData, capacity, max_log_message_len, insert, insert_all}

abbrev pub joined : List Text → Text
joined [] = []
joined (t ∷ ts) = t ++ joined ts

take-take_append : (n : ℕ) (xs ys : List ℕ) → take n (take n xs ++ ys) ≡ take n (xs ++ ys)
take-take_append zero xs ys = refl
take-take_append (suc n) [] ys = refl
take-take_append (suc n) (x ∷ xs) ys = ap (◌∷◌ x) (take-take_append n xs ys)

take_short : (n : ℕ) (xs : List ℕ) → length xs ≤ n → take n xs ≡ xs
take_short zero [] h = refl
take_short zero (x ∷ xs) h = absurd (omega (arith, h))
take_short (suc n) [] h = refl
take_short (suc n) (x ∷ xs) h = ap (◌∷◌ x) (take_short n xs (omega (arith, h)))

take-append : (xs ys : List ℕ) → take (length xs) (xs ++ ys) ≡ xs
take-append [] ys = refl
take-append (x ∷ xs) ys = ap (◌∷◌ x) (take-append xs ys)

insert_all_lem :
    (ts : List Text) (d : MessageData)
    → take capacity (insert_all ts d).text ≡ take capacity (d.text ++ joined ts)
unfolding insert_all insert
insert_all_lem [] d = ap (take capacity) (sym (append-nil d.text))
insert_all_lem (t ∷ ts) d =
    insert_all_lem ts (insert t d)
    ∙ take-take_append capacity (d.text ++ t) (joined ts)
    ∙ ap (take capacity) (append_assoc d.text t (joined ts))

length-insert_all :
    (ts : List Text) (d : MessageData)
    → length d.text ≤ capacity
    → length (insert_all ts d).text ≤ capacity
unfolding insert_all insert
length-insert_all [] d h = h
length-insert_all (t ∷ ts) d h =
    length-insert_all ts (insert t d) (omega (arith, length-take capacity (d.text ++ t)))

-- Insertions that fit stand one after the other.
pub insert_all-fits :
    (ts : List Text) (d : MessageData)
    → length (d.text ++ joined ts) ≤ capacity
    → (insert_all ts d).text ≡ d.text ++ joined ts
insert_all-fits ts d h =
    let before : length d.text ≤ capacity = omega (arith, h, length-append d.text (joined ts)) in
    sym (take_short capacity (insert_all ts d).text (length-insert_all ts d before))
    ∙ insert_all_lem ts d
    ∙ take_short capacity (d.text ++ joined ts) h

last_byte-append : (xs : List ℕ) (b : ℕ) → last_byte (xs ++ b ∷ []) ≡ some b
unfolding last_byte
last_byte-append [] b = refl
last_byte-append (x ∷ []) b = refl
last_byte-append (x ∷ y ∷ xs) b = last_byte-append (y ∷ xs) b

last_byte-some : (b : ℕ) (bs : List ℕ) → (c : ℕ) × (last_byte (b ∷ bs) ≡ some c)
unfolding last_byte
last_byte-some b [] = (b, refl)
last_byte-some b (c ∷ bs) = last_byte-some c bs

-- A text that is logged for `w`: `w` and then at most a line's end, which stands last.
pub record IsLine (w t : List ℕ) : Type 0 where
  pub begins : take (length w) t ≡ w
  pub ends : last_byte t ≡ some 10
  pub room : length t ≤ length w + 1

final_text-IsLine :
    (w : List ℕ) → 0 < length w → (t : List ℕ) × (final_text w ≡ some t) × IsLine w t
unfolding final_text
final_text-IsLine [] h = absurd (omega (arith, h))
final_text-IsLine (b ∷ bs) h =
    let w = b ∷ bs in
    let (c, e) = last_byte-some b bs in
    elim (Bool-cases (c == 10)) [
      | inl ended ↦ (
        w,
        bind_some _ e ∙ rw ended refl,
        record {
          begins = take_short (length w) w (omega arith);
          ends = e ∙ ap some ((==_iff c 10).0 ended);
          room = omega arith;
        },
      )
      | inr open0 ↦ (
        w ++ 10 ∷ [],
        bind_some _ e ∙ rw open0 refl,
        record {
          begins = take-append w (10 ∷ []);
          ends = last_byte-append w 10;
          room = omega (arith, length-append w (10 ∷ []));
        },
      )
    ]

module _ (ts : List Text) (d : MessageData) where
  -- Any insertions after a text that is not empty and fits: what is logged is all of it cut at the room of
  -- the buffer, ends with a line's end, and leaves a place in the array of the message for the zero byte
  -- that Flush sets behind it.
  pub final_text-insert_all :
      0 < length d.text
      → length d.text ≤ capacity
      → (t : List ℕ) × (final_text (insert_all ts d).text ≡ some t)
        × IsLine (take capacity (d.text ++ joined ts)) t
        × (length t + 1 ≤ max_log_message_len)
  final_text-insert_all some_text fits =
      let w = (insert_all ts d).text in
      let small = length-insert_all ts d fits in
      let cut : take capacity (d.text ++ joined ts) ≡ w =
        sym (insert_all_lem ts d) ∙ take_short capacity w small in
      let all = length-take capacity (d.text ++ joined ts) in
      let long : 0 < length w =
        subst (λ (x : List ℕ). 0 < length x) cut
          (omega (arith, all, length-append d.text (joined ts), some_text)) in
      let (t, e, line) = final_text-IsLine w long in
      (t, e, subst (λ (x : List ℕ). IsLine x t) (sym cut) line, omega (arith, line.room, small))
