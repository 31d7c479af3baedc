-- ===== src/Async/Buffer.antt =====
-- async_logging.h, DataBuffer<SIZE>: `SIZE` bytes of memory and the place `cur_` in it.
use mathlib.Core.Path.{ap₂}
use mathlib.Core.List.{append_assoc}
use openmi_base.Base.{
  ℕ, zero, suc, ◌+◌, ◌-◌, ◌≤◌, ◌<◌, ◌≡◌, refl, sym, ap, ◌∙◌, List, [], ◌∷◌, ◌++◌, Option, none,
  some, length, take, drop, set, length-set, length-append, length-take, length-drop, ltb,
  Bool-cases, inl, inr, lt→ltb, ltb→lt, if◌then◌else◌, arith,
}

pub record Buffer : Type 0 where
  pub memory : List ℕ
  pub cur : ℕ

-- `sizeof(data_)` is the length of the memory.
unfoldable pub avail : Buffer → ℕ
avail b = length b.memory - b.cur

-- What Data() and Length() describe.
unfoldable pub view : Buffer → List ℕ
view b = take b.cur b.memory

-- `memcpy` of `msg` to place `i`.
unfoldable pub copy_at : ℕ → List ℕ → List ℕ → List ℕ
copy_at i msg memory = take i memory ++ (msg ++ drop (i + length msg) memory)

unfoldable pub append : Buffer → List ℕ → Buffer
append b msg =
    if ltb (length msg) (avail b)
    then record { memory = copy_at b.cur msg b.memory; cur = b.cur + length msg }
    else b

unfoldable pub reset : Buffer → Buffer
reset b = record b { cur = 0 }

-- The memory after `memset` with 0.
abbrev cleared : ℕ → List ℕ
cleared zero = []
cleared (suc n) = 0 ∷ cleared n

unfoldable pub set_zero : Buffer → Buffer
set_zero b = record b { memory = cleared (length b.memory) }

length-cleared : (n : ℕ) → length (cleared n) ≡ n
length-cleared zero = refl
length-cleared (suc n) = ap suc (length-cleared n)

pub length-set_zero : (b : Buffer) → length (set_zero b).memory ≡ length b.memory
unfolding set_zero
length-set_zero b = length-cleared (length b.memory)

pub set_zero-cur : (b : Buffer) → (set_zero b).cur ≡ b.cur
unfolding set_zero
set_zero-cur b = refl

-- ToString: the terminator goes to `cur_`, which must lie inside the memory.
unfoldable pub to_string : Buffer → Option (Buffer × List ℕ)
to_string b =
    if ltb b.cur (length b.memory)
    then some (record b { memory = set b.memory b.cur 0 }, take b.cur (set b.memory b.cur 0))
    else none

-- A buffer of `size` bytes whose place lies inside its memory.
pub record IsBuffer (size : ℕ) (b : Buffer) : Type 0 where
  pub sized : length b.memory ≡ size
  pub inside : b.cur < size

take-append_le : (n : ℕ) (xs ys : List ℕ) → n ≤ length xs → take n (xs ++ ys) ≡ take n xs
take-append_le zero xs ys h = refl
take-append_le (suc n) [] ys h = absurd (omega arith)
take-append_le (suc n) (x ∷ xs) ys h = ap (◌∷◌ x) (take-append_le n xs ys (omega arith))

take-append_exact : (xs ys : List ℕ) → take (length xs) (xs ++ ys) ≡ xs
take-append_exact [] ys = refl
take-append_exact (x ∷ xs) ys = ap (◌∷◌ x) (take-append_exact xs ys)

copy_at-view :
    (i : ℕ) (msg memory : List ℕ)
    → i ≤ length memory
    → take (i + length msg) (copy_at i msg memory) ≡ take i memory ++ msg
unfolding copy_at
copy_at-view i msg memory h =
    ap (λ (t : List ℕ). take (i + length msg) t)
      (sym (append_assoc (take i memory) msg (drop (i + length msg) memory)))
    ∙ ap (λ (n : ℕ). take n ((take i memory ++ msg) ++ drop (i + length msg) memory)) sizes
    ∙ take-append_exact (take i memory ++ msg) (drop (i + length msg) memory)
  where
    sizes : i + length msg ≡ length (take i memory ++ msg)
    sizes = omega (arith, length-append (take i memory) msg, length-take i memory)

pub length-copy_at :
    (i : ℕ) (msg memory : List ℕ)
    → i + length msg ≤ length memory
    → length (copy_at i msg memory) ≡ length memory
unfolding copy_at
length-copy_at i msg memory h = omega (
  arith,
  length-append (take i memory) (msg ++ drop (i + length msg) memory),
  length-append msg (drop (i + length msg) memory),
  length-take i memory,
  length-drop (i + length msg) memory,
)

take-set : (n : ℕ) (xs : List ℕ) → take n (set xs n 0) ≡ take n xs
take-set zero xs = refl
take-set (suc n) [] = refl
take-set (suc n) (x ∷ xs) = ap (◌∷◌ x) (take-set n xs)

module _ (size : ℕ) (b : Buffer) (ok : IsBuffer size b) (msg : List ℕ) where
  -- A message that fits is added at the end.
  pub view-append_fits : length msg < avail b → view (append b msg) ≡ view b ++ msg
  unfolding append view avail
  view-append_fits h =
      rw (lt→ltb (length msg) (avail b) h)
        (copy_at-view b.cur msg b.memory (omega (arith, ok.sized, ok.inside)))

  pub append-IsBuffer : IsBuffer size (append b msg)
  unfolding append avail
  append-IsBuffer = elim (Bool-cases (ltb (length msg) (avail b))) [
    | inl fits ↦
        let h = ltb→lt (length msg) (avail b) fits in
        rw fits (record {
          sized = length-copy_at b.cur msg b.memory (omega arith) ∙ ok.sized;
          inside = omega (arith, ok.sized);
        })
    | inr full ↦ rw full ok
  ]

  -- Append writes inside the memory and keeps one byte free: a message that is shorter than the room
  -- left is added at the end of what Data() shows, any other message is dropped without a trace.
  pub append_lem :
      IsBuffer size (append b msg)
      × (view (append b msg) ≡ (if ltb (length msg) (avail b) then view b ++ msg else view b))
  append_lem = (append-IsBuffer, shown)
    where
      shown : view (append b msg) ≡ (if ltb (length msg) (avail b) then view b ++ msg else view b)
      shown = elim (Bool-cases (ltb (length msg) (avail b))) [
        | inl fits ↦ rw fits (view-append_fits (ltb→lt (length msg) (avail b) fits))
        | inr full ↦ unfold append in rw full refl
      ]

  -- What is too long for an empty buffer is dropped.
  pub view-append_empty :
      b.cur ≡ 0 → view (append b msg) ≡ (if ltb (length msg) size then msg else [])
  view-append_empty empty =
      append_lem.1
      ∙ ap₂ (λ (n : ℕ) (v : List ℕ). if ltb (length msg) n then v ++ msg else v) room blank
    where
      room : avail b ≡ size
      room = unfold avail in omega (arith, ok.sized)

      blank : view b ≡ []
      blank = unfold view in ap (λ (n : ℕ). take n b.memory) empty

-- On a valid buffer ToString stays inside the memory and returns what Data() shows.
pub to_string-view :
    (size : ℕ) (b : Buffer)
    → IsBuffer size b
    → (c : Buffer) × (to_string b ≡ some (c, view b)) × (view c ≡ view b) × IsBuffer size c
unfolding to_string view
to_string-view size b ok = (
  record b { memory = set b.memory b.cur 0 },
  rw (lt→ltb b.cur (length b.memory) (omega (arith, ok.sized, ok.inside)), take-set b.cur b.memory)
      refl,
  take-set b.cur b.memory,
  record { sized = length-set b.memory b.cur 0 ∙ ok.sized; inside = ok.inside },
)
