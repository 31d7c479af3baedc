-- ===== src/Base/Format.antt =====
-- The texts of C: literals as bytes, decimal numbers, snprintf into an array, strings in memory.
use Prim.Native.Char.{code}
use Prim.Native.String.{String}
use Prim.Native.Nat.{ℕ, zero, suc, ◌+◌, ◌-◌, ◌/◌, ◌%◌, ◌≤◌}
use mathlib.Core.Logic.{inl, inr}
use mathlib.Core.Path.{◌≡◌, refl, ap}
use mathlib.Core.Option.{Option, none, some}
use mathlib.Core.List.{List, [], ◌∷◌, ◌++◌}
use native.Mathlib.Omega.{arith}
use openmi_base.Base.Tests.{ltb, ◌==◌, if◌then◌else◌, Bool-cases}
use openmi_base.Base.Lists.{length, take, length-append, ◌>>=◌}
use openmi_base.Base.Int.{ℤ, pos, negsuc}
use openmi_base.Base.Dict.{Text}

abbrev pub codes : String → Text
codes String.[] = []
codes (String.◌∷◌ c s) = code c ∷ codes s

-- The decimal digits of a number, `rounds + 1` at most.
abbrev pub digits : ℕ → ℕ → Text
digits zero n = (48 + n % 10) ∷ []
digits (suc rounds) n =
    let more = digits rounds (n / 10) ++ (48 + n % 10) ∷ [] in
    if ltb n 10 then (48 + n) ∷ [] else more

abbrev pub zeros : ℕ → Text
zeros zero = []
zeros (suc n) = 48 ∷ zeros n

-- `%0wd` of an int, which has ten digits at most.
unfoldable pub padded : ℕ → ℤ → Text
padded w (pos n) = zeros (w - length (digits 10 n)) ++ digits 10 n
padded w (negsuc n) = 45 ∷ (zeros (w - 1 - length (digits 10 (suc n))) ++ digits 10 (suc n))

-- `%d`
abbrev pub decimal : ℤ → Text
decimal z = padded 0 z

-- `%lu`, which has 20 digits at most.
abbrev pub unsigned : ℕ → Text
unsigned n = digits 19 n

-- The array of `size` bytes after snprintf, up to the end of the text in it.
unfoldable pub snprintf : ℕ → Text → Text
snprintf size text = take (size - 1) text ++ 0 ∷ []

-- The bytes of a string in memory; none where its end lies outside.
unfoldable pub c_string : List ℕ → Option Text
c_string [] = none
c_string (b ∷ bs) =
    let later = (do t ← c_string bs; some (b ∷ t)) in if b == 0 then some [] else later

-- The first `n` bytes of the memory; none where it is shorter.
unfoldable pub read_bytes : ℕ → List ℕ → Option (List ℕ)
read_bytes zero memory = some []
read_bytes (suc n) [] = none
read_bytes (suc n) (b ∷ bs) = do t ← read_bytes n bs; some (b ∷ t)

length-zeros : (n : ℕ) → length (zeros n) ≡ n
length-zeros zero = refl
length-zeros (suc n) = ap suc (length-zeros n)

pub padded_width : (w : ℕ) (z : ℤ) → w ≤ length (padded w z)
unfolding padded
padded_width w (pos n) =
    let d = digits 10 n in
    let z = w - length d in omega (arith, length-append (zeros z) d, length-zeros z)
padded_width w (negsuc n) =
    let d = digits 10 (suc n) in
    let z = w - 1 - length d in omega (arith, length-append (zeros z) d, length-zeros z)

pub read_bytes_all : (xs ys : List ℕ) → read_bytes (length xs) (xs ++ ys) ≡ some xs
unfolding read_bytes
read_bytes_all [] ys = refl
read_bytes_all (x ∷ xs) ys = rw (read_bytes_all xs ys) refl

c_string_ends : (s t : Text) → (u : Text) × (c_string (s ++ 0 ∷ t) ≡ some u)
unfolding c_string
c_string_ends [] t = ([], refl)
c_string_ends (c ∷ cs) t =
    let (u, e) = c_string_ends cs t in
    elim (Bool-cases (c == 0)) [ inl stop ↦ ([], rw stop refl) | inr on ↦ (c ∷ u, rw (on, e) refl) ]

pub snprintf_ends : (size : ℕ) (t : Text) → (u : Text) × (c_string (snprintf size t) ≡ some u)
unfolding snprintf
snprintf_ends size t = c_string_ends (take (size - 1) t) []
