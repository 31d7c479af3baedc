-- ===== src/Timer/Elapsed.antt =====
-- timer.h, Timer: when the int of an elapsed time is right.
use openmi_base.Base.{ℕ, ◌+◌, ◌*◌, ◌%◌, ◌^◌, ◌<◌, ◌≡◌, ap, ◌∙◌, Bool, false, some, arith}
use openmi_base.Base.Int.{ℤ, pos, pos_part, neg_part, sub_ℕ, ◌+ℤ◌, ◌-ℤ◌, ◌*ℤ◌}
use openmi_base.Calendar.{TimeVal, to_int}
use openmi_base.Timer.{Timer, to_unsigned64, elapsed, get_elapsed}

-- A time after 1970.
abbrev pub at_time : ℕ → ℕ → TimeVal
at_time sec usec = record { tv_sec = pos sec; tv_usec = pos usec }

sub_ℕ-sum : (a b d : ℕ) → a ≡ b + d → sub_ℕ a b ≡ pos d
sub_ℕ-sum a b d e = ground (arith, e)

parts : (a b : ℕ) → pos_part (sub_ℕ a b) + b ≡ neg_part (sub_ℕ a b) + a
parts a b = ground arith

scaled : (x : ℤ) (k : ℕ) → pos_part (x *ℤ k) + neg_part x * k ≡ neg_part (x *ℤ k) + pos_part x * k
scaled x k = parts (pos_part x * k) (neg_part x * k)

module _ (s u s' u' d : ℕ) (e : s' * 1000000 + u' ≡ s * 1000000 + u + d) where
  -- The sum in its parts above and below zero: `x` are the seconds, `m` the product, `r` the rest.
  sums :
      (xp xn mp mn rp rn : ℕ)
      → xp + (0 + s) ≡ xn + (s' + 0)
      → mp + xn * 1000000 ≡ mn + xp * 1000000
      → rp + (0 + u) ≡ rn + (u' + 0)
      → mp + rp ≡ mn + rn + d
  sums xp xn mp mn rp rn x m r = omega (arith, e, x, m, r)

  -- A product of the seconds and 1000000 gives the microseconds between two times.
  from_product :
      (m : ℤ)
      → pos_part m + neg_part (pos s' -ℤ pos s) * 1000000
        ≡ neg_part m + pos_part (pos s' -ℤ pos s) * 1000000
      → (m +ℤ (pos u' -ℤ pos u)) ≡ pos d
  from_product m product = sub_ℕ-sum (pos_part m + pos_part rest) (neg_part m + neg_part rest) d (
      sums (pos_part x) (neg_part x) (pos_part m) (neg_part m) (pos_part rest) (neg_part rest)
        (parts (s' + 0) (0 + s)) product (parts (u' + 0) (0 + u)))
    where
      x : ℤ
      x = pos s' -ℤ pos s

      rest : ℤ
      rest = pos u' -ℤ pos u

  difference : ((pos s' -ℤ pos s) *ℤ 1000000 +ℤ (pos u' -ℤ pos u)) ≡ pos d
  difference = from_product _ (scaled (pos s' -ℤ pos s) 1000000)

twice :
    (xp xn yp yn zp zn : ℕ)
    → yp + xn * 1000 ≡ yn + xp * 1000
    → zp + yn * 1000 ≡ zn + yp * 1000
    → zp + xn * 1000000 ≡ zn + xp * 1000000
twice xp xn yp yn zp zn y z = omega (arith, y, z)

module _ (s u s' u' d : ℕ) (e : s' * 1000000 + u' ≡ s * 1000000 + u + d) where
  difference_twice : ((pos s' -ℤ pos s) *ℤ 1000 *ℤ 1000 +ℤ (pos u' -ℤ pos u)) ≡ pos d
  difference_twice =
      let x : ℤ = pos s' -ℤ pos s in
      from_product s u s' u' d e _
        (twice (pos_part x) (neg_part x) _ _ _ _ (scaled x 1000) (scaled (x *ℤ 1000) 1000))

small_unsigned : (d : ℕ) → d < 2 ^ 31 → d % 2 ^ 64 ≡ d
small_unsigned d h = omega (arith, h)

small_int : (d : ℕ) → d < 2 ^ 31 → to_int (pos d) ≡ pos d
small_int d h = ground (arith, h)

-- GetElapsed of a timer that was started and ended at two times after 1970.
pub get_elapsed_lem :
    (s u s' u' d : ℕ)
    → s' * 1000000 + u' ≡ s * 1000000 + u + d
    → d < 2 ^ 31
    → get_elapsed (record { start = at_time s u; end_ = some (at_time s' u') }) ≡ some (pos d)
unfolding get_elapsed
get_elapsed_lem s u s' u' d e small =
    ap (λ (z : ℤ). some (to_int (pos (to_unsigned64 z)))) (difference s u s' u' d e)
    ∙ ap (λ (n : ℕ). some (to_int (pos n))) (small_unsigned d small)
    ∙ ap some (small_int d small)

module _ (s u s' u' d : ℕ) (restart : Bool) where
  -- For two times after 1970 of which the second is fewer than 2^31 microseconds later: Elapsed at the
  -- second on a timer of the first, and GetElapsed after it where the timer is not started again, give
  -- exactly the microseconds between them.
  pub elapsed_lem :
      s' * 1000000 + u' ≡ s * 1000000 + u + d
      → d < 2 ^ 31
      → (t : Timer) → t.start ≡ at_time s u
      → ((elapsed (at_time s' u') restart t).0 ≡ pos d)
        × (get_elapsed (elapsed (at_time s' u') false t).1 ≡ some (pos d))
  unfolding elapsed get_elapsed
  elapsed_lem e small t first = (
    rw first (ap to_int (difference_twice s u s' u' d e) ∙ small_int d small),
    rw first (get_elapsed_lem s u s' u' d e small),
  )
