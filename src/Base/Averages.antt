-- ===== src/Base/Averages.antt =====
-- Sums, rounded means and greatest values of native numbers.
use native.Mathlib.Nat.{le-div_iff_mul-le, div-lt_iff_lt-mul}
use air_quality_monitoring.Base.{
  ℕ, suc, ◌+◌, ◌*◌, ◌/◌, ◌≤◌, ◌<◌, ◌≡◌, true, List, [], ◌∷◌, foldl, max, arith, length, All, any,
  ◌==◌, ==_iff,
}

abbrev pub sum : List ℕ → ℕ
sum [] = 0
sum (x ∷ xs) = x + sum xs

pub sum_bounded :
    (lo hi : ℕ) (xs : List ℕ)
    → All (λ x. (lo ≤ x) × (x ≤ hi)) xs
    → (lo * length xs ≤ sum xs) × (sum xs ≤ hi * length xs)
sum_bounded lo hi [] h = (omega arith, omega arith)
sum_bounded lo hi (x ∷ xs) ((l, u), hs) =
    let (below, above) = sum_bounded lo hi xs hs in (omega arith, omega arith)

-- The rounded quotient of a sum between `lo * n` and `hi * n` by `n` is between `lo` and `hi`.
pub quotient_bounded :
    (lo hi s n : ℕ)
    → 0 < n
    → lo * n ≤ s
    → s ≤ hi * n
    → (lo ≤ (2 * s + n) / (2 * n)) × ((2 * s + n) / (2 * n) ≤ hi)
quotient_bounded lo hi s n p l u = (
  (le-div_iff_mul-le {k = 2 * n} (omega arith)).1 (omega arith),
  (let below : (2 * s + n) / (2 * n) < suc hi =
        (div-lt_iff_lt-mul {k = 2 * n} (omega arith)).1 (omega arith) in
      omega arith),
)

-- A running maximum is at least each value, and is one of them.
pub foldl-max :
    (t : ℕ) (ts : List ℕ)
    → (t ≤ foldl max t ts)
      × All (λ x. x ≤ foldl max t ts) ts
      × (any (λ x. x == foldl max t ts) (t ∷ ts) ≡ true)
foldl-max t [] = (omega arith, tt, ground (arith, ==_iff t t))
foldl-max t (u ∷ ts) =
    let (le, all, there) = foldl-max (max t u) ts in (omega arith, (omega arith, all), ground arith)
