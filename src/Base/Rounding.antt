-- ===== src/Base/Rounding.antt =====
-- `Math.round`, `Math.floor` and `Number.isInteger` at a quotient `n / d` with `0 < d`.
--
-- The numbers of the program are decimals with at most two places: measurements are carried on the
-- wire in tenths or hundredths. A number is modelled by its count of hundredths, an integer, and
-- the arithmetic on it is exact.
use Prim.Native.Nat.{ℕ, suc, ◌+◌, ◌-◌, ◌*◌, ◌/◌, ◌%◌}
use mathlib.Core.Bool.{Bool}
use air_quality_monitoring.Base.Tests.{leb, ◌==◌, if◌then◌else◌}
use air_quality_monitoring.Base.Int.{ℤ, pos, negsuc, pos_part, neg_part}

-- A JavaScript number, in hundredths.
abbrev pub Hundredths : Type 0
Hundredths = ℤ

-- `Math.round (n / d)`: the nearest integer, a tie goes up.
unfoldable pub round_div : ℤ → ℕ → ℤ
round_div (pos n) d = pos ((2 * n + d) / (2 * d))
round_div (negsuc n) d = if leb (2 * suc n) d then pos 0 else negsuc ((2 * suc n - d - 1) / (2 * d))

-- `Math.floor (n / d)`.
unfoldable pub floor_div : ℤ → ℕ → ℤ
floor_div (pos n) d = pos (n / d)
floor_div (negsuc n) d = negsuc (n / d)

-- `Number.isInteger` of a count of hundredths.
unfoldable pub is_integer : Hundredths → Bool
is_integer x = (pos_part x + neg_part x) % 100 == 0
