-- ===== src/Domain/Aqi/Bands.antt =====
-- Where in its band an index lies.
use native.Mathlib.Nat.{
  le_trans, le-div_iff_mul-le, div-lt_iff_lt-mul, div-mul-le_self, mul-le-mul_left,
}
use air_quality_monitoring.Base.{ℕ, ◌+◌, ◌-◌, ◌*◌, ◌/◌, ◌≤◌, ◌<◌, ◌≡◌, ap, arith, max, min}
use air_quality_monitoring.Domain.Aqi.{Breakpoint, interpolate}

-- A band with a width and a range of indices.
pub record IsBand (b : Breakpoint) : Type 0 where
  pub width : b.c_low < b.c_high
  pub indices : b.i_low ≤ b.i_high

div_mono : (k : ℕ) {m n : ℕ} → 0 < k → m ≤ n → m / k ≤ n / k
div_mono k {m} h le = (le-div_iff_mul-le h).1 (le_trans (div-mul-le_self m k) le)

-- `Math.round` of x/w + i lies from i to i + k if x/w is at most k.
round_bounds :
    (w x i k : ℕ)
    → 0 < w
    → x ≤ k * w
    → (i ≤ (2 * (x + i * w) + w) / (2 * w)) × ((2 * (x + i * w) + w) / (2 * w) < i + k + 1)
round_bounds w x i k hw hx = (
  (le-div_iff_mul-le (omega arith)).1 (omega arith),
  (div-lt_iff_lt-mul (omega arith)).1 (omega arith),
)

-- How far the clamped concentration is into the band.
abbrev depth : ℕ → Breakpoint → ℕ
depth c b = min (max c b.c_low) b.c_high - b.c_low

depth-le : (c : ℕ) (b : Breakpoint) → depth c b ≤ b.c_high - b.c_low
depth-le c b = omega arith

-- The index of a band lies in its range.
pub interpolate_bounds :
    (c : ℕ) (b : Breakpoint) → IsBand b → (b.i_low ≤ interpolate c b) × (interpolate c b ≤ b.i_high)
unfolding interpolate
interpolate_bounds c b h =
    let w = b.c_high - b.c_low in
    let k = b.i_high - b.i_low in
    let pos_w : 0 < w = omega (arith, h.width) in
    let (lo, hi) =
      round_bounds w (k * depth c b) b.i_low k pos_w (mul-le-mul_left k (depth-le c b)) in
    (lo, omega (arith, h.indices))

-- The index grows with the concentration.
pub interpolate_mono :
    (c d : ℕ) (b : Breakpoint) → IsBand b → c ≤ d → interpolate c b ≤ interpolate d b
unfolding interpolate
interpolate_mono c d b h le =
    let w = b.c_high - b.c_low in
    let k = b.i_high - b.i_low in
    let deeper : depth c b ≤ depth d b = omega arith in
    div_mono (2 * w) (omega (arith, h.width)) (omega (arith, mul-le-mul_left k deeper))

-- The ends of the band have the ends of its range.
pub interpolate_low : (c : ℕ) (b : Breakpoint) → IsBand b → c ≤ b.c_low → interpolate c b ≡ b.i_low
unfolding interpolate
interpolate_low c b h le =
    let w = b.c_high - b.c_low in
    let k = b.i_high - b.i_low in
    let none_deep : depth c b ≤ 0 = omega (arith, h.width) in
    let x : k * depth c b ≤ 0 * w = omega (arith, mul-le-mul_left k none_deep) in
    let (lo, hi) = round_bounds w (k * depth c b) b.i_low 0 (omega (arith, h.width)) x in
    omega arith

pub interpolate_high :
    (c : ℕ) (b : Breakpoint) → IsBand b → b.c_high ≤ c → interpolate c b ≡ b.i_high
unfolding interpolate
interpolate_high c b h le =
    let w = b.c_high - b.c_low in
    let k = b.i_high - b.i_low in
    let pos_w : 0 < w = omega (arith, h.width) in
    let full : depth c b ≡ w = omega (arith, h.width) in
    let x : k * depth c b ≡ k * w = ap (◌*◌ k) full in
    let (lo, hi) = round_bounds w (k * depth c b) b.i_low k pos_w (omega arith) in
    let up : (b.i_low + k) * (2 * w) ≤ 2 * (k * depth c b + b.i_low * w) + w = omega arith in
    let reached = (le-div_iff_mul-le {k = 2 * w} (omega arith)).1 up in omega (arith, h.indices)
