-- ===== src/Dashboard/Metrics/Ramp.antt =====
-- The colours of a ramp stay between those of its stops.
use air_quality_monitoring.Base.{
  ℕ, ◌+◌, ◌-◌, ◌*◌, ◌≤◌, ◌<◌, ◌≡◌, List, [], ◌∷◌, arith, leb, All, by_cases, subst,
}
use air_quality_monitoring.Base.Averages.{quotient_bounded}
use air_quality_monitoring.Base.Int.{pos, leb_ℤ, pos_part}
use air_quality_monitoring.Base.Rounding.{Hundredths}
use native.Mathlib.Nat.{mul-le-mul_right}
use air_quality_monitoring.Dashboard.Metrics.{Rgb, Stop, hex_to_rgb, mix, between, ramp_from, ramp}

-- Each stop is after the one before it.
abbrev pub Rising : ℕ → List Stop → Type 0
Rising from [] = Unit
Rising from (s ∷ stops) = (from < s.at) × Rising s.at stops

-- A channel of the colours, within bounds.
abbrev pub Within : (Rgb → ℕ) → ℕ → ℕ → Rgb → Type 0
Within channel lo hi colour = (lo ≤ channel colour) × (channel colour ≤ hi)

mean_bounded :
    (lo hi y x c b : ℕ)
    → (lo ≤ c) × (c ≤ hi)
    → (lo ≤ b) × (b ≤ hi)
    → (lo * (y + x) ≤ c * y + b * x) × (c * y + b * x ≤ hi * (y + x))
mean_bounded lo hi y x c b (cl, ch) (bl, bh) =
    let l1 : lo * y ≤ c * y = mul-le-mul_right y cl in
    let l2 : lo * x ≤ b * x = mul-le-mul_right x bl in
    let h1 : c * y ≤ hi * y = mul-le-mul_right y ch in
    let h2 : b * x ≤ hi * x = mul-le-mul_right x bh in (omega arith, omega arith)

mix_bounded :
    (lo hi x d c b : ℕ)
    → 0 < d
    → x ≤ d
    → (lo ≤ c) × (c ≤ hi)
    → (lo ≤ b) × (b ≤ hi)
    → (lo ≤ mix x d c b) × (mix x d c b ≤ hi)
unfolding mix
mix_bounded lo hi x d c b p l wc wb =
    let whole : d - x + x ≡ d = omega arith in
    let (low, high) = mean_bounded lo hi (d - x) x c b wc wb in
    quotient_bounded lo hi (c * (d - x) + b * x) d p
      (subst (λ d'. lo * d' ≤ c * (d - x) + b * x) whole low)
      (subst (λ d'. c * (d - x) + b * x ≤ hi * d') whole high)

-- The three channels, so that one theorem is about each.
pub data Channel : Type 0 where
  red green blue : Channel

abbrev pub channel : Channel → Rgb → ℕ
channel red colour = colour.r
channel green colour = colour.g
channel blue colour = colour.b

abbrev pub StopsWithin : Channel → ℕ → ℕ → List Stop → Type 0
StopsWithin k lo hi = All (λ s. Within (channel k) lo hi (hex_to_rgb s.hex))

module _ (k : Channel) (lo hi : ℕ) where
  between-Within :
      (s t : Stop) (v : ℕ)
      → s.at < t.at
      → s.at < v
      → v ≤ t.at
      → Within (channel k) lo hi (hex_to_rgb s.hex)
      → Within (channel k) lo hi (hex_to_rgb t.hex)
      → Within (channel k) lo hi (between s t v)
  unfolding between
  between-Within s t v r l u ws wt =
      elim k
          as (λ k.
            Within (channel k) lo hi (hex_to_rgb s.hex)
            → Within (channel k) lo hi (hex_to_rgb t.hex)
            → Within (channel k) lo hi (between s t v)) [
              | red ↦ λ ws wt.
                  mix_bounded lo hi (v - s.at) (t.at - s.at) _ _ (omega arith) (omega arith) ws wt
              | green ↦ λ ws wt.
                  mix_bounded lo hi (v - s.at) (t.at - s.at) _ _ (omega arith) (omega arith) ws wt
              | blue ↦ λ ws wt.
                  mix_bounded lo hi (v - s.at) (t.at - s.at) _ _ (omega arith) (omega arith) ws wt
            ]
        ws wt

  ramp_from-Within :
      (s : Stop) (stops : List Stop) (v : ℕ)
      → Rising s.at stops
      → s.at < v
      → StopsWithin k lo hi (s ∷ stops)
      → Within (channel k) lo hi (ramp_from s stops v)
  unfolding ramp_from
  ramp_from-Within s [] v r l (w, ws) = w
  ramp_from-Within s (t ∷ stops) v (r, rs) l (w, (wt, ws)) =
      by_cases (leb v t.at) (λ e. rw (e, ramp_from) (between-Within s t v r l (ground arith) w wt))
        (λ e. rw (e, ramp_from) (ramp_from-Within t stops v rs (ground arith) (wt, ws)))

  -- A ramp over rising stops never leaves the range of their colours: whatever the value, each channel
  -- of its colour is between the bounds that this channel of every stop is between.
  pub ramp-Within :
      (s : Stop) (stops : List Stop) (v : Hundredths)
      → Rising s.at stops
      → StopsWithin k lo hi (s ∷ stops)
      → Within (channel k) lo hi (ramp s stops v)
  unfolding ramp
  ramp-Within s stops v r (w, ws) =
      by_cases (leb_ℤ v (pos s.at)) (λ e. rw (e, ramp) w)
        (λ e. rw (e, ramp) (ramp_from-Within s stops (pos_part v) r (ground arith) (w, ws)))
