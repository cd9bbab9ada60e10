-- ===== src/Dashboard/Aqi/Agreement.antt =====
-- The dashboard's scale against the server's (packages/domain/src/aqi.ts).
use mathlib.Core.Path.{ap₂}
use air_quality_monitoring.Base.{
  ℕ, ◌≤◌, ◌<◌, ◌≡◌, refl, sym, ◌∙◌, List, [], ◌∷◌, arith, max, leb, map, Bool-cases, inl, inr, ◌/◌,
  ◌*◌, ap,
}
use air_quality_monitoring.Base.Rounding.{Hundredths}
use air_quality_monitoring.Base.Int.{pos_part}
use air_quality_monitoring.Domain
use air_quality_monitoring.Domain.Aqi.{calculate_aqi}
use air_quality_monitoring.Domain.Aqi.Category.{level}
use air_quality_monitoring.Dashboard.Aqi.{
  Breakpoint, aqi_category, hazardous_category, find_breakpoint, interpolate, pm25_breakpoints,
  pm10_breakpoints, sub_index, particles_to_aqi,
}

-- A row of the dashboard's tables as one of the server's.
abbrev server_row : Breakpoint → Domain.Aqi.Breakpoint
server_row b = Domain.Aqi.breakpoint b.c_low b.c_high b.i_low b.i_high

interpolate-server_row :
    (c : ℕ) (b : Breakpoint) → Domain.Aqi.interpolate c (server_row b) ≡ interpolate c b
unfolding interpolate Domain.Aqi.interpolate
interpolate-server_row c b = refl

find-server_row :
    (c : ℕ) (b : Breakpoint) (bs : List Breakpoint)
    → Domain.Aqi.find_breakpoint c (server_row b) (map server_row bs)
      ≡ server_row (find_breakpoint c b bs)
unfolding find_breakpoint Domain.Aqi.find_breakpoint
find-server_row c b [] = refl
find-server_row c b (next ∷ more) = elim (Bool-cases (leb c b.c_high)) [
  | inl h ↦ rw h
  | inr h ↦ rw h (find-server_row c next more)
]

sub_index-eq :
    (c : ℕ) (b : Breakpoint) (bs : List Breakpoint)
    → Domain.Aqi.interpolate c (Domain.Aqi.find_breakpoint c (server_row b) (map server_row bs))
      ≡ interpolate c (find_breakpoint c b bs)
sub_index-eq c b bs = rw find-server_row (interpolate-server_row c (find_breakpoint c b bs))

aqi-eq : (c25 c10 : Hundredths) → particles_to_aqi c25 c10 ≡ (calculate_aqi c25 c10).aqi
unfolding particles_to_aqi sub_index calculate_aqi Domain.Aqi.sub_index
aqi-eq c25 c10 =
    ap₂ max
      (sym (sub_index-eq (pos_part c25 / 10 * 10) pm25_breakpoints.first pm25_breakpoints.rest))
      (sym (sub_index-eq (pos_part c10 / 100 * 100) pm10_breakpoints.first pm10_breakpoints.rest))

-- The level of the dashboard's category is that of the server's.
level-eq-level : (aqi : ℕ) → (aqi_category aqi).level ≡ level (Domain.Aqi.aqi_category aqi)
unfolding aqi_category Domain.Aqi.aqi_category
level-eq-level aqi = ground arith

level_of_aqi :
    (c25 c10 : Hundredths)
    → level (Domain.Aqi.aqi_category (particles_to_aqi c25 c10))
      ≡ level (calculate_aqi c25 c10).category
unfolding calculate_aqi
level_of_aqi c25 c10 = ap (λ a. level (Domain.Aqi.aqi_category a)) (aqi-eq c25 c10)

-- The dashboard's index of two concentrations is the one that the server stores for them, and the
-- level (1 to 6) that the dashboard shows for it is that of the server's category.
pub particles_to_aqi-eq-calculate_aqi :
    (c25 c10 : Hundredths)
    → (particles_to_aqi c25 c10 ≡ (calculate_aqi c25 c10).aqi)
      × ((aqi_category (particles_to_aqi c25 c10)).level ≡ level (calculate_aqi c25 c10).category)
particles_to_aqi-eq-calculate_aqi c25 c10 =
    (aqi-eq c25 c10, level-eq-level (particles_to_aqi c25 c10) ∙ level_of_aqi c25 c10)

-- Up to 500 the category is the one whose range holds the index; above, it is the last.
pub aqi_category_range :
    (aqi : ℕ)
    → (aqi ≤ 500 → ((aqi_category aqi).min_aqi ≤ aqi) × (aqi ≤ (aqi_category aqi).max_aqi))
      × (500 < aqi → aqi_category aqi ≡ hazardous_category)
unfolding aqi_category
aqi_category_range aqi = (λ h. ground arith, λ h. ground arith)
