-- ===== src/Domain/Aqi/Category.antt =====
-- The categories, against the concentrations at which the EPA's bands begin.
use native.Mathlib.Nat.{max-eq_right, max-eq_left}
use air_quality_monitoring.Base.{
  ℕ, ◌≤◌, ◌≡◌, refl, arith, max, leb, ltb, if◌then◌else◌, inl, inr, Bool-cases, leb→le,
}
use air_quality_monitoring.Base.Int.{pos_part}
use air_quality_monitoring.Base.Rounding.{Hundredths}
use air_quality_monitoring.Domain.Aqi.{
  AqiCategory, good, moderate, unhealthy_sensitive, unhealthy, very_unhealthy, hazardous,
  breakpoint, find_breakpoint, sub_index, pm25_breakpoints, pm10_breakpoints, trunc_pm25,
  trunc_pm10, aqi_category, calculate_aqi,
}
use air_quality_monitoring.Domain.Aqi.Bands.{interpolate_bounds}
use air_quality_monitoring.Domain.Aqi.Order.{pm25_IsTable, pm10_IsTable}

-- The category of a concentration by the numbers at which the five worse categories begin.
abbrev pub by_starts : ℕ → ℕ → ℕ → ℕ → ℕ → ℕ → AqiCategory
by_starts s2 s3 s4 s5 s6 c =
    if ltb c s2
    then good
    else if ltb c s3
    then moderate
    else if ltb c s4
    then unhealthy_sensitive
    else if ltb c s5
    then unhealthy
    else if ltb c s6
    then very_unhealthy
    else hazardous

-- EPA 2024: moderate from 9.1, and so on.
abbrev pub pm25_category : ℕ → AqiCategory
pm25_category = by_starts 910 3550 5550 12550 22550

abbrev pub pm10_category : ℕ → AqiCategory
pm10_category = by_starts 5500 15500 25500 35500 42500

-- 1 (best) to 6 (worst).
abbrev pub level : AqiCategory → ℕ
level good = 1
level moderate = 2
level unhealthy_sensitive = 3
level unhealthy = 4
level very_unhealthy = 5
level hazardous = 6

pub aqi_category-sub_index_pm25 :
    (c : Hundredths)
    → aqi_category (sub_index c pm25_breakpoints trunc_pm25) ≡ pm25_category (pos_part c)
unfolding sub_index find_breakpoint aqi_category
aqi_category-sub_index_pm25 c =
    let x = trunc_pm25 (pos_part c) in
    let t = pm25_IsTable in
    ground (
      arith,
      interpolate_bounds x (breakpoint 0 900 0 50) t.0,
      interpolate_bounds x (breakpoint 910 3540 51 100) t.3.0,
      interpolate_bounds x (breakpoint 3550 5540 101 150) t.3.3.0,
      interpolate_bounds x (breakpoint 5550 12540 151 200) t.3.3.3.0,
      interpolate_bounds x (breakpoint 12550 22540 201 300) t.3.3.3.3.0,
      interpolate_bounds x (breakpoint 22550 32540 301 500) t.3.3.3.3.3,
    )

pub aqi_category-sub_index_pm10 :
    (c : Hundredths)
    → aqi_category (sub_index c pm10_breakpoints trunc_pm10) ≡ pm10_category (pos_part c)
unfolding sub_index find_breakpoint aqi_category
aqi_category-sub_index_pm10 c =
    let x = trunc_pm10 (pos_part c) in
    let t = pm10_IsTable in
    ground (
      arith,
      interpolate_bounds x (breakpoint 0 5400 0 50) t.0,
      interpolate_bounds x (breakpoint 5500 15400 51 100) t.3.0,
      interpolate_bounds x (breakpoint 15500 25400 101 150) t.3.3.0,
      interpolate_bounds x (breakpoint 25500 35400 151 200) t.3.3.3.0,
      interpolate_bounds x (breakpoint 35500 42400 201 300) t.3.3.3.3.0,
      interpolate_bounds x (breakpoint 42500 60400 301 500) t.3.3.3.3.3,
    )

level_mono : (a b : ℕ) → a ≤ b → level (aqi_category a) ≤ level (aqi_category b)
unfolding aqi_category
level_mono a b h = ground arith

level-max :
    (a b : ℕ)
    → level (aqi_category (max a b)) ≡ max (level (aqi_category a)) (level (aqi_category b))
level-max a b = elim (Bool-cases (leb a b)) [
  | inl h ↦ rw (max-eq_right (leb→le a b h)) (omega (arith, level_mono a b (leb→le a b h)))
  | inr h ↦ let le : b ≤ a = ground arith in rw (max-eq_left le) (omega (arith, level_mono b a le))
]

-- The category of a reading is the worse of the categories of its two concentrations, where a
-- concentration's category turns worse exactly at the lower ends of the EPA's bands: 9.1, 35.5, 55.5,
-- 125.5 and 225.5 for PM2.5, and 55, 155, 255, 355 and 425 for PM10. Negative concentrations count
-- as 0.
pub calculate_aqi_category :
    (c25 c10 : Hundredths)
    → level (calculate_aqi c25 c10).category
      ≡ max (level (pm25_category (pos_part c25))) (level (pm10_category (pos_part c10)))
unfolding calculate_aqi
calculate_aqi_category c25 c10 =
    rw (level-max, aqi_category-sub_index_pm25 c25, aqi_category-sub_index_pm10 c10) refl
