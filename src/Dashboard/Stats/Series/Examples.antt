-- ===== src/Dashboard/Stats/Series/Examples.antt =====
-- A series of two hours in one hour of the clock and one in another.
use air_quality_monitoring.Base.{ℕ, ◌/◌, ◌%◌, ◌≤◌, ◌<◌, ◌≡◌, refl, [], ◌∷◌, arith}
use air_quality_monitoring.Base.Int.{pos}
use air_quality_monitoring.Dashboard.Aqi.{
  aqi_category, particles_to_aqi, sub_index, interpolate, find_breakpoint,
}
use air_quality_monitoring.Dashboard.Model.{NetworkHourlyPoint}
use air_quality_monitoring.Dashboard.Stats.Series.{HourlySeries, to_series, level_counts}

abbrev pub point : ℕ → ℕ → NetworkHourlyPoint
point time level = record {
  time = time;
  pm25 = pos level;
  pm10 = pos level;
  temperature = pos 2100;
  humidity = pos 6000;
  max_aqi = 90;
  sensors = 3;
}

-- The clock of UTC.
abbrev utc_hours : ℕ → ℕ
utc_hours t = t / 3600000 % 24

utc-in_day : (t : ℕ) → utc_hours t < 24
utc-in_day t = omega arith

abbrev series : HourlySeries
series = to_series (point 3600000 900 ∷ point 7200000 4000 ∷ point 90000000 1000 ∷ []) (pos 0)

abbrev level_of : ℕ → ℕ
level_of aqi = (aqi_category aqi).level

level_of_range : (aqi : ℕ) → (1 ≤ level_of aqi) × (level_of aqi ≤ 6)
unfolding aqi_category
level_of_range aqi = ground arith

counts_of_series : level_counts series level_of ≡ 1 ∷ 1 ∷ 1 ∷ 0 ∷ 0 ∷ 0 ∷ []
unfolding level_counts to_series aqi_category particles_to_aqi sub_index interpolate find_breakpoint
counts_of_series = refl
