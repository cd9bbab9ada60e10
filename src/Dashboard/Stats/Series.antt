-- ===== src/Dashboard/Stats/Series.antt =====
-- The series of apps/dashboard/src/lib/stats.ts: toSeries, hourOfDayProfile and levelCounts. `N` is the
-- type of a particle level: a number of the API, or a mean.
pub mod Hours
pub mod Levels
pub mod Examples
use air_quality_monitoring.Base.{
  ℕ, zero, suc, ◌+◌, Bool, Option, none, some, List, [], ◌∷◌, ◌++◌, map, keep, get_or, set,
  replicate,
}
use air_quality_monitoring.Base.Int.{ℤ, pos, leb_ℤ}
use air_quality_monitoring.Base.Rounding.{Hundredths, floor_div}
use air_quality_monitoring.Dashboard.Aqi.{particles_to_aqi}
use air_quality_monitoring.Dashboard.Model.{NetworkHourlyPoint}
use air_quality_monitoring.Dashboard.Stats.{Mean, mean}

pub record SeriesPoint {ℓ} (N : Type ℓ) : Type ℓ where
  pub time : ℕ
  pub pm25 : N
  pub pm10 : N
  pub aqi : ℕ
  pub sensors : ℕ

abbrev pub HourlySeries : Type 0
HourlySeries = List (SeriesPoint Hundredths)

unfoldable pub series_point : NetworkHourlyPoint → SeriesPoint Hundredths
series_point point = record {
  time = point.time;
  pm25 = point.pm25;
  pm10 = point.pm10;
  aqi = particles_to_aqi point.pm25 point.pm10;
  sensors = point.sensors;
}

unfoldable pub to_series : List NetworkHourlyPoint → ℤ → HourlySeries
unfolding series_point
to_series points since = map series_point (keep (λ point. leb_ℤ since (pos point.time)) points)

pub record HourOfDay : Type 0 where
  pub hour : ℕ
  pub pm25 : Option Mean
  pub aqi : Option ℕ

-- `byHour[hour].push(point)`
abbrev pub push_at {ℓ} : {A : Type ℓ} → ℕ → A → List (List A) → List (List A)
push_at i a groups = set groups i (get_or groups i [] ++ a ∷ [])

-- The loop of hourOfDayProfile; `get_hours` is the hour of a moment in local time.
unfoldable pub by_hour : (ℕ → ℕ) → HourlySeries → List HourlySeries → List HourlySeries
by_hour get_hours [] groups = groups
by_hour get_hours (point ∷ series) groups =
    by_hour get_hours series (push_at (get_hours point.time) point groups)

-- A mean as particlesToAqi reads it: it truncates to tenths or units, so below a hundredth it reads
-- nothing.
abbrev pub mean_or_null : (Hundredths → Hundredths → ℕ) → Option Mean → Option Mean → Option ℕ
mean_or_null index none pm10 = none
mean_or_null index (some pm25) none = none
mean_or_null index (some pm25) (some pm10) =
    some (index (floor_div pm25.sum pm25.count) (floor_div pm10.sum pm10.count))

unfoldable pub hour_of_day : ℕ → HourlySeries → HourOfDay
hour_of_day hour points =
    let pm25 = mean (map (λ p. p.pm25) points) in
    let pm10 = mean (map (λ p. p.pm10) points) in
    record { hour = hour; pm25 = pm25; aqi = mean_or_null particles_to_aqi pm25 pm10 }

-- `byHour.map((points, hour) => …)`
unfoldable pub hours_of_day : ℕ → List HourlySeries → List HourOfDay
hours_of_day hour [] = []
hours_of_day hour (points ∷ groups) = hour_of_day hour points ∷ hours_of_day (suc hour) groups

unfoldable pub hour_of_day_profile : (ℕ → ℕ) → HourlySeries → List HourOfDay
unfolding by_hour hours_of_day
hour_of_day_profile get_hours series = hours_of_day 0 (by_hour get_hours series (replicate 24 []))

-- `counts[level - 1]++`; the levels are 1 to 6.
unfoldable pub count_level : ℕ → List ℕ → List ℕ
count_level zero counts = counts
count_level (suc i) counts = set counts i (get_or counts i 0 + 1)

unfoldable pub count_levels {ℓ} : {N : Type ℓ} → (ℕ → ℕ) → List (SeriesPoint N) → List ℕ → List ℕ
unfolding count_level
count_levels level_of [] counts = counts
count_levels level_of (point ∷ series) counts =
    count_levels level_of series (count_level (level_of point.aqi) counts)

unfoldable pub level_counts {ℓ} : {N : Type ℓ} → List (SeriesPoint N) → (ℕ → ℕ) → List ℕ
unfolding count_levels
level_counts series level_of = count_levels level_of series (replicate 6 0)
