-- ===== src/Dashboard/Stats/Examples.antt =====
-- The averages and the groups at concrete rows: two sensors of one place, one of them stale, and a
-- sensor without a place.
use air_quality_monitoring.Base.{
  ℕ, ◌≤◌, ◌≡◌, refl, true, Option, none, some, List, [], ◌∷◌, All, arith,
}
use air_quality_monitoring.Base.Int.{pos}
use air_quality_monitoring.Base.Strings.{String}
use air_quality_monitoring.Dashboard.Model.{Sensor, Reading}
use air_quality_monitoring.Dashboard.Stats.{
  SensorRow, sensor_status, live_readings, summarise, rounded, mean, total_of,
}

abbrev pub sensor : String → Option String → String → Sensor
sensor id place key = record {
  id = id;
  name = id;
  name_ar = none;
  neighborhood = place;
  neighborhood_ar = none;
  neighborhood_id = key;
  latitude = pos 34450000;
  longitude = pos 35810000;
  is_active = true;
  install_date = none;
}

abbrev pub reading : String → ℕ → ℕ → Reading
reading id time aqi = record {
  sensor_id = id;
  time = time;
  pm25 = pos 1200;
  pm10 = pos 2000;
  temperature = pos 2100;
  humidity = pos 6000;
  pressure = none;
  aqi = aqi;
  battery_mv = none;
  signal_strength = none;
}

abbrev row : Sensor → Reading → SensorRow
row s r = record { sensor = s; reading = some r; status = sensor_status s (some r) 1000000 }

abbrev rows : List SensorRow
rows =
    row (sensor "a" (some "El Mina") "el-mina") (reading "a" 990000 41)
    ∷ row (sensor "b" (some "El Mina") "el-mina") (reading "b" 100000 90)
    ∷ row (sensor "c" none "") (reading "c" 995000 60)
    ∷ []

mean_of_two : ((summarise rows).aqi ≡ some 51) × ((summarise rows).online ≡ 2)
unfolding summarise rounded mean live_readings sensor_status total_of
mean_of_two = (refl, refl)

within : All (λ r. (41 ≤ r.aqi) × (r.aqi ≤ 60)) (live_readings rows)
unfolding live_readings sensor_status
within = ((omega arith, omega arith), ((omega arith, omega arith), tt))
