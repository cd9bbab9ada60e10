-- ===== src/Dashboard/Store/Derived.antt =====
-- What apps/dashboard/src/stores/air.ts derives from its state and the rest of what it loads: cityTrend,
-- getRow, getNeighborhood, refreshSensors, onVisible and the hourly histories by sensor and range.
pub mod Trend
use air_quality_monitoring.Base.{
  ℕ, ◌*◌, Bool, not, ◌||◌, Option, none, some, List, [], ◌∷◌, ◌++◌, map, reverse, find,
  if◌then◌else◌,
}
use air_quality_monitoring.Base.Int.{ℤ, pos, ◌-ℤ◌}
use air_quality_monitoring.Base.Maps.{put, get}
use air_quality_monitoring.Base.Rounding.{Hundredths}
use air_quality_monitoring.Base.Strings.{String, append, str_eq}
use air_quality_monitoring.Dashboard.Model.{Sensor, Reading, HourlyPoint, NetworkHourlyPoint}
use air_quality_monitoring.Dashboard.Stats.{
  SensorRow, Mean, AirSummary, NeighborhoodSummary, summarise, group_by_neighborhood,
}
use air_quality_monitoring.Dashboard.Stats.Series.{SeriesPoint, to_series}
use air_quality_monitoring.Dashboard.Store.{AirState, rows, hour}

-- A number of the API beside a live mean.
abbrev pub exact : Hundredths → Mean
exact x = record { sum = x; count = 1 }

abbrev pub exact_point : SeriesPoint Hundredths → SeriesPoint Mean
exact_point p = record {
  time = p.time;
  pm25 = exact p.pm25;
  pm10 = exact p.pm10;
  aqi = p.aqi;
  sensors = p.sensors;
}

-- The live value, if there is one of all three.
abbrev pub live_point : ℕ → ℕ → Option ℕ → Option Mean → Option Mean → List (SeriesPoint Mean)
live_point now online none pm25 pm10 = []
live_point now online (some aqi) none pm10 = []
live_point now online (some aqi) (some pm25) none = []
live_point now online (some aqi) (some pm25) (some pm10) =
    record { time = now; pm25 = pm25; pm10 = pm10; aqi = aqi; sensors = online } ∷ []

-- The live value after a series that is not empty.
abbrev pub with_live : List (SeriesPoint Mean) → List (SeriesPoint Mean) → List (SeriesPoint Mean)
with_live [] live = []
with_live (p ∷ series) live = (p ∷ series) ++ live

unfoldable pub city_trend : AirState → List NetworkHourlyPoint → List (SeriesPoint Mean)
city_trend s points =
    let live = summarise (rows s) in
    with_live (map exact_point (to_series points (pos s.now -ℤ pos (24 * hour))))
      (live_point s.now live.online live.aqi live.pm25 live.pm10)

-- `new Map(rows…).get(…)`: of rows with one id the last is kept.
unfoldable pub get_row : (String → String) → String → AirState → Option SensorRow
get_row to_lower_case id s =
    find (λ row. str_eq row.sensor.id (to_lower_case id)) (reverse (rows s))

unfoldable pub get_neighborhood : String → AirState → Option NeighborhoodSummary
get_neighborhood id s = find (λ n. str_eq n.id id) (group_by_neighborhood (rows s))

-- The answer of getSensors, or `none` where it failed or there is no service.
unfoldable pub refresh_sensors : Option (List Sensor) → AirState → AirState
refresh_sensors none s = s
refresh_sensors (some sensors) s = record s { sensors = sensors }

-- The clock when the page is shown again; the sync that follows is `sync_latest`.
unfoldable pub on_visible : Bool → Bool → ℕ → AirState → AirState
on_visible is_visible ready server_now s =
    if not is_visible || not ready then s else record s { now = server_now }

abbrev pub HourlyHistory : Type 0
HourlyHistory = List (String × List HourlyPoint)

module _ (to_string : ℕ → String) where
  abbrev pub hourly_key : String → ℕ → String
  hourly_key id days = append id (append ":" (to_string days))

  -- What the source answered, under its sensor and range.
  unfoldable pub load_hourly : String → ℕ → List HourlyPoint → HourlyHistory → HourlyHistory
  load_hourly id days points histories = put (hourly_key id days) points histories

  unfoldable pub get_hourly : String → ℕ → HourlyHistory → Option (List HourlyPoint)
  get_hourly id days histories = get (hourly_key id days) histories

-- fetchReadings and fetchHourly: the source's answer, or nothing without a service.
abbrev pub fetched {ℓ} : {A : Type ℓ} → Option (List A) → List A
fetched none = []
fetched (some answer) = answer
