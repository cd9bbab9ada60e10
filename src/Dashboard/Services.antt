-- ===== src/Dashboard/Services.antt =====
-- apps/dashboard/src/services/http-sensor-service.ts: how readings of the API become the dashboard's.
-- `toLowerCase` and `Date.parse` are the platform's.
pub mod Order
pub mod Client
use air_quality_monitoring.Base.{
  ℕ, Bool, true, false, Option, none, some, List, [], ◌∷◌, if◌then◌else◌, reverse,
}
use air_quality_monitoring.Base.Int.{ℤ}
use air_quality_monitoring.Base.Rounding.{Hundredths}
use air_quality_monitoring.Base.Strings.{String, str_eq}
use air_quality_monitoring.Dashboard.Model.{Reading}

-- A missing field and a null one are read alike by `??`.
pub record ApiReading : Type 0 where
  pub time : Option String
  pub timestamp : Option String
  pub sensor_id : Option String
  pub device_id : Option String
  pub pm25 : Hundredths
  pub pm10 : Hundredths
  pub temperature : Hundredths
  pub humidity : Hundredths
  pub pressure : Option Hundredths
  pub aqi : ℕ
  pub battery_mv : Option ℤ
  pub signal_strength : Option ℤ

-- `none` is NaN.
pub record Platform : Type 0 where
  pub to_lower_case : String → String
  pub parse_date : String → Option ℕ

-- `a ?? b`
abbrev pub or_else : Option String → Option String → Option String
or_else none b = b
or_else (some a) b = some a

-- `text ?? ''`
abbrev pub or_empty : Option String → String
or_empty none = ""
or_empty (some text) = text

module _ (platform : Platform) where
  unfoldable pub device_key : String → String
  device_key device = platform.to_lower_case device

  -- The reading of a row whose id and time are there.
  unfoldable pub reading_at : ApiReading → String → ℕ → Reading
  reading_at r id time = record {
    sensor_id = device_key id;
    time = time;
    pm25 = r.pm25;
    pm10 = r.pm10;
    temperature = r.temperature;
    humidity = r.humidity;
    pressure = r.pressure;
    aqi = r.aqi;
    battery_mv = r.battery_mv;
    signal_strength = r.signal_strength;
  }

  abbrev pub row_time : ApiReading → Option ℕ
  row_time r = platform.parse_date (or_empty (or_else r.time r.timestamp))

  unfoldable pub to_reading : ApiReading → Option Reading
  to_reading r =
      let id = or_empty (or_else r.sensor_id r.device_id) in
      elim (row_time r) [
        | none ↦ none
        | some time ↦ if str_eq id "" then none else some (reading_at r id time)
      ]

  -- `rows.map(toReading).filter(isReading)`
  unfoldable pub to_readings : List ApiReading → List Reading
  to_readings [] = []
  to_readings (r ∷ rs) = elim (to_reading r) [
    | none ↦ to_readings rs
    | some reading ↦ reading ∷ to_readings rs
  ]

  unfoldable pub get_latest : List ApiReading → List Reading
  get_latest rows = to_readings rows

  -- The API answers newest first.
  unfoldable pub get_readings : List ApiReading → List Reading
  get_readings rows = reverse (to_readings rows)
