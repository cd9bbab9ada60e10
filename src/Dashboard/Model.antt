-- ===== src/Dashboard/Model.antt =====
-- apps/dashboard/src/types.ts: the view types that every data source maps into. A moment is a count of
-- milliseconds, a coordinate a count of millionths of a degree.
use air_quality_monitoring.Base.{ℕ, Bool, Option}
use air_quality_monitoring.Base.Int.{ℤ}
use air_quality_monitoring.Base.Rounding.{Hundredths}
use air_quality_monitoring.Base.Strings.{String}

pub record Sensor : Type 0 where
  pub id : String
  pub name : String
  pub name_ar : Option String
  pub neighborhood : Option String
  pub neighborhood_ar : Option String
  pub neighborhood_id : String
  pub latitude : ℤ
  pub longitude : ℤ
  pub is_active : Bool
  pub install_date : Option String

pub record Reading : Type 0 where
  pub sensor_id : String
  pub time : ℕ
  pub pm25 : Hundredths
  pub pm10 : Hundredths
  pub temperature : Hundredths
  pub humidity : Hundredths
  pub pressure : Option Hundredths
  pub aqi : ℕ
  pub battery_mv : Option ℤ
  pub signal_strength : Option ℤ

pub record HourlyPoint : Type 0 where
  pub sensor_id : String
  pub time : ℕ
  pub pm25 : Hundredths
  pub pm10 : Hundredths
  pub temperature : Hundredths
  pub humidity : Hundredths
  pub max_aqi : ℕ
  pub samples : ℕ

pub record NetworkHourlyPoint : Type 0 where
  pub time : ℕ
  pub pm25 : Hundredths
  pub pm10 : Hundredths
  pub temperature : Hundredths
  pub humidity : Hundredths
  pub max_aqi : ℕ
  pub sensors : ℕ

pub data SensorStatus : Type 0 where
  online offline inactive : SensorStatus

pub data ConnectionState : Type 0 where
  connecting live reconnecting polling : ConnectionState
