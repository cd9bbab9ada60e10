-- ===== src/Contracts/Reading.antt =====
-- `SensorReadingSchema` and `ReadingResponseSchema` of packages/contracts/src/sensor.ts. A timestamp
-- is its number of milliseconds; `toISOString` and `new Date` go from one to the other and back.
use air_quality_monitoring.Base.{ℕ, Bool, true, not, ◌&&◌, Option, none, some}
use air_quality_monitoring.Base.Int.{ℤ, pos, negsuc, leb_ℤ}
use air_quality_monitoring.Base.Rounding.{Hundredths, is_integer}
use air_quality_monitoring.Base.Strings.{String, str_eq}
use air_quality_monitoring.Domain.Aqi.{AqiCategory}

pub record SensorReading : Type 0 where
  pub device_id : String
  pub timestamp : ℕ
  pub pm25 : Hundredths
  pub pm10 : Hundredths
  pub pm1 : Option Hundredths
  pub temperature : Hundredths
  pub humidity : Hundredths
  pub pressure : Option Hundredths
  pub battery_mv : Option Hundredths
  pub signal_strength : Option Hundredths

-- `.optional()`
abbrev pub optional : (Hundredths → Bool) → Option Hundredths → Bool
optional check none = true
optional check (some x) = check x

-- `.min(lo).max(hi)`
abbrev pub in_range : ℤ → ℤ → Hundredths → Bool
in_range lo hi x = leb_ℤ lo x && leb_ℤ x hi

abbrev pub particles_in_range : Hundredths → Bool
particles_in_range = in_range (pos 0) (pos 655350)

-- The checks of the schema: those that every reading meets, in the order of its fields.
unfoldable pub is_sensor_reading : SensorReading → Bool
unfolding is_integer
is_sensor_reading r =
    not (str_eq r.device_id "")
    && particles_in_range r.pm25
    && particles_in_range r.pm10
    && optional particles_in_range r.pm1
    && in_range (negsuc 3999) (pos 8500) r.temperature
    && in_range (pos 0) (pos 10000) r.humidity
    && optional (in_range (pos 30000) (pos 110000)) r.pressure
    && optional is_integer r.battery_mv
    && optional is_integer r.signal_strength

-- The id of a response is `<device>:<timestamp>`, a pair here.
pub record ReadingId : Type 0 where
  pub device : String
  pub at : ℕ

pub record ReadingResponse : Type 0 where
  pub reading : SensorReading
  pub id : ReadingId
  pub sensor_id : String
  pub aqi : ℕ
  pub aqi_category : AqiCategory
