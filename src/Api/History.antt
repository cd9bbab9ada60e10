-- ===== src/Api/History.antt =====
-- The hour-bucketed histories of apps/api/src: GET /overview/history of overview/overview.controller.ts
-- and GET /sensors/:deviceId/history of sensors/sensors.controller.ts, over the sensors table and the
-- aggregate `readings_hourly`. An average is kept as its sum and its count.
pub mod Contents
pub mod Buckets
pub mod Places
mod Examples
use air_quality_monitoring.Base.{
  ℕ, Bool, true, false, not, ◌&&◌, Option, none, some, List, [], ◌∷◌, ◌++◌, map, foldl, max,
  if◌then◌else◌, length, keep, any,
}
use air_quality_monitoring.Base.Averages.{sum}
use air_quality_monitoring.Base.Groups.{grouped}
use air_quality_monitoring.Base.Int.{ℤ, pos, ◌+ℤ◌, ◌-ℤ◌, ◌*ℤ◌, leb_ℤ}
use air_quality_monitoring.Base.Rounding.{Hundredths, is_integer}
use air_quality_monitoring.Base.Slugs.{dash_runs, strip_dashes}
use air_quality_monitoring.Base.Strings.{String, str_eq}
use air_quality_monitoring.Api.Readings.{window_days}
use air_quality_monitoring.Api.Sensors.{Table, Host}

-- A row of `readings_hourly`; of a device and an hour there is one.
pub record HourlyRow : Type 0 where
  pub sensor_id : String
  pub bucket : ℕ
  pub avg_pm25 : Hundredths
  pub avg_pm10 : Hundredths
  pub avg_temperature : Hundredths
  pub avg_humidity : Hundredths
  pub max_aqi : ℕ
  pub sample_count : ℕ

-- SQL's avg.
pub record Average : Type 0 where
  pub sum : ℤ
  pub count : ℕ

pub record NetworkHourlyBucket : Type 0 where
  pub bucket : ℕ
  pub avg_pm25 : Average
  pub avg_pm10 : Average
  pub avg_temperature : Average
  pub avg_humidity : Average
  pub max_aqi : ℕ
  pub sensor_count : ℕ
  pub sample_count : ℕ

unfoldable pub average : (HourlyRow → Hundredths) → List HourlyRow → Average
unfolding ◌+ℤ◌
average column rows = record {
  sum = foldl (λ total row. total +ℤ column row) (pos 0) rows;
  count = length rows;
}

-- One row of the grouped answer.
unfoldable pub network_bucket : ℕ × List HourlyRow → NetworkHourlyBucket
network_bucket (hour, rows) = record {
  bucket = hour;
  avg_pm25 = average (λ row. row.avg_pm25) rows;
  avg_pm10 = average (λ row. row.avg_pm10) rows;
  avg_temperature = average (λ row. row.avg_temperature) rows;
  avg_humidity = average (λ row. row.avg_humidity) rows;
  max_aqi = foldl (λ greatest row. max greatest row.max_aqi) 0 rows;
  sensor_count = length rows;
  sample_count = sum (map (λ row. row.sample_count) rows);
}

-- `bucket >= now() - make_interval(days => windowDays)`; a hundredth of a day is 864000 ms.
unfoldable pub is_recent : ℕ → Hundredths → HourlyRow → Bool
is_recent now days row = leb_ℤ (pos now -ℤ days *ℤ 864000) (pos row.bucket)

abbrev pub concat {ℓ} : {A : Type ℓ} → List (ℕ × List A) → List A
concat [] = []
concat ((k, xs) ∷ rest) = xs ++ concat rest

-- The statement of GET /sensors/:deviceId/history. `make_interval` takes whole days, and PostgreSQL
-- refuses a statement with others: `none`.
unfoldable pub device_history :
    ℕ → String → Option Hundredths → List HourlyRow → Option (List HourlyRow)
device_history now device days hourly =
    if is_integer (window_days days)
    then some (
        concat (
          grouped (λ row. row.bucket)
            (keep (λ row. str_eq row.sensor_id device && is_recent now (window_days days) row)
              hourly)))
    else none

module _ (host : Host) (is_word : ℕ → Bool) where
  unfoldable pub place_key : String → String
  place_key name = strip_dashes (dash_runs is_word false (host.to_lower_case (host.trim name)))

  -- `neighborhood ? placeKey(neighborhood) : null`
  unfoldable pub wanted : Option String → Option String
  wanted none = none
  wanted (some name) = if str_eq name "" then none else some (place_key name)

  -- `wanted === null || (r.neighborhood && placeKey(r.neighborhood) === wanted)`
  unfoldable pub is_of_place : Option String → Option String → Bool
  is_of_place none place = true
  is_of_place (some key) none = false
  is_of_place (some key) (some place) = not (str_eq place "") && str_eq (place_key place) key

  unfoldable pub device_ids : Option String → Table → List String
  device_ids neighborhood sensors =
      map (λ row. row.device_id)
        (keep (λ row. row.is_active && is_of_place (wanted neighborhood) row.neighborhood) sensors)

-- The rows that the statement of GET /overview/history groups.
unfoldable pub is_in_scope : ℕ → Hundredths → List String → HourlyRow → Bool
is_in_scope now days ids row = is_recent now days row && any (λ id. str_eq row.sensor_id id) ids

unfoldable pub grouped_history :
    ℕ → Hundredths → List String → List HourlyRow → Option (List NetworkHourlyBucket)
grouped_history now days ids hourly =
    if is_integer days
    then some
        (map network_bucket (grouped (λ row. row.bucket) (keep (is_in_scope now days ids) hourly)))
    else none

unfoldable pub network_history :
    ℕ → Option Hundredths → List String → List HourlyRow → Option (List NetworkHourlyBucket)
network_history now days [] hourly = some []
network_history now days (id ∷ ids) hourly =
    grouped_history now (window_days days) (id ∷ ids) hourly

unfoldable pub history :
    Host
    → (ℕ → Bool)
    → ℕ
    → Option Hundredths
    → Option String
    → Table
    → List HourlyRow
    → Option (List NetworkHourlyBucket)
unfolding network_history grouped_history
history host is_word now days neighborhood sensors hourly =
    network_history now days (device_ids host is_word neighborhood sensors) hourly
