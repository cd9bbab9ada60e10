-- ===== src/Api/Readings.antt =====
-- The readings that apps/api/src/sensors/sensors.controller.ts serves, and the relay of events by
-- apps/api/src/realtime/realtime.gateway.ts. The tables and the cache are those that the ingestion
-- service writes.
pub mod Chronology
pub mod EndToEnd
mod Examples
use air_quality_monitoring.Base.{
  ℕ, zero, ◌*◌, Bool, true, false, ◌&&◌, Option, none, some, List, [], ◌∷◌, if◌then◌else◌, ltb, leb,
  keep, take, Result, ok, throw,
}
use air_quality_monitoring.Base.Int.{ℤ, pos, negsuc, ◌-ℤ◌, ◌*ℤ◌, leb_ℤ, min_ℤ, max_ℤ}
use air_quality_monitoring.Base.Maps.{get}
use air_quality_monitoring.Base.Rounding.{Hundredths}
use air_quality_monitoring.Base.Strings.{String, str_eq}
use air_quality_monitoring.Contracts.Events.{AppEvent, reading_created, device_status}
use air_quality_monitoring.Contracts.Reading.{ReadingResponse}
use air_quality_monitoring.Ingestion.State.{Row, Cached}
use air_quality_monitoring.Api.Overview.{cached_readings}
use air_quality_monitoring.Api.Sensors.{Table, HttpError, not_found, find_active_device_ids}

-- `Number(text) || usual`, where `none` is NaN.
abbrev pub number_or : Hundredths → Option Hundredths → Hundredths
number_or usual none = usual
number_or usual (some (pos zero)) = usual
number_or usual (some x) = x

-- `Math.min(Math.max(Number(hours) || 24, 1), 24 * 3)`, in hundredths of an hour.
unfoldable pub window_hours : Option Hundredths → Hundredths
window_hours hours = min_ℤ (max_ℤ (number_or (pos 2400) hours) (pos 100)) (pos 7200)

-- `Math.min(Math.max(Number(days) || 7, 1), 90)`, in hundredths of a day.
unfoldable pub window_days : Option Hundredths → Hundredths
window_days days = min_ℤ (max_ℤ (number_or (pos 700) days) (pos 100)) (pos 9000)

-- `now - windowHours * 60 * 60 * 1000`: a hundredth of an hour is 36000 ms.
unfoldable pub since : ℕ → Option Hundredths → ℤ
since now hours = pos now -ℤ window_hours hours *ℤ 36000

abbrev pub max_rows : ℕ
max_rows = 5000

-- `ORDER BY time DESC`. The rows of a sensor have different times, by their primary key.
unfoldable pub insert_desc : Row → List Row → List Row
insert_desc row [] = row ∷ []
insert_desc row (r ∷ rows) =
    let rest = insert_desc row rows in if ltb row.time r.time then r ∷ rest else row ∷ r ∷ rows

unfoldable pub order_desc : List Row → List Row
unfolding insert_desc
order_desc [] = []
order_desc (row ∷ rows) = insert_desc row (order_desc rows)

-- `and(eq(sensorId, deviceId), gte(time, since))`
unfoldable pub is_in_window : String → ℤ → Row → Bool
is_in_window device from row = str_eq row.sensor_id device && leb_ℤ from (pos row.time)

unfoldable pub readings : ℕ → String → Option Hundredths → List Row → List Row
readings now device hours rows =
    take max_rows (order_desc (keep (is_in_window device (since now hours)) rows))

-- What Redis answers at a moment: a value that has expired is gone.
unfoldable pub redis_get : ℕ → List (String × Cached) → String → Option ReadingResponse
redis_get now cache device = elim (get device cache) [
  | none ↦ none
  | some cached ↦ if ltb now cached.expires then some cached.value else none
]

unfoldable pub latest : ℕ → List (String × Cached) → String → Result HttpError ReadingResponse
latest now cache device = elim (redis_get now cache device) [
  | none ↦ throw (not_found device)
  | some reading ↦ ok reading
]

unfoldable pub latest_all : ℕ → Table → List (String × Cached) → List ReadingResponse
latest_all now sensors cache = elim (find_active_device_ids sensors) [
  | [] ↦ []
  | id ∷ ids ↦ cached_readings (redis_get now cache) (id ∷ ids)
]

-- The handler of a message: `emitted` are the `reading` events sent to the clients, newest first.
-- A message that is no JSON is `none`.
unfoldable pub relay : Option AppEvent → List ReadingResponse → List ReadingResponse
relay none emitted = emitted
relay (some (reading_created payload)) emitted = payload ∷ emitted
relay (some (device_status device online at)) emitted = emitted
