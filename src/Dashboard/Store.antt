-- ===== src/Dashboard/Store.antt =====
-- apps/dashboard/src/stores/air.ts: the live picture of the network. A timer is modelled by whether it
-- is armed; a handler by what it does to the state. `server_now` is what serverNow() gives to the call.
pub mod Latest
pub mod Window
pub mod History
pub mod Connection
pub mod Series
pub mod Lifecycle
pub mod Clock
pub mod Derived
pub mod Runs
pub mod Examples
use air_quality_monitoring.Base.{
  ℕ, ◌+◌, ◌*◌, Bool, true, false, not, ◌&&◌, ◌||◌, Option, none, some, List, [], ◌∷◌, ◌++◌, map,
  max, leb, ltb, if◌then◌else◌, any, keep,
}
use air_quality_monitoring.Base.Maps.{put, get}
use air_quality_monitoring.Base.Strings.{String, str_eq}
use air_quality_monitoring.Dashboard.Model.{Sensor, Reading}
use air_quality_monitoring.Dashboard.Stats.{SensorRow, sensor_status}

-- HOUR
abbrev pub hour : ℕ
hour = 3600000

pub record RawHistory : Type 0 where
  pub hours : ℕ
  pub readings : List Reading

-- What `applyReading` reads and writes of the store.
pub record AirState : Type 0 where
  pub sensors : List Sensor
  pub latest : List (String × Reading)
  pub now : ℕ
  pub last_live : Option Reading
  pub raw_history : List (String × RawHistory)
  pub unknown_devices : List String
  pub refresh_queued : Bool

-- The computed rows.
unfoldable pub rows : AirState → List SensorRow
rows s =
    map
      (λ sensor.
        let reading = get sensor.id s.latest in
        record { sensor = sensor; reading = reading; status = sensor_status sensor reading s.now })
      s.sensors

-- `current && current.time >= reading.time`
abbrev pub is_late : Option Reading → Reading → Bool
is_late none reading = false
is_late (some current) reading = leb reading.time current.time

-- `while (readings.length && readings[0].time < cutoff) readings.shift()`. The cutoff is
-- `newest - span`, which may be negative, so the span is added on the other side.
unfoldable pub prune : ℕ → ℕ → List Reading → List Reading
prune newest span [] = []
prune newest span (r ∷ rs) =
    let rest = prune newest span rs in if ltb (r.time + span) newest then rest else r ∷ rs

-- The reading pushed on the sensor's history, if that history is loaded.
unfoldable pub extend_history : Reading → List (String × RawHistory) → List (String × RawHistory)
extend_history reading histories = elim (get reading.sensor_id histories) [
  | none ↦ histories
  | some history ↦
      put reading.sensor_id
        (record history {
          readings = prune reading.time (history.hours * hour) (history.readings ++ reading ∷ []);
        })
        histories
]

-- The first report of a device that is in no row arms the timer of a refresh.
unfoldable pub notice_unknown : Reading → AirState → AirState
notice_unknown reading s =
    if not (any (λ sensor. str_eq sensor.id reading.sensor_id) s.sensors)
      && not (any (λ id. str_eq id reading.sensor_id) s.unknown_devices)
    then record s { unknown_devices = reading.sensor_id ∷ s.unknown_devices; refresh_queued = true }
    else s

unfoldable pub apply_reading : ℕ → Reading → Bool → AirState → AirState
apply_reading server_now reading live s =
    let kept = record s { latest = put reading.sensor_id reading s.latest } in
    if is_late (get reading.sensor_id s.latest) reading
    then s
    else if not live
    then kept
    else notice_unknown reading (record kept {
      last_live = some reading;
      now = max s.now server_now;
      raw_history = extend_history reading s.raw_history;
    })

-- The loop of `syncLatest` over the readings of the bulk endpoint, and its clock.
unfoldable pub apply_readings : ℕ → List Reading → AirState → AirState
apply_readings server_now [] s = s
apply_readings server_now (r ∷ rs) s =
    apply_readings server_now rs (apply_reading server_now r false s)

unfoldable pub sync_latest : ℕ → List Reading → AirState → AirState
sync_latest server_now readings s = record (apply_readings server_now readings s) {
  now = server_now;
}

-- The last time of the fetched readings, or 0.
unfoldable pub last_time : List Reading → ℕ
last_time [] = 0
last_time (r ∷ []) = r.time
last_time (r ∷ q ∷ rs) = last_time (q ∷ rs)

-- The history from the source, with the live readings that arrived while the request was in flight.
unfoldable pub load_readings : String → ℕ → List Reading → AirState → AirState
load_readings id hours fetched s =
    let arrived : List Reading = elim (get id s.raw_history) [
      | none ↦ []
      | some history ↦ keep (λ r. ltb (last_time fetched) r.time) history.readings
    ] in
    record s {
      raw_history = put id (record { hours = hours; readings = fetched ++ arrived }) s.raw_history;
    }
