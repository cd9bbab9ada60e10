-- ===== src/Dashboard/Stats.antt =====
-- apps/dashboard/src/lib/stats.ts: the status of a sensor, averages over the sensors that report, and
-- the groups by neighbourhood. A mean is exact: the sum and the count that the source divides.
pub mod Summary
pub mod Groups
pub mod MapLimit
pub mod Series
pub mod Examples
use air_quality_monitoring.Base.{
  ℕ, suc, ◌+◌, ◌*◌, Bool, true, false, not, Option, none, some, List, [], ◌∷◌, ◌++◌, map, foldl,
  max, ltb, if◌then◌else◌, length, keep,
}
use air_quality_monitoring.Base.Int.{ℤ, pos, ◌+ℤ◌, pos_part}
use air_quality_monitoring.Base.Rounding.{round_div}
use air_quality_monitoring.Base.Strings.{String, str_eq}
use air_quality_monitoring.Dashboard.Model.{
  Sensor, Reading, SensorStatus, online, offline, inactive,
}

-- 15 * 60_000
abbrev pub online_window_ms : ℕ
online_window_ms = 900000

pub record SensorRow : Type 0 where
  pub sensor : Sensor
  pub reading : Option Reading
  pub status : SensorStatus

unfoldable pub sensor_status : Sensor → Option Reading → ℕ → SensorStatus
sensor_status sensor none now = if not sensor.is_active then inactive else offline
sensor_status sensor (some reading) now =
    if not sensor.is_active
    then inactive
    else if ltb now (reading.time + online_window_ms)
    then online
    else offline

-- The quotient `sum / count`.
pub record Mean : Type 0 where
  pub sum : ℤ
  pub count : ℕ

unfoldable pub total_of : List ℤ → ℤ
unfolding ◌+ℤ◌
total_of [] = pos 0
total_of (value ∷ values) = value +ℤ total_of values

-- `null` for no values.
unfoldable pub mean : List ℤ → Option Mean
mean [] = none
mean (value ∷ values) =
    some (record { sum = total_of (value ∷ values); count = suc (length values) })

unfoldable pub rounded : Option Mean → Option ℕ
unfolding round_div
rounded none = none
rounded (some m) = some (pos_part (round_div m.sum m.count))

pub record AirSummary : Type 0 where
  pub aqi : Option ℕ
  pub pm25 : Option Mean
  pub pm10 : Option Mean
  pub temperature : Option Mean
  pub humidity : Option Mean
  pub total : ℕ
  pub online : ℕ
  pub updated_at : Option ℕ

abbrev pub is_online : SensorStatus → Bool
is_online online = true
is_online _ = false

-- The readings of the rows that are online; the source's type says that such a row has one.
unfoldable pub live_readings : List SensorRow → List Reading
live_readings [] = []
live_readings (row ∷ rows) =
    let rest = live_readings rows in
    elim row.reading [
      | none ↦ rest
      | some reading ↦ if is_online row.status then reading ∷ rest else rest
    ]

-- The times of the readings that there are.
unfoldable pub times : List SensorRow → List ℕ
times [] = []
times (row ∷ rows) = elim row.reading [
  | none ↦ times rows
  | some reading ↦ reading.time ∷ times rows
]

-- `Math.max(...values)`, or `null` for no values.
unfoldable pub latest_of : List ℕ → Option ℕ
latest_of [] = none
latest_of (t ∷ ts) = some (foldl max t ts)

unfoldable pub summarise : List SensorRow → AirSummary
summarise rows =
    let live = live_readings rows in
    record {
      aqi = rounded (mean (map (λ r. pos r.aqi) live));
      pm25 = mean (map (λ r. r.pm25) live);
      pm10 = mean (map (λ r. r.pm10) live);
      temperature = mean (map (λ r. r.temperature) live);
      humidity = mean (map (λ r. r.humidity) live);
      total = length rows;
      online = length live;
      updated_at = latest_of (times rows);
    }

-- A group of the `Map`: it is made with its first row.
pub record Group : Type 0 where
  pub id : String
  pub first : SensorRow
  pub later : List SensorRow

abbrev pub members : Group → List SensorRow
members g = g.first ∷ g.later

-- `!row.sensor.neighborhood` is false: neither null nor empty.
abbrev pub is_named : Option String → Bool
is_named none = false
is_named (some name) = not (str_eq name "")

-- One turn of the loop: into its group, or a new group at the end.
unfoldable pub add_to_group : SensorRow → List Group → List Group
add_to_group row [] = record { id = row.sensor.neighborhood_id; first = row; later = [] } ∷ []
add_to_group row (g ∷ gs) =
    let rest = add_to_group row gs in
    if str_eq g.id row.sensor.neighborhood_id
    then record g { later = g.later ++ row ∷ [] } ∷ gs
    else g ∷ rest

unfoldable pub group_rows : List SensorRow → List Group → List Group
group_rows [] gs = gs
group_rows (row ∷ rows) gs =
    if is_named row.sensor.neighborhood
    then group_rows rows (add_to_group row gs)
    else group_rows rows gs

pub record NeighborhoodSummary : Type 0 where
  pub summary : AirSummary
  pub id : String
  pub name : String
  pub name_ar : Option String
  pub rows : List SensorRow
  pub latitude : Mean
  pub longitude : Mean

unfoldable pub summary_of : Group → NeighborhoodSummary
summary_of g = record {
  summary = summarise (members g);
  id = g.id;
  name = elim g.first.sensor.neighborhood [ none ↦ g.id | some name ↦ name ];
  name_ar = g.first.sensor.neighborhood_ar;
  rows = members g;
  latitude = record {
    sum = total_of (map (λ m. m.sensor.latitude) (members g));
    count = length (members g);
  };
  longitude = record {
    sum = total_of (map (λ m. m.sensor.longitude) (members g));
    count = length (members g);
  };
}

unfoldable pub group_by_neighborhood : List SensorRow → List NeighborhoodSummary
group_by_neighborhood rows = map summary_of (group_rows rows [])
