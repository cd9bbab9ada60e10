-- ===== src/Dashboard/Views/Table.antt =====
-- apps/dashboard/src/components/SensorTable.vue: the search, the values that the columns sort by, the columns
-- and what is shown of a long list.
use air_quality_monitoring.Base.{
  ℕ, ◌-◌, Bool, true, false, not, ◌&&◌, Option, none, some, List, [], ◌∷◌, ◌++◌, keep, any, take,
  length, ◌==◌, if◌then◌else◌,
}
use air_quality_monitoring.Base.Int.{ℤ, pos}
use air_quality_monitoring.Base.Strings.{String, str_eq}
use air_quality_monitoring.Dashboard.Model.{
  Sensor, Reading, SensorStatus, online, offline, inactive,
}
use air_quality_monitoring.Dashboard.Sorting.{Value, missing, number, text}
use air_quality_monitoring.Dashboard.Stats.{SensorRow}

pub data SortKey : Type 0 where
  name place aqi pm25 pm10 temperature humidity battery signal seen status : SortKey

pub data Variant : Type 0 where
  air device : Variant

-- `includes` and the methods of strings.
pub record SearchPlatform : Type 0 where
  pub trim : String → String
  pub to_lower_case : String → String
  pub includes : String → String → Bool

-- `field?.toLowerCase().includes(q)`
abbrev pub field_matches : SearchPlatform → String → Option String → Bool
field_matches p q none = false
field_matches p q (some field) = p.includes (p.to_lower_case field) q

unfoldable pub sensor_matches : SearchPlatform → String → Sensor → Bool
sensor_matches p q sensor = any (field_matches p q) (
    some sensor.name
    ∷ sensor.name_ar
    ∷ sensor.neighborhood
    ∷ sensor.neighborhood_ar
    ∷ some sensor.id
    ∷ [])

unfoldable pub filtered : SearchPlatform → String → List SensorRow → List SensorRow
filtered p query rows =
    let q = p.to_lower_case (p.trim query) in
    if str_eq q "" then rows else keep (λ row. sensor_matches p q row.sensor) rows

-- STATUS_ORDER
abbrev pub status_order : SensorStatus → ℕ
status_order offline = 0
status_order inactive = 1
status_order online = 2

abbrev pub value_of {ℓ} : {A : Type ℓ} → (A → Value) → Option A → Value
value_of write none = missing
value_of write (some a) = write a

-- A measurement of a row that is online.
abbrev pub live_value : (Reading → Value) → SensorStatus → Option Reading → Value
live_value value online reading = value_of value reading
live_value value offline reading = missing
live_value value inactive reading = missing

abbrev pub reading_number : (Reading → Option ℤ) → Option Reading → Value
reading_number field none = missing
reading_number field (some reading) = value_of number (field reading)

module _ (sensor_name sensor_place : Sensor → String) where
  -- The accessors that are given to useSort.
  unfoldable pub accessor : SortKey → SensorRow → Value
  accessor name row = text (sensor_name row.sensor)
  accessor place row = text (sensor_place row.sensor)
  accessor aqi row = live_value (λ r. number (pos r.aqi)) row.status row.reading
  accessor pm25 row = live_value (λ r. number r.pm25) row.status row.reading
  accessor pm10 row = live_value (λ r. number r.pm10) row.status row.reading
  accessor temperature row = live_value (λ r. number r.temperature) row.status row.reading
  accessor humidity row = live_value (λ r. number r.humidity) row.status row.reading
  accessor battery row = reading_number (λ r. r.battery_mv) row.reading
  accessor signal row = reading_number (λ r. r.signal_strength) row.reading
  accessor seen row = value_of (λ r. number (pos r.time)) row.reading
  accessor status row = number (pos (status_order row.status))

-- The column that a variant is first sorted by, and whether it descends.
unfoldable pub first_sort : Variant → SortKey × Bool
first_sort air = (aqi, true)
first_sort device = (status, false)

-- HIGH_FIRST
unfoldable pub is_high_first : SortKey → Bool
is_high_first aqi = true
is_high_first pm25 = true
is_high_first pm10 = true
is_high_first temperature = true
is_high_first humidity = true
is_high_first seen = true
is_high_first _ = false

abbrev pub lead : Bool → List SortKey
lead hide_place = if hide_place then name ∷ [] else name ∷ place ∷ []

-- The keys of the columns; the labels are translations.
unfoldable pub columns : Variant → Bool → List SortKey
columns device hide_place = lead hide_place ++ status ∷ seen ∷ battery ∷ signal ∷ []
columns air hide_place = lead hide_place ++ aqi ∷ pm25 ∷ pm10 ∷ temperature ∷ humidity ∷ seen ∷ []

-- The rows that are shown: a limit of 0 is none, and a search looks through everything.
unfoldable pub visible : SearchPlatform → ℕ → Bool → String → List SensorRow → List SensorRow
visible p limit show_all query rows =
    if not (limit == 0) && not show_all && str_eq (p.trim query) "" then take limit rows else rows

unfoldable pub hidden_count : SearchPlatform → ℕ → Bool → String → List SensorRow → ℕ
unfolding visible
hidden_count p limit show_all query rows =
    length rows - length (visible p limit show_all query rows)
