-- ===== src/Dashboard/Views/Network.antt =====
-- apps/dashboard/src/views/NetworkView.vue: the counts by status and the list of issues.
pub mod Issues
use air_quality_monitoring.Base.{
  ℕ, Bool, true, false, Option, none, some, List, [], ◌∷◌, ◌++◌, keep, length, leb, if◌then◌else◌,
}
use air_quality_monitoring.Base.Int.{ℤ, pos, negsuc, ltb_ℤ}
use air_quality_monitoring.Base.Strings.{String}
use air_quality_monitoring.Dashboard.Format.{battery_percent}
use air_quality_monitoring.Dashboard.Model.{
  Sensor, Reading, SensorStatus, online, offline, inactive,
}
use air_quality_monitoring.Dashboard.Stats.{SensorRow}

abbrev pub low_battery_percent : ℤ
low_battery_percent = pos 25

-- -112 dBm
abbrev pub weak_signal_dbm : ℤ
weak_signal_dbm = negsuc 111

abbrev pub has_status : SensorStatus → SensorStatus → Bool
has_status online online = true
has_status offline offline = true
has_status inactive inactive = true
has_status _ _ = false

abbrev pub count_status : SensorStatus → List SensorRow → ℕ
count_status status rows = length (keep (λ row. has_status row.status status) rows)

pub record Counts : Type 0 where
  pub online : ℕ
  pub offline : ℕ
  pub inactive : ℕ

unfoldable pub counts : List SensorRow → Counts
counts rows = record {
  online = count_status online rows;
  offline = count_status offline rows;
  inactive = count_status inactive rows;
}

-- What an issue says, before it is translated: silent since a time, never heard, its battery or its
-- signal.
pub data IssueText : Type 0 where
  silent_since : ℕ → IssueText
  never_heard : IssueText
  low_battery weak_signal : ℤ → IssueText

pub record Issue : Type 0 where
  pub id : String
  pub name : String
  pub place : String
  pub text : IssueText
  pub weight : ℕ

abbrev pub offline_text : Option Reading → IssueText
offline_text none = never_heard
offline_text (some reading) = silent_since reading.time

abbrev pub battery_of : Option Reading → Option ℤ
battery_of none = none
battery_of (some reading) = reading.battery_mv

abbrev pub signal_of : Option Reading → Option ℤ
signal_of none = none
signal_of (some reading) = reading.signal_strength

module _ (sensor_name sensor_place : Sensor → String) where
  abbrev pub issue : Sensor → IssueText → ℕ → Issue
  issue sensor text weight = record {
    id = sensor.id;
    name = sensor_name sensor;
    place = sensor_place sensor;
    text = text;
    weight = weight;
  }

  unfoldable pub battery_issue : Sensor → Option ℤ → List Issue
  battery_issue sensor none = []
  battery_issue sensor (some mv) =
      if ltb_ℤ (battery_percent mv) low_battery_percent
      then issue sensor (low_battery (battery_percent mv)) 1 ∷ []
      else []

  unfoldable pub signal_issue : Sensor → Option ℤ → List Issue
  signal_issue sensor none = []
  signal_issue sensor (some dbm) =
      if ltb_ℤ dbm weak_signal_dbm then issue sensor (weak_signal dbm) 2 ∷ [] else []

  -- One turn of the loop.
  unfoldable pub row_issues : SensorStatus → Sensor → Option Reading → List Issue
  unfolding battery_issue signal_issue
  row_issues inactive sensor reading = []
  row_issues offline sensor reading = issue sensor (offline_text reading) 0 ∷ []
  row_issues online sensor reading =
      battery_issue sensor (battery_of reading) ++ signal_issue sensor (signal_of reading)

  unfoldable pub all_issues : List SensorRow → List Issue
  all_issues [] = []
  all_issues (row ∷ rows) = row_issues row.status row.sensor row.reading ++ all_issues rows

  -- `list.sort((a, b) => a.weight - b.weight)`, which is stable.
  unfoldable pub insert_by_weight : Issue → List Issue → List Issue
  insert_by_weight i [] = i ∷ []
  insert_by_weight i (j ∷ issues) =
      let rest = insert_by_weight i issues in
      if leb i.weight j.weight then i ∷ j ∷ issues else j ∷ rest

  unfoldable pub sort_by_weight : List Issue → List Issue
  unfolding insert_by_weight
  sort_by_weight [] = []
  sort_by_weight (i ∷ issues) = insert_by_weight i (sort_by_weight issues)

  unfoldable pub issues : List SensorRow → List Issue
  issues rows = sort_by_weight (all_issues rows)
