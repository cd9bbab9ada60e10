-- ===== src/Dashboard/Views/SensorHistory.antt =====
-- apps/dashboard/src/views/SensorView.vue: the history of a sensor, whose requests may overlap, the points
-- that are drawn and the battery.
pub mod Loading
use air_quality_monitoring.Base.{
  ℕ, suc, ◌/◌, Bool, true, false, not, Option, none, some, List, [], ◌∷◌, map, keep, any, ◌==◌,
  if◌then◌else◌,
}
use air_quality_monitoring.Base.Int.{ℤ}
use air_quality_monitoring.Base.Rounding.{Hundredths}
use air_quality_monitoring.Dashboard.Format.{battery_percent}
use air_quality_monitoring.Dashboard.Model.{Reading, HourlyPoint}

pub data Range : Type 0 where
  day week month : Range

unfoldable pub range_hours : Range → ℕ
range_hours day = 24
range_hours week = 168
range_hours month = 720

-- What loadHistory asks the store for.
pub data Load : Type 0 where
  load_readings load_hourly : ℕ → Load

unfoldable pub load_for : Range → Load
unfolding range_hours
load_for day = load_readings 24
load_for week = load_hourly (range_hours week / 24)
load_for month = load_hourly (range_hours month / 24)

-- historyRequest, historyLoading and the requests that wait for their answer.
pub record History : Type 0 where
  pub request : ℕ
  pub loading : Bool
  pub pending : List ℕ

abbrev pub initial : History
initial = record { request = 0; loading = false; pending = [] }

-- loadHistory up to its await.
unfoldable pub begin : History → History
begin h = record { request = suc h.request; loading = true; pending = suc h.request ∷ h.pending }

-- Its `finally`, whether the request was answered or failed.
unfoldable pub end : ℕ → History → History
end request h = record h {
  loading = if request == h.request then false else h.loading;
  pending = keep (λ r. not (r == request)) h.pending;
}

pub data Step : History → History → Type 0 where
  began : (h : History) → Step h (begin h)
  ended : (h : History) (request : ℕ) → Step h (end request h)

pub data Reachable : History → Type 0 where
  start : Reachable initial
  next : {h h' : History} → Reachable h → Step h h' → Reachable h'

pub record ChartPoint : Type 0 where
  pub time : ℕ
  pub value : Hundredths

-- The readings that have a value, or all hourly points; the metric gives the value.
unfoldable pub reading_points : (Reading → Option Hundredths) → List Reading → List ChartPoint
reading_points value [] = []
reading_points value (r ∷ readings) = elim (value r) [
  | none ↦ reading_points value readings
  | some v ↦ record { time = r.time; value = v } ∷ reading_points value readings
]

unfoldable pub hourly_points : (HourlyPoint → Hundredths) → List HourlyPoint → List ChartPoint
hourly_points value history = map (λ p. record { time = p.time; value = value p }) history

-- The percentage, with the millivolts whose thousandth is shown.
unfoldable pub battery : Option ℤ → Option (ℤ × ℤ)
unfolding battery_percent
battery none = none
battery (some mv) = some (battery_percent mv, mv)
