-- ===== src/Dashboard/Store/Latest.antt =====
-- The latest readings: whatever the order of arrival, each sensor shows its newest reading.
use air_quality_monitoring.Base.{
  ℕ, ◌≡◌, refl, ap, ◌∙◌, Bool, Option, none, some, List, [], ◌∷◌, arith, max, if◌then◌else◌,
}
use air_quality_monitoring.Base.Maps.{put, get, get-put}
use air_quality_monitoring.Base.Strings.{String, str_eq, eq_iff}
use air_quality_monitoring.Dashboard.Model.{Reading}
use air_quality_monitoring.Dashboard.Store.{AirState, is_late, notice_unknown, apply_reading}

abbrev pub time_of : Option Reading → Option ℕ
time_of none = none
time_of (some r) = some r.time

-- The time of the reading that is shown for the sensor.
abbrev pub shown_time : String → AirState → Option ℕ
shown_time id s = time_of (get id s.latest)

-- The later of a time that may be missing and a time.
abbrev pub later : Option ℕ → ℕ → Option ℕ
later none t = some t
later (some u) t = some (max u t)

-- The newest time among the readings of one sensor and a time before them.
unfoldable pub newest : String → List (Bool × Reading) → Option ℕ → Option ℕ
newest id [] t = t
newest id ((live, r) ∷ rs) t = newest id rs (if str_eq r.sensor_id id then later t r.time else t)

-- Readings as they arrive, from the socket (live) or from the bulk endpoint.
unfoldable pub arrive : ℕ → List (Bool × Reading) → AirState → AirState
arrive server_now [] s = s
arrive server_now ((live, r) ∷ rs) s = arrive server_now rs (apply_reading server_now r live s)

pub notice_unknown-latest :
    (r : Reading) (s : AirState)
    → ((notice_unknown r s).latest ≡ s.latest) × ((notice_unknown r s).raw_history ≡ s.raw_history)
unfolding notice_unknown
notice_unknown-latest r s = ground arith

-- What an arrival does to the shown readings.
pub apply_reading-latest :
    (server_now : ℕ) (r : Reading) (live : Bool) (s : AirState)
    → (apply_reading server_now r live s).latest
      ≡ (if is_late (get r.sensor_id s.latest) r then s.latest else put r.sensor_id r s.latest)
unfolding apply_reading notice_unknown
apply_reading-latest server_now r live s = ground arith

shown_time-apply_reading :
    (id : String) (server_now : ℕ) (r : Reading) (live : Bool) (s : AirState)
    → shown_time id (apply_reading server_now r live s)
      ≡ (if str_eq r.sensor_id id then later (shown_time id s) r.time else shown_time id s)
shown_time-apply_reading id server_now r live s =
    rw (apply_reading-latest server_now r live s)
      (ground (arith, get-put r.sensor_id id r s.latest, eq_iff r.sensor_id id))

-- After any readings, live or from the bulk endpoint and in whatever order, the time that a
-- sensor shows is the newest among the time it showed before and those of the readings that
-- arrived for it.
pub arrive-newest :
    (id : String) (server_now : ℕ) (rs : List (Bool × Reading)) (s : AirState)
    → shown_time id (arrive server_now rs s) ≡ newest id rs (shown_time id s)
unfolding arrive newest
arrive-newest id server_now [] s = refl
arrive-newest id server_now ((live, r) ∷ rs) s =
    arrive-newest id server_now rs (apply_reading server_now r live s)
    ∙ ap (newest id rs) (shown_time-apply_reading id server_now r live s)
