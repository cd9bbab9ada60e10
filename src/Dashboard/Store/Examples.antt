-- ===== src/Dashboard/Store/Examples.antt =====
-- The store at concrete readings: one sensor with two readings shown and a history of one hour.
use air_quality_monitoring.Base.{
  ◌≡◌, inl, refl, subst, by_cases, All, Bool, true, false, none, some, List, [], ◌∷◌, arith,
}
use air_quality_monitoring.Base.Maps.{get}
use air_quality_monitoring.Base.Strings.{str_eq}
use air_quality_monitoring.Dashboard.Model.{Reading, NetworkHourlyPoint, polling}
use air_quality_monitoring.Dashboard.Stats.Examples.{sensor, reading}
use air_quality_monitoring.Dashboard.Stats.Series.Examples.{point}
use air_quality_monitoring.Dashboard.Store.Derived.{city_trend}
use air_quality_monitoring.Dashboard.Store.Derived.Trend.{
  Ordered, trend_times, IsOfLastDay, city_trend-Ordered,
}
use air_quality_monitoring.Dashboard.Store.{AirState, RawHistory, apply_reading}
use air_quality_monitoring.Dashboard.Store.Latest.{shown_time, newest}
use air_quality_monitoring.Dashboard.Store.History.{
  IsTimeline, HasTimelines, apply_reading-HasTimelines,
}
use air_quality_monitoring.Dashboard.Store.Connection.{
  Channel, Step, Reachable, start, next, subscribed_to, connection_changed, initial, subscribe,
  on_connection,
}
use air_quality_monitoring.Dashboard.Store.Connection.Arming.{
  IsArmed, Reachable-IsArmed, Reachable-recovers,
}

abbrev history : RawHistory
history = record { hours = 1; readings = reading "a" 1000 41 ∷ reading "a" 4000000 43 ∷ [] }

abbrev state : AirState
state = record {
  sensors = sensor "a" none "" ∷ [];
  latest = ("a", reading "a" 4000000 43) ∷ [];
  now = 4000000;
  last_live = none;
  raw_history = ("a", history) ∷ [];
  unknown_devices = [];
  refresh_queued = false;
}

abbrev fresh : Reading
fresh = reading "a" 4500000 47

abbrev hours : List NetworkHourlyPoint
hours = point 0 900 ∷ point 3600000 1200 ∷ []

abbrev arrivals : List (Bool × Reading)
arrivals = (true, fresh) ∷ (false, reading "a" 4300000 45) ∷ (true, reading "b" 7 20) ∷ []

newest_of_three : newest "a" arrivals (shown_time "a" state) ≡ some 4500000
unfolding newest get
newest_of_three = refl

state-HasTimelines : HasTimelines state
unfolding get
state-HasTimelines id h e =
    by_cases (str_eq "a" id)
      (λ t.
        let same : some history ≡ some h = ground (arith, e) in
        let same' : history ≡ h = ground (arith, same) in
        (
          reading "a" 4000000 43,
          rw t refl,
          subst (λ k. IsTimeline k.readings 4000000) same'
              (record {
                sorted = ((omega arith, tt), (tt, tt));
                reached = (omega arith, (omega arith, tt));
              }),
        ))
      (λ f. absurd (ground (arith, e)))

apply_reading-HasTimelines_example : HasTimelines (apply_reading 5000000 fresh true state)
apply_reading-HasTimelines_example =
    apply_reading-HasTimelines 5000000 fresh true state state-HasTimelines

-- The channel of a store that has subscribed is connected and drops.
abbrev dropped : Channel
dropped = on_connection false (on_connection true (subscribe initial))

dropped-Reachable : Reachable dropped
unfolding subscribe on_connection
dropped-Reachable =
    next _ dropped
      (next _ (on_connection true (subscribe initial))
        (next initial (subscribe initial) start (subscribed_to initial))
        (connection_changed (subscribe initial) true refl))
      (connection_changed (on_connection true (subscribe initial)) false refl)

Reachable-IsArmed_example : IsArmed dropped
Reachable-IsArmed_example = Reachable-IsArmed dropped dropped-Reachable

Reachable-recovers_example :
    (c1 : Channel) × (c2 : Channel) × Step dropped c1 × Step c1 c2 × (c2.connection ≡ polling)
Reachable-recovers_example =
    Reachable-recovers dropped dropped-Reachable (unfold on_connection in refl)
      (inl (unfold on_connection in refl))

city_trend-Ordered_example :
    Ordered (trend_times (city_trend state hours))
    × All (IsOfLastDay 4000000) (trend_times (city_trend state hours))
city_trend-Ordered_example =
    city_trend-Ordered state hours ((omega arith, tt), (tt, tt)) (omega arith, (omega arith, tt))
