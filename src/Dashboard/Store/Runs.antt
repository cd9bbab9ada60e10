-- ===== src/Dashboard/Store/Runs.antt =====
-- The series, the life and the clock of the store at concrete runs.
use air_quality_monitoring.Base.{ℕ, ◌≡◌, refl, true, false, none, some, List, [], ◌∷◌, arith}
use air_quality_monitoring.Dashboard.Store.Series.{
  NetworkSeries, Request, no_series, settle_all, settle,
}
use air_quality_monitoring.Dashboard.Store.Series.Covering.{IsWidest, unforced, settle_all-IsWidest}
use air_quality_monitoring.Dashboard.Store.Lifecycle
use air_quality_monitoring.Dashboard.Store.Lifecycle.{Life, unstarted}
use air_quality_monitoring.Dashboard.Store.Lifecycle.Subscriptions.{IsHeld, Reachable-IsHeld}

abbrev week : Request
week = record { days = 7; force = false }

abbrev forced_week : Request
forced_week = record { days = 7; force = true }

abbrev month : NetworkSeries ℕ
month = record { days = 30; points = 5 ∷ 6 ∷ [] }

-- A month, a fortnight and a week are asked for, and answered in another order.
abbrev answers : List (ℕ × List ℕ)
answers = (14, 4 ∷ []) ∷ (30, 5 ∷ 6 ∷ []) ∷ (7, 5 ∷ []) ∷ []

settle_all-IsWidest_example : IsWidest no_series answers (settle_all (unforced answers) no_series)
settle_all-IsWidest_example = settle_all-IsWidest answers no_series

-- A failed request for a month hides the answer of a week that comes after it.
failed_month :
    settle_all {P = ℕ}
      ((record { days = 30; force = false }, none)
        ∷ (record { days = 7; force = false }, some (5 ∷ []))
        ∷ [])
      no_series
    ≡ record { days = 30; points = [] }
unfolding settle_all settle
failed_month = refl

-- A forced refresh that was asked for a week, answered after a month was loaded, narrows the series.
forced_narrows : (settle forced_week (some (5 ∷ [])) month).days ≡ 7
unfolding settle
forced_narrows = refl

abbrev running : Life
running = Lifecycle.end_load Lifecycle.loaded (Lifecycle.start unstarted)

running-Reachable : Lifecycle.Reachable running
running-Reachable =
    Lifecycle.next (Lifecycle.next Lifecycle.initially (Lifecycle.started unstarted)) (
      Lifecycle.load_ended (Lifecycle.start unstarted) Lifecycle.loaded
        (unfold Lifecycle.start in omega arith))

Reachable-IsHeld_example : IsHeld running
Reachable-IsHeld_example = Reachable-IsHeld running running-Reachable

-- A load that ends after the store was stopped subscribes.
late_load :
    (Lifecycle.end_load Lifecycle.loaded (Lifecycle.stop (Lifecycle.start unstarted))).sockets ≡ 1
unfolding Lifecycle.end_load Lifecycle.stop Lifecycle.start
late_load = refl
