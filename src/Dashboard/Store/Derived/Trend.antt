-- ===== src/Dashboard/Store/Derived/Trend.antt =====
-- The trend of the last day is in order of time, and nothing in it is older or from the future.
use mathlib.Core.List.{append-nil}
use air_quality_monitoring.Base.{
  ℕ, ◌*◌, ◌+◌, ◌≤◌, Bool, ◌≡◌, true, Option, none, some, List, [], ◌∷◌, ◌++◌, map, arith, ap, All,
  All-append, keep, leb→le, by_cases, subst, sym, refl,
}
use air_quality_monitoring.Base.Int.{pos, ◌-ℤ◌, leb_ℤ, int_laws}
use air_quality_monitoring.Dashboard.Model.{NetworkHourlyPoint}
use air_quality_monitoring.Dashboard.Stats.{Mean}
use air_quality_monitoring.Dashboard.Stats.Series.{SeriesPoint, to_series, series_point}
use air_quality_monitoring.Dashboard.Store.{AirState, hour}
use air_quality_monitoring.Dashboard.Store.Derived.{exact_point, live_point, with_live, city_trend}

abbrev pub Ordered : List ℕ → Type 0
Ordered [] = Unit
Ordered (t ∷ ts) = All (λ u. t ≤ u) ts × Ordered ts

abbrev pub times : List NetworkHourlyPoint → List ℕ
times points = map (λ p. p.time) points

abbrev pub trend_times : List (SeriesPoint Mean) → List ℕ
trend_times series = map (λ p. p.time) series

module _ (now : ℕ) where
  -- Within the day before now.
  abbrev pub IsOfLastDay : ℕ → Type 0
  IsOfLastDay t = (now ≤ t + 24 * hour) × (t ≤ now)

  abbrev recent : NetworkHourlyPoint → Bool
  recent p = leb_ℤ (pos now -ℤ pos (24 * hour)) (pos p.time)

  recent→now : (p : NetworkHourlyPoint) → recent p ≡ true → now ≤ p.time + 24 * hour
  recent→now p e = let h = leb→le _ _ e in omega (int_laws, h)

  abbrev kept : List NetworkHourlyPoint → List ℕ
  kept points = trend_times (map exact_point (map series_point (keep recent points)))

  kept-All :
      (P : ℕ → Type 0) (points : List NetworkHourlyPoint)
      → All P (times points)
      → All P (kept points)
  unfolding series_point
  kept-All P [] h = tt
  kept-All P (p ∷ points) (h, hs) =
      by_cases (recent p) (λ e. rw e (h, kept-All P points hs)) (λ e. rw e (kept-All P points hs))

  kept-IsOfLastDay :
      (points : List NetworkHourlyPoint)
      → All (λ t. t ≤ now) (times points)
      → All IsOfLastDay (kept points)
  unfolding series_point
  kept-IsOfLastDay [] h = tt
  kept-IsOfLastDay (p ∷ points) (h, hs) =
      by_cases (recent p) (λ e. rw e ((recent→now p e, h), kept-IsOfLastDay points hs))
        (λ e. rw e (kept-IsOfLastDay points hs))

  kept-Ordered : (points : List NetworkHourlyPoint) → Ordered (times points) → Ordered (kept points)
  unfolding series_point
  kept-Ordered [] h = tt
  kept-Ordered (p ∷ points) (h, hs) =
      by_cases (recent p) (λ e. rw e (kept-All (λ u. p.time ≤ u) points h, kept-Ordered points hs))
        (λ e. rw e (kept-Ordered points hs))

  -- A last time that is at least all others.
  Ordered-snoc : (ts : List ℕ) → Ordered ts → All IsOfLastDay ts → Ordered (ts ++ now ∷ [])
  Ordered-snoc [] h k = (tt, tt)
  Ordered-snoc (t ∷ ts) (h, hs) (k, ks) =
      (All-append (λ u. t ≤ u) ts (now ∷ []) h (k.1, tt), Ordered-snoc ts hs ks)

  abbrev IsFine : List (SeriesPoint Mean) → Type 0
  IsFine series = Ordered (trend_times series) × All IsOfLastDay (trend_times series)

  trend_times-snoc :
      (series : List (SeriesPoint Mean)) (p : SeriesPoint Mean)
      → trend_times (series ++ p ∷ []) ≡ trend_times series ++ p.time ∷ []
  trend_times-snoc [] p = refl
  trend_times-snoc (q ∷ series) p = ap (◌∷◌ q.time) (trend_times-snoc series p)

  with_live-IsFine :
      (online : ℕ) (aqi : Option ℕ) (pm25 pm10 : Option Mean) (series : List (SeriesPoint Mean))
      → IsFine series
      → IsFine (with_live series (live_point now online aqi pm25 pm10))
  with_live-IsFine online aqi pm25 pm10 [] h = h
  with_live-IsFine online none pm25 pm10 (q ∷ series) h =
      subst IsFine (sym (append-nil (q ∷ series))) h
  with_live-IsFine online (some aqi) none pm10 (q ∷ series) h =
      subst IsFine (sym (append-nil (q ∷ series))) h
  with_live-IsFine online (some aqi) (some pm25) none (q ∷ series) h =
      subst IsFine (sym (append-nil (q ∷ series))) h
  with_live-IsFine online (some aqi) (some pm25) (some pm10) (q ∷ series) (o, d) =
      let live : SeriesPoint Mean = record {
        time = now;
        pm25 = pm25;
        pm10 = pm10;
        aqi = aqi;
        sensors = online;
      } in
      subst (λ (ts : List ℕ). Ordered ts × All IsOfLastDay ts)
        (sym (trend_times-snoc (q ∷ series) live))
        (
          Ordered-snoc (trend_times (q ∷ series)) o d,
          All-append IsOfLastDay (trend_times (q ∷ series)) (now ∷ []) d
              ((omega arith, omega arith), tt),
        )

-- The city's trend is in order of time, and every point of it is of the 24 hours before the store's
-- now, the live value included; where the loaded hours are in order and none begins after now.
pub city_trend-Ordered :
    (s : AirState) (points : List NetworkHourlyPoint)
    → Ordered (times points)
    → All (λ t. t ≤ s.now) (times points)
    → Ordered (trend_times (city_trend s points))
      × All (IsOfLastDay s.now) (trend_times (city_trend s points))
unfolding city_trend to_series
city_trend-Ordered s points o past =
    with_live-IsFine s.now _ _ _ _ _
      (kept-Ordered s.now points o, kept-IsOfLastDay s.now points past)
