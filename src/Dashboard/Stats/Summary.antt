-- ===== src/Dashboard/Stats/Summary.antt =====
-- Laws of the averages over the rows that report.
use air_quality_monitoring.Base.{
  ℕ, ◌≤◌, ◌≡◌, refl, ap, subst, ◌↔◌, true, none, some, List, [], ◌∷◌, map, foldl, max, arith,
  length, keep, All, any, ◌==◌, length-map,
}
use air_quality_monitoring.Base.Averages.{sum, sum_bounded, quotient_bounded, foldl-max}
use air_quality_monitoring.Base.Int.{pos, ◌+ℤ◌}
use air_quality_monitoring.Base.Rounding.{round_div}
use air_quality_monitoring.Dashboard.Model.{Reading}
use air_quality_monitoring.Dashboard.Stats.{
  SensorRow, total_of, mean, rounded, is_online, live_readings, times, latest_of, summarise,
}

total_of-pos : (xs : List ℕ) → total_of (map pos xs) ≡ pos (sum xs)
unfolding total_of ◌+ℤ◌
total_of-pos [] = refl
total_of-pos (x ∷ xs) = rw (total_of-pos xs) (ground arith)

-- The mean is null for no values, else between any bounds of the values.
mean_bounded :
    (lo hi : ℕ) (xs : List ℕ)
    → All (λ x. (lo ≤ x) × (x ≤ hi)) xs
    → ((rounded (mean (map pos xs)) ≡ none) ↔ (length xs ≡ 0))
      × ((a : ℕ) → rounded (mean (map pos xs)) ≡ some a → (lo ≤ a) × (a ≤ hi))
unfolding mean rounded round_div
mean_bounded lo hi [] h = (ground arith, λ a e. ground arith)
mean_bounded lo hi (x ∷ xs) h =
    let (below, above) = sum_bounded lo hi (x ∷ xs) h in
    let bounds =
      quotient_bounded lo hi (sum (x ∷ xs)) (length (x ∷ xs)) (omega arith) below above in
    rw (total_of-pos (x ∷ xs), length-map xs pos) (ground (arith, bounds))

live_readings-keep :
    (rows : List SensorRow)
    → live_readings (keep (λ row. is_online row.status) rows) ≡ live_readings rows
unfolding live_readings
live_readings-keep [] = refl
live_readings-keep (row ∷ rows) = ground (arith, live_readings-keep rows)

length-live_readings : (rows : List SensorRow) → length (live_readings rows) ≤ length rows
unfolding live_readings
length-live_readings [] = omega arith
length-live_readings (row ∷ rows) = ground (arith, length-live_readings rows)

-- The averages and the count of reporting sensors are those of the rows that are online: a stale
-- row changes none of them. No more sensors report than there are rows, and the total counts
-- every row.
pub summarise_stale :
    (rows : List SensorRow)
    → let live = summarise (keep (λ row. is_online row.status) rows) in
      let all = summarise rows in
      (all.aqi ≡ live.aqi)
      × (all.pm25 ≡ live.pm25)
      × (all.pm10 ≡ live.pm10)
      × (all.temperature ≡ live.temperature)
      × (all.humidity ≡ live.humidity)
      × (all.online ≡ live.online)
      × (all.online ≤ all.total)
      × (all.total ≡ length rows)
unfolding summarise
summarise_stale rows =
    rw (live_readings-keep rows)
      (refl, refl, refl, refl, refl, refl, length-live_readings rows, refl)

map_aqi : (rs : List Reading) → map (λ r. pos r.aqi) rs ≡ map pos (map (λ r. r.aqi) rs)
map_aqi [] = refl
map_aqi (r ∷ rs) = ap (λ is. pos r.aqi ∷ is) (map_aqi rs)

All-map_aqi :
    (P : ℕ → Type 0) (rs : List Reading) → All (λ r. P r.aqi) rs → All P (map (λ r. r.aqi) rs)
All-map_aqi P [] h = tt
All-map_aqi P (r ∷ rs) (h, hs) = (h, All-map_aqi P rs hs)

-- The mean index of a group is missing exactly if no sensor reports, and lies between any bounds that
-- the reporting sensors' indices keep.
pub summarise_aqi_bounded :
    (lo hi : ℕ) (rows : List SensorRow)
    → All (λ r. (lo ≤ r.aqi) × (r.aqi ≤ hi)) (live_readings rows)
    → (((summarise rows).aqi ≡ none) ↔ ((summarise rows).online ≡ 0))
      × ((a : ℕ) → (summarise rows).aqi ≡ some a → (lo ≤ a) × (a ≤ hi))
unfolding summarise
summarise_aqi_bounded lo hi rows h =
    let live = live_readings rows in
    let (missing, bounds) =
      mean_bounded lo hi (map (λ r. r.aqi) live) (All-map_aqi (λ x. (lo ≤ x) × (x ≤ hi)) live h) in
    rw (map_aqi live, ← length-map live (λ r. r.aqi)) (missing, bounds)

-- The latest of some times, or null for none.
latest_of_lem :
    (ts : List ℕ)
    → ((latest_of ts ≡ none) ↔ (ts ≡ []))
      × ((t : ℕ) → latest_of ts ≡ some t → All (λ x. x ≤ t) ts × (any (λ x. x == t) ts ≡ true))
unfolding latest_of
latest_of_lem [] = (ground arith, λ u e. ground arith)
latest_of_lem (t ∷ ts) =
    let (le, all, there) = foldl-max t ts in
    (
      ground arith,
      λ u e.
          let same : foldl max t ts ≡ u = ground arith in
          subst (λ v. All (λ x. x ≤ v) (t ∷ ts) × (any (λ x. x == v) (t ∷ ts) ≡ true)) same
            ((le, all), there),
    )

-- The time of a group is missing exactly if it has no reading; else it is the time of one of its
-- readings, and none is later.
pub summarise_updated_at :
    (rows : List SensorRow)
    → (((summarise rows).updated_at ≡ none) ↔ (times rows ≡ []))
      × ((t : ℕ)
          → (summarise rows).updated_at ≡ some t
          → All (λ x. x ≤ t) (times rows) × (any (λ x. x == t) (times rows) ≡ true))
unfolding summarise
summarise_updated_at rows = latest_of_lem (times rows)
