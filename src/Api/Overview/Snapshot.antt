-- ===== src/Api/Overview/Snapshot.antt =====
-- The figures of the snapshot agree with each other and with the readings that they count.
use air_quality_monitoring.Base.{
  ℕ, suc, ◌+◌, ◌≤◌, ◌≡◌, ◌↔◌, ◌⊎◌, inl, inr, refl, Bool, true, Option, none, some, List, [], ◌∷◌,
  map, foldl, max, arith, length, keep, All, any, ◌==◌, length-map, if◌then◌else◌,
}
use air_quality_monitoring.Base.Averages.{sum, sum_bounded, quotient_bounded, foldl-max}
use air_quality_monitoring.Base.Rounding.{round_div}
use air_quality_monitoring.Base.Strings.{String}
use air_quality_monitoring.Contracts.Reading.{ReadingResponse}
use air_quality_monitoring.Domain.Aqi.{AqiCategory}
use air_quality_monitoring.Ingestion.State.{Row}
use air_quality_monitoring.Api.Sensors.{Table, overview_device_ids}
use air_quality_monitoring.Api.Overview.{
  Counts, is_fresh, same_category, count_of, add_category, tally, cached_readings, average_of,
  greatest_of, online_readings, overview,
}

same_category_iff : (a b : AqiCategory) → (same_category a b ≡ true) ↔ (a ≡ b)
same_category_iff a b = ground arith

count_of-add_category :
    (a b : AqiCategory) (counts : Counts)
    → count_of a (add_category b counts)
      ≡ (if same_category b a then suc (count_of a counts) else count_of a counts)
unfolding count_of add_category
count_of-add_category a b [] = ground arith
count_of-add_category a b ((c, n) ∷ counts) = ground (
  arith,
  count_of-add_category a b counts,
  same_category_iff b a,
  same_category_iff c b,
  same_category_iff c a,
)

count_of-tally :
    (a : AqiCategory) (rs : List ReadingResponse) (counts : Counts)
    → count_of a (tally rs counts)
      ≡ count_of a counts + length (keep (λ r. same_category r.aqi_category a) rs)
unfolding tally
count_of-tally a [] counts = omega arith
count_of-tally a (r ∷ rs) counts = ground (
  arith,
  count_of-tally a rs (add_category r.aqi_category counts),
  count_of-add_category a r.aqi_category counts,
)

-- All counts together.
abbrev pub total_count : Counts → ℕ
total_count [] = 0
total_count ((c, n) ∷ counts) = n + total_count counts

total_count-add_category :
    (b : AqiCategory) (counts : Counts)
    → total_count (add_category b counts) ≡ suc (total_count counts)
unfolding add_category
total_count-add_category b [] = omega arith
total_count-add_category b ((c, n) ∷ counts) = ground (arith, total_count-add_category b counts)

total_count-tally :
    (rs : List ReadingResponse) (counts : Counts)
    → total_count (tally rs counts) ≡ total_count counts + length rs
unfolding tally
total_count-tally [] counts = omega arith
total_count-tally (r ∷ rs) counts = ground (
  arith,
  total_count-tally rs (add_category r.aqi_category counts),
  total_count-add_category r.aqi_category counts,
)

length-keep : {A : Type 0} (p : A → Bool) (xs : List A) → length (keep p xs) ≤ length xs
length-keep p [] = omega arith
length-keep p (x ∷ xs) = ground (arith, length-keep p xs)

length-cached_readings :
    (cached : String → Option ReadingResponse) (ids : List String)
    → length (cached_readings cached ids) ≤ length ids
unfolding cached_readings
length-cached_readings cached [] = omega arith
length-cached_readings cached (id ∷ ids) = ground (arith, length-cached_readings cached ids)

-- Every category is counted with the number of the online readings in it, the counts add up to the
-- number of sensors online, and no more sensors are online than there are.
pub overview_counts :
    (now : ℕ) (sensors : Table) (cached : String → Option ReadingResponse) (readings : List Row)
    → let o = overview now sensors cached readings in
      ((category : AqiCategory)
        → count_of category o.by_category
          ≡ length (
              keep
                (λ r. same_category r.aqi_category category)
                (online_readings now sensors cached)))
      × (total_count o.by_category ≡ o.sensors_online)
      × (o.sensors_online ≤ o.sensors_total)
unfolding overview count_of online_readings
overview_counts now sensors cached readings =
    let online = online_readings now sensors cached in
    let ids = overview_device_ids sensors in
    (
      λ category. omega (arith, count_of-tally category online []),
      omega (arith, total_count-tally online []),
      (let kept = length-keep (is_fresh now) (cached_readings cached ids) in
          omega (arith, kept, length-cached_readings cached ids)),
    )

bounded_by : (top : ℕ) (xs : List ℕ) → All (λ x. x ≤ top) xs → All (λ x. (0 ≤ x) × (x ≤ top)) xs
bounded_by top [] h = tt
bounded_by top (x ∷ xs) (h, hs) = ((omega arith, h), bounded_by top xs hs)

aqi_figures :
    (aqis : List ℕ)
    → ((length aqis ≡ 0) × (average_of aqis ≡ none) × (greatest_of aqis ≡ none))
      ⊎ ((avg : ℕ) × (top : ℕ) × (average_of aqis ≡ some avg)
          × (greatest_of aqis ≡ some top)
          × (avg ≤ top)
          × All (λ aqi. aqi ≤ top) aqis
          × (any (λ aqi. aqi == top) aqis ≡ true))
unfolding average_of greatest_of round_div
aqi_figures [] = inl (refl, refl, refl)
aqi_figures (aqi ∷ aqis) =
    let (le, all, there) = foldl-max aqi aqis in
    let top = foldl max aqi aqis in
    let (below, above) = sum_bounded 0 top (aqi ∷ aqis) (bounded_by top (aqi ∷ aqis) (le, all)) in
    let bounds =
      quotient_bounded 0 top (sum (aqi ∷ aqis)) (length (aqi ∷ aqis)) (omega arith) below above in
    inr (_, top, refl, refl, bounds.1, (le, all), there)

-- The average index is missing exactly if no sensor is online, and so is the greatest; else the average
-- is at most the greatest, which is the index of an online reading and at least each of them.
pub overview_aqi :
    (now : ℕ) (sensors : Table) (cached : String → Option ReadingResponse) (readings : List Row)
    → let o = overview now sensors cached readings in
      let aqis = map (λ r. r.aqi) (online_readings now sensors cached) in
      ((o.sensors_online ≡ 0) × (o.avg_aqi ≡ none) × (o.max_aqi ≡ none))
      ⊎ ((avg : ℕ) × (top : ℕ) × (o.avg_aqi ≡ some avg)
          × (o.max_aqi ≡ some top)
          × (avg ≤ top)
          × All (λ aqi. aqi ≤ top) aqis
          × (any (λ aqi. aqi == top) aqis ≡ true))
unfolding overview
overview_aqi now sensors cached readings =
    let online = online_readings now sensors cached in
    rw (← length-map online (λ r. r.aqi)) (aqi_figures (map (λ r. r.aqi) online))
