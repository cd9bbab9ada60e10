-- ===== src/Api/Overview.antt =====
-- The snapshot of apps/api/src/overview/overview.controller.ts, over the sensors table, the cache of
-- latest readings and the readings table.
pub mod Snapshot
pub mod Examples
use air_quality_monitoring.Base.{
  ℕ, suc, ◌+◌, ◌*◌, Bool, true, false, Option, none, some, List, [], ◌∷◌, map, foldl, max, ltb, leb,
  if◌then◌else◌, length, keep,
}
use air_quality_monitoring.Base.Averages.{sum}
use air_quality_monitoring.Base.Int.{pos, pos_part}
use air_quality_monitoring.Base.Rounding.{round_div}
use air_quality_monitoring.Base.Strings.{String}
use air_quality_monitoring.Contracts.Reading.{ReadingResponse}
use air_quality_monitoring.Domain.Aqi.{
  AqiCategory, good, moderate, unhealthy_sensitive, unhealthy, very_unhealthy, hazardous,
}
use air_quality_monitoring.Ingestion.State.{Row}
use air_quality_monitoring.Api.Sensors.{Table, overview_device_ids}

-- 15 * 60 * 1000
abbrev pub online_window_ms : ℕ
online_window_ms = 900000

-- 60 * 60 * 1000
abbrev pub last_hour_ms : ℕ
last_hour_ms = 3600000

abbrev pub same_category : AqiCategory → AqiCategory → Bool
same_category good good = true
same_category moderate moderate = true
same_category unhealthy_sensitive unhealthy_sensitive = true
same_category unhealthy unhealthy = true
same_category very_unhealthy very_unhealthy = true
same_category hazardous hazardous = true
same_category _ _ = false

abbrev pub Counts : Type 0
Counts = List (AqiCategory × ℕ)

-- `byCategory[category] ?? 0`
unfoldable pub count_of : AqiCategory → Counts → ℕ
count_of category [] = 0
count_of category ((c, n) ∷ counts) =
    let rest = count_of category counts in if same_category c category then n else rest

-- `byCategory[category] = (byCategory[category] ?? 0) + 1`
unfoldable pub add_category : AqiCategory → Counts → Counts
add_category category [] = (category, 1) ∷ []
add_category category ((c, n) ∷ counts) =
    let rest = add_category category counts in
    if same_category c category then (c, suc n) ∷ counts else (c, n) ∷ rest

unfoldable pub tally : List ReadingResponse → Counts → Counts
tally [] counts = counts
tally (r ∷ rs) counts = tally rs (add_category r.aqi_category counts)

-- The answers of `mget` that are not null.
unfoldable pub cached_readings :
    (String → Option ReadingResponse) → List String → List ReadingResponse
cached_readings cached [] = []
cached_readings cached (id ∷ ids) = elim (cached id) [
  | none ↦ cached_readings cached ids
  | some r ↦ r ∷ cached_readings cached ids
]

-- `now - timestamp < ONLINE_WINDOW_MS`
abbrev pub is_fresh : ℕ → ReadingResponse → Bool
is_fresh now r = ltb now (r.reading.timestamp + online_window_ms)

unfoldable pub average_of : List ℕ → Option ℕ
unfolding round_div
average_of [] = none
average_of (aqi ∷ aqis) = some (pos_part (round_div (pos (sum (aqi ∷ aqis))) (suc (length aqis))))

unfoldable pub greatest_of : List ℕ → Option ℕ
greatest_of [] = none
greatest_of (aqi ∷ aqis) = some (foldl max aqi aqis)

pub record NetworkOverview : Type 0 where
  pub sensors_total : ℕ
  pub sensors_online : ℕ
  pub readings_last_hour : ℕ
  pub avg_aqi : Option ℕ
  pub max_aqi : Option ℕ
  pub by_category : Counts
  pub updated_at : ℕ

-- The readings of the active sensors that are still cached and not older than the window.
unfoldable pub online_readings :
    ℕ → Table → (String → Option ReadingResponse) → List ReadingResponse
online_readings now sensors cached =
    keep (is_fresh now) (cached_readings cached (overview_device_ids sensors))

unfoldable pub overview : ℕ → Table → (String → Option ReadingResponse) → List Row → NetworkOverview
overview now sensors cached readings =
    let online = online_readings now sensors cached in
    let aqis = map (λ r. r.aqi) online in
    record {
      sensors_total = length (overview_device_ids sensors);
      sensors_online = length online;
      readings_last_hour = length (keep (λ row. leb now (row.time + last_hour_ms)) readings);
      avg_aqi = average_of aqis;
      max_aqi = greatest_of aqis;
      by_category = tally online [];
      updated_at = now;
    }
