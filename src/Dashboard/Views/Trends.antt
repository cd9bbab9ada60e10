-- ===== src/Dashboard/Views/Trends.antt =====
-- apps/dashboard/src/views/TrendsView.vue and the components that it draws with: the worst and the best hour
-- of the day, the neighbourhoods compared, and the shares of LevelShare.vue, RankBars.vue, HourBars.vue.
use air_quality_monitoring.Base.{
  ℕ, ◌*◌, Bool, true, false, Option, none, some, List, [], ◌∷◌, map, foldl, max, keep, length, ltb,
  get_or, if◌then◌else◌,
}
use air_quality_monitoring.Base.Averages.{sum}
use air_quality_monitoring.Base.Int.{ℤ, pos, negsuc, ◌-ℤ◌, ◌*ℤ◌, ltb_ℤ}
use air_quality_monitoring.Base.Rounding.{floor_div}
use air_quality_monitoring.Base.Strings.{String}
use air_quality_monitoring.Dashboard.Aqi.{pm25_to_aqi, aqi_solid}
use air_quality_monitoring.Dashboard.Stats.{Mean, NeighborhoodSummary, mean}
use air_quality_monitoring.Dashboard.Stats.Series.{HourOfDay, to_series}
use air_quality_monitoring.Dashboard.Store.{hour}
use air_quality_monitoring.Dashboard.Store.Series.{NetworkSeries, series_at}
use air_quality_monitoring.Dashboard.Model.{NetworkHourlyPoint}
use air_quality_monitoring.Dashboard.Views.SensorHistory.{Range, day, week, month}

unfoldable pub range_days : Range → ℕ
range_days day = 1
range_days week = 7
range_days month = 30

unfoldable pub since : ℕ → Range → ℤ
unfolding range_days
since now range = pos now -ℤ pos (range_days range * 24 * hour)

unfoldable pub is_loading : ℕ → Range → Bool
unfolding range_days
is_loading loaded_days range = ltb loaded_days (range_days range)

-- `a < b` for quotients with a positive divisor.
abbrev pub mean_less : Mean → Mean → Bool
mean_less a b = ltb_ℤ (a.sum *ℤ b.count) (b.sum *ℤ a.count)

-- `pm25 ?? 0`
abbrev pub level_or_zero : Option Mean → Mean
level_or_zero none = record { sum = pos 0; count = 1 }
level_or_zero (some m) = m

abbrev pub is_known : HourOfDay → Bool
is_known h = elim h.pm25 [ none ↦ false | some m ↦ true ]

-- The two reductions: the first of the greatest, and the first of the least.
unfoldable pub worse : HourOfDay → HourOfDay → HourOfDay
worse a b = if mean_less (level_or_zero a.pm25) (level_or_zero b.pm25) then b else a

unfoldable pub better : HourOfDay → HourOfDay → HourOfDay
better a b = if mean_less (level_or_zero b.pm25) (level_or_zero a.pm25) then b else a

abbrev pub extremes_of : List HourOfDay → Option (ℕ × ℕ)
extremes_of [] = none
extremes_of (h ∷ hours) = some ((foldl worse h hours).hour, (foldl better h hours).hour)

-- The worst and the best hour, of 12 known ones or more.
unfoldable pub day_extremes : List HourOfDay → Option (ℕ × ℕ)
unfolding worse better
day_extremes hours =
    let known = keep is_known hours in if ltb (length known) 12 then none else extremes_of known

pub record Compared : Type 0 where
  pub place : NeighborhoodSummary
  pub pm25 : Option Mean

-- The mean level of a place's loaded series in the range.
unfoldable pub place_level :
    ℤ → List (String × NetworkSeries NetworkHourlyPoint) → NeighborhoodSummary → Compared
unfolding mean to_series
place_level from places place = record {
  place = place;
  pm25 = mean (map (λ p. p.pm25) (to_series (series_at place.id places).points from));
}

-- `pm25 ?? -1`
abbrev pub level_or_last : Option Mean → Mean
level_or_last none = record { sum = negsuc 99; count = 1 }
level_or_last (some m) = m

-- `sort((a, b) => (b.pm25 ?? -1) - (a.pm25 ?? -1))`, which is stable.
unfoldable pub insert_compared : Compared → List Compared → List Compared
insert_compared c [] = c ∷ []
insert_compared c (d ∷ ds) =
    let rest = insert_compared c ds in
    if mean_less (level_or_last c.pm25) (level_or_last d.pm25) then d ∷ rest else c ∷ d ∷ ds

unfoldable pub sort_compared : List Compared → List Compared
unfolding insert_compared
sort_compared [] = []
sort_compared (c ∷ cs) = insert_compared c (sort_compared cs)

unfoldable pub compared :
    ℤ → List (String × NetworkSeries NetworkHourlyPoint) → List NeighborhoodSummary → List Compared
unfolding place_level sort_compared
compared from places neighborhoods = sort_compared (map (place_level from places) neighborhoods)

-- The colour of a compared place.
unfoldable pub compared_color : Option Mean → String
unfolding aqi_solid pm25_to_aqi floor_div
compared_color none = aqi_solid none
compared_color (some m) = aqi_solid (some (pm25_to_aqi (floor_div m.sum m.count)))

-- LevelShare.vue: a share as its count of the total, none of an empty period.
pub record Share : Type 0 where
  pub count : ℕ
  pub total : ℕ

unfoldable pub level_share : List ℕ → ℕ → Share
level_share counts i = record { count = get_or counts i 0; total = sum counts }

-- RankBars.vue and HourBars.vue: `Math.max(1, …)`, the length of a full bar.
unfoldable pub full_bar : List ℕ → ℕ
full_bar values = foldl max 1 values
