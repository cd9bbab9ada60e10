-- ===== src/Dashboard/Views/Live.antt =====
-- The numbers of apps/dashboard/src/views: the ranking and the trend's range of LiveView.vue, the trend of
-- NeighborhoodView.vue and the figures of HomeView.vue.
use air_quality_monitoring.Base.{
  ℕ, ◌*◌, suc, zero, Option, none, some, List, [], ◌∷◌, map, foldl, max, min, length, ltb,
  if◌then◌else◌,
}
use air_quality_monitoring.Base.Int.{pos, ◌-ℤ◌}
use air_quality_monitoring.Base.Strings.{String}
use air_quality_monitoring.Dashboard.Aqi.{aqi_solid}
use air_quality_monitoring.Dashboard.Model.{NetworkHourlyPoint}
use air_quality_monitoring.Dashboard.Stats.{Mean, AirSummary, NeighborhoodSummary}
use air_quality_monitoring.Dashboard.Stats.Series.{SeriesPoint, to_series}
use air_quality_monitoring.Dashboard.Store.{hour}
use air_quality_monitoring.Dashboard.Store.Derived.{exact_point, live_point, with_live}

-- RankBars.vue shows these; texts that are only looked up are left out.
pub record RankItem : Type 0 where
  pub id : String
  pub label : String
  pub online : ℕ
  pub total : ℕ
  pub value : Option ℕ
  pub color : String

-- `aqi ?? -1`, one higher.
abbrev pub rank_key : Option ℕ → ℕ
rank_key none = zero
rank_key (some aqi) = suc aqi

-- `sort((a, b) => (b.aqi ?? -1) - (a.aqi ?? -1))`, which is stable.
unfoldable pub insert_ranked :
    NeighborhoodSummary → List NeighborhoodSummary → List NeighborhoodSummary
insert_ranked p [] = p ∷ []
insert_ranked p (q ∷ qs) =
    let rest = insert_ranked p qs in
    if ltb (rank_key p.summary.aqi) (rank_key q.summary.aqi) then q ∷ rest else p ∷ q ∷ qs

unfoldable pub sort_ranked : List NeighborhoodSummary → List NeighborhoodSummary
unfolding insert_ranked
sort_ranked [] = []
sort_ranked (p ∷ ps) = insert_ranked p (sort_ranked ps)

unfoldable pub rank_item : (NeighborhoodSummary → String) → NeighborhoodSummary → RankItem
rank_item place_name place = record {
  id = place.id;
  label = place_name place;
  online = place.summary.online;
  total = place.summary.total;
  value = place.summary.aqi;
  color = aqi_solid place.summary.aqi;
}

unfoldable pub ranked : (NeighborhoodSummary → String) → List NeighborhoodSummary → List RankItem
unfolding sort_ranked rank_item
ranked place_name neighborhoods = map (rank_item place_name) (sort_ranked neighborhoods)

-- `from` and `to` are moments, which formatClock writes.
pub record TrendRange : Type 0 where
  pub from : ℕ
  pub to : ℕ
  pub low : ℕ
  pub high : ℕ

abbrev pub last_time : SeriesPoint Mean → List (SeriesPoint Mean) → ℕ
last_time p [] = p.time
last_time p (q ∷ points) = last_time q points

unfoldable pub trend_range : List (SeriesPoint Mean) → Option TrendRange
trend_range [] = none
trend_range (p ∷ []) = none
trend_range (p ∷ q ∷ points) = some (record {
  from = p.time;
  to = last_time q points;
  low = foldl (λ low r. min low r.aqi) p.aqi (q ∷ points);
  high = foldl (λ high r. max high r.aqi) p.aqi (q ∷ points);
})

-- NeighborhoodView.vue; `points` are those of the place's loaded series, none before it is loaded.
unfoldable pub place_trend :
    ℕ → Option NeighborhoodSummary → List NetworkHourlyPoint → List (SeriesPoint Mean)
place_trend now none points = []
place_trend now (some place) points =
    let live = place.summary in
    with_live (map exact_point (to_series points (pos now -ℤ pos (24 * hour))))
      (live_point now live.online live.aqi live.pm25 live.pm10)

-- HomeView.vue: the sensors that report, the neighbourhoods, and the minutes between two readings.
unfoldable pub home_stats : AirSummary → List NeighborhoodSummary → List ℕ
home_stats city neighborhoods = city.online ∷ length neighborhoods ∷ 5 ∷ []
