-- ===== src/Dashboard/Views/Chart.antt =====
-- apps/dashboard/src/components/TrendChart.vue: the colour bands of a line.
use air_quality_monitoring.Base.{
  ℕ, ◌*◌, ◌≤◌, ◌≡◌, Option, none, some, List, [], ◌∷◌, ◌&&◌, arith, map, find,
}
use air_quality_monitoring.Base.Int.{ℤ, pos, ◌-ℤ◌, ltb_ℤ, leb_ℤ}
use air_quality_monitoring.Base.Strings.{String}
use air_quality_monitoring.Dashboard.Aqi.{
  AqiCategory, good_category, later_categories, aqi_category, pm25_to_aqi, sub_index,
  find_breakpoint, interpolate,
}

-- A piece of the visual map: the values above `gt` up to `lte`, in hundredths.
pub record Band : Type 0 where
  pub gt : ℤ
  pub lte : ℤ
  pub color : String

-- PM25_EDGES
abbrev pub pm25_edges : List ℕ
pm25_edges = 900 ∷ 3540 ∷ 5540 ∷ 12540 ∷ 22540 ∷ []

abbrev pub aqi_band : AqiCategory → Band
aqi_band c = record {
  gt = pos (c.min_aqi * 100) -ℤ pos 100;
  lte = pos (c.max_aqi * 100);
  color = c.solid;
}

unfoldable pub aqi_bands : List Band
aqi_bands = map aqi_band (good_category ∷ later_categories)

-- The bands from the edge below the first category on; the last ends at 10 000.
unfoldable pub bands_from : ℤ → List ℕ → List AqiCategory → List Band
bands_from gt edges [] = []
bands_from gt [] (c ∷ cs) =
    record { gt = gt; lte = pos 1000000; color = c.solid } ∷ bands_from (pos 1000000) [] cs
bands_from gt (edge ∷ edges) (c ∷ cs) =
    record { gt = gt; lte = pos edge; color = c.solid } ∷ bands_from (pos edge) edges cs

unfoldable pub pm25_bands : List Band
unfolding bands_from
pm25_bands = bands_from (pos 0 -ℤ pos 100) pm25_edges (good_category ∷ later_categories)

-- The band that holds a value.
abbrev pub band_of : ℤ → List Band → Option Band
band_of value bands = find (λ b. ltb_ℤ b.gt value && leb_ℤ value b.lte) bands

abbrev pub color_of : Option Band → Option String
color_of none = none
color_of (some b) = some b.color

-- A whole index up to 500 is drawn in the colour of its category.
pub aqi_bands_color :
    (aqi : ℕ)
    → aqi ≤ 500
    → color_of (band_of (pos (aqi * 100)) aqi_bands) ≡ some (aqi_category aqi).solid
unfolding aqi_bands aqi_category ◌-ℤ◌
aqi_bands_color aqi h = ground arith

-- A PM2.5 level in tenths, as the network reports it, is drawn in the colour of its category, up to
-- where the bands end.
pub pm25_bands_color :
    (tenths : ℕ)
    → tenths ≤ 100000
    → color_of (band_of (pos (tenths * 10)) pm25_bands)
      ≡ some (aqi_category (pm25_to_aqi (pos (tenths * 10)))).solid
unfolding pm25_bands aqi_category pm25_to_aqi sub_index find_breakpoint interpolate ◌-ℤ◌
pm25_bands_color tenths h = ground arith
