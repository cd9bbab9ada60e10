-- ===== src/Dashboard/Aqi.antt =====
-- apps/dashboard/src/lib/aqi.ts: the categories that the views show, and the dashboard's own copy of
-- the index. A value that may be missing (`null`, `undefined`, NaN) is an `Option`.
pub mod Agreement
pub mod Examples
use air_quality_monitoring.Base.{
  ℕ, ◌+◌, ◌-◌, ◌*◌, ◌/◌, List, [], ◌∷◌, Option, none, some, leb, if◌then◌else◌, max, min,
}
use air_quality_monitoring.Base.Int.{pos, pos_part}
use air_quality_monitoring.Base.Rounding.{Hundredths, round_div}
use air_quality_monitoring.Base.Strings.{String}

pub data Theme : Type 0 where
  light dark : Theme

pub data AqiCategoryId : Type 0 where
  good moderate sensitive unhealthy very_unhealthy hazardous : AqiCategoryId

-- A colour for each theme.
pub record ThemeText : Type 0 where
  pub light_text : String
  pub dark_text : String

pub record AqiCategory : Type 0 where
  pub id : AqiCategoryId
  pub level : ℕ
  pub min_aqi : ℕ
  pub max_aqi : ℕ
  pub solid : String
  pub on_solid : String
  pub text : ThemeText

abbrev pub good_category : AqiCategory
good_category = record {
  id = good;
  level = 1;
  min_aqi = 0;
  max_aqi = 50;
  solid = "#2FA35B";
  on_solid = "#04210F";
  text = record { light_text = "#1A7340"; dark_text = "#5FD08A" };
}

abbrev pub moderate_category : AqiCategory
moderate_category = record {
  id = moderate;
  level = 2;
  min_aqi = 51;
  max_aqi = 100;
  solid = "#F2C230";
  on_solid = "#2B2100";
  text = record { light_text = "#7D5B00"; dark_text = "#F2C94C" };
}

abbrev pub sensitive_category : AqiCategory
sensitive_category = record {
  id = sensitive;
  level = 3;
  min_aqi = 101;
  max_aqi = 150;
  solid = "#F08A24";
  on_solid = "#2E1500";
  text = record { light_text = "#A04A00"; dark_text = "#FFA24D" };
}

abbrev pub unhealthy_category : AqiCategory
unhealthy_category = record {
  id = unhealthy;
  level = 4;
  min_aqi = 151;
  max_aqi = 200;
  solid = "#CF2F28";
  on_solid = "#FFFFFF";
  text = record { light_text = "#B8251F"; dark_text = "#FF8076" };
}

abbrev pub very_unhealthy_category : AqiCategory
very_unhealthy_category = record {
  id = very_unhealthy;
  level = 5;
  min_aqi = 201;
  max_aqi = 300;
  solid = "#8B46B0";
  on_solid = "#FFFFFF";
  text = record { light_text = "#7A379E"; dark_text = "#CB96EA" };
}

abbrev pub hazardous_category : AqiCategory
hazardous_category = record {
  id = hazardous;
  level = 6;
  min_aqi = 301;
  max_aqi = 500;
  solid = "#7A1F3D";
  on_solid = "#FFFFFF";
  text = record { light_text = "#7A1F3D"; dark_text = "#F08AAB" };
}

-- `AQI_CATEGORIES`: the first, and the further ones.
abbrev pub later_categories : List AqiCategory
later_categories =
    moderate_category ∷ sensitive_category ∷ unhealthy_category ∷ very_unhealthy_category
    ∷ hazardous_category ∷ []

abbrev pub unknown_solid : String
unknown_solid = "#8A9BA6"

abbrev pub unknown_on_solid : String
unknown_on_solid = "#0C2231"

abbrev pub unknown_text : ThemeText
unknown_text = record { light_text = "#526B7A"; dark_text = "#8CA5B3" }

-- The loop of `aqiCategory`: the last category where none reaches `aqi`.
pub first_reaching : ℕ → AqiCategory → List AqiCategory → AqiCategory
first_reaching aqi c [] = c
first_reaching aqi c (next ∷ more) =
    let later = first_reaching aqi next more in if leb aqi c.max_aqi then c else later

unfoldable pub aqi_category : ℕ → AqiCategory
unfolding first_reaching
aqi_category aqi = first_reaching aqi good_category later_categories

unfoldable pub aqi_category_or_null : Option ℕ → Option AqiCategory
unfolding aqi_category
aqi_category_or_null none = none
aqi_category_or_null (some aqi) = some (aqi_category aqi)

unfoldable pub aqi_solid : Option ℕ → String
unfolding aqi_category_or_null
aqi_solid aqi = elim (aqi_category_or_null aqi) [ none ↦ unknown_solid | some c ↦ c.solid ]

unfoldable pub aqi_on_solid : Option ℕ → String
unfolding aqi_category_or_null
aqi_on_solid aqi = elim (aqi_category_or_null aqi) [ none ↦ unknown_on_solid | some c ↦ c.on_solid ]

abbrev pub for_theme : ThemeText → Theme → String
for_theme t light = t.light_text
for_theme t dark = t.dark_text

unfoldable pub aqi_text : Option ℕ → Theme → String
unfolding aqi_category_or_null
aqi_text aqi theme = elim (aqi_category_or_null aqi) [
  | none ↦ for_theme unknown_text theme
  | some c ↦ for_theme c.text theme
]

pub record Breakpoint : Type 0 where
  pub c_low : ℕ
  pub c_high : ℕ
  pub i_low : ℕ
  pub i_high : ℕ

pub record Breakpoints : Type 0 where
  pub first : Breakpoint
  pub rest : List Breakpoint

abbrev pub breakpoint : ℕ → ℕ → ℕ → ℕ → Breakpoint
breakpoint cl ch il ih = record { c_low = cl; c_high = ch; i_low = il; i_high = ih }

abbrev pub pm25_breakpoints : Breakpoints
pm25_breakpoints = record {
  first = breakpoint 0 900 0 50;
  rest =
      breakpoint 910 3540 51 100
      ∷ breakpoint 3550 5540 101 150
      ∷ breakpoint 5550 12540 151 200
      ∷ breakpoint 12550 22540 201 300
      ∷ breakpoint 22550 32540 301 500
      ∷ [];
}

abbrev pub pm10_breakpoints : Breakpoints
pm10_breakpoints = record {
  first = breakpoint 0 5400 0 50;
  rest =
      breakpoint 5500 15400 51 100
      ∷ breakpoint 15500 25400 101 150
      ∷ breakpoint 25500 35400 151 200
      ∷ breakpoint 35500 42400 201 300
      ∷ breakpoint 42500 60400 301 500
      ∷ [];
}

unfoldable pub find_breakpoint : ℕ → Breakpoint → List Breakpoint → Breakpoint
find_breakpoint c b [] = b
find_breakpoint c b (next ∷ more) =
    let later = find_breakpoint c next more in if leb c b.c_high then b else later

-- The line through the band at the concentration clamped into it, rounded.
unfoldable pub interpolate : ℕ → Breakpoint → ℕ
unfolding round_div
interpolate concentration bp =
    let c = min (max concentration bp.c_low) bp.c_high in
    let width = bp.c_high - bp.c_low in
    pos_part (round_div (pos ((bp.i_high - bp.i_low) * (c - bp.c_low) + bp.i_low * width)) width)

-- `concentration` has been truncated and is not negative.
unfoldable pub sub_index : ℕ → Breakpoints → ℕ
sub_index concentration breakpoints =
    interpolate concentration (find_breakpoint concentration breakpoints.first breakpoints.rest)

unfoldable pub pm25_to_aqi : Hundredths → ℕ
pm25_to_aqi pm25 = sub_index (pos_part pm25 / 10 * 10) pm25_breakpoints

unfoldable pub pm10_to_aqi : Hundredths → ℕ
pm10_to_aqi pm10 = sub_index (pos_part pm10 / 100 * 100) pm10_breakpoints

unfoldable pub particles_to_aqi : Hundredths → Hundredths → ℕ
unfolding pm25_to_aqi pm10_to_aqi
particles_to_aqi pm25 pm10 = max (pm25_to_aqi pm25) (pm10_to_aqi pm10)
