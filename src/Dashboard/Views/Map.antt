-- ===== src/Dashboard/Views/Map.antt =====
-- apps/dashboard/src/components/SensorMap.vue: the sensors as features of the map, the selection, and when the
-- view moves. What MapLibre draws is not modelled.
pub mod Fitting
mod Examples
use Prim.Native.Char.{code}
use air_quality_monitoring.Base.{
  ℕ, ◌+◌, ◌*◌, ◌/◌, ◌%◌, ◌-◌, suc, Bool, true, false, not, ◌&&◌, ◌||◌, Option, none, some, List, [],
  ◌∷◌, map, find, leb, ltb, if◌then◌else◌,
}
use air_quality_monitoring.Base.Int.{ℤ, pos, negsuc}
use air_quality_monitoring.Base.Rounding.{Hundredths}
use air_quality_monitoring.Base.Strings.{String, str_eq}
use air_quality_monitoring.Dashboard.Aqi.{unknown_solid}
use air_quality_monitoring.Dashboard.Metrics.{
  MetricId, Rgb, hex_to_rgb, Colour, level_colour, ramp_colour, color, value,
}
use air_quality_monitoring.Dashboard.Model.{Reading, SensorStatus, online, offline, inactive}
use air_quality_monitoring.Dashboard.Stats.{SensorRow}

abbrev pub hex_digit : ℕ → Option ℕ
hex_digit c =
    if leb 48 c && leb c 57
    then some (c - 48)
    else if leb 97 c && leb c 102
    then some (c - 87)
    else if leb 65 c && leb c 70
    then some (c - 55)
    else none

-- `Number.parseInt(…, 16)` of what is left, which ends at the first other character. A text without a
-- digit is NaN, whose bits are those of 0.
unfoldable pub parse_hex : ℕ → String → ℕ
parse_hex n String.[] = n
parse_hex n (String.◌∷◌ c s) = elim (hex_digit (code c)) [
  | none ↦ n
  | some d ↦ parse_hex (n * 16 + d) s
]

-- `hex.slice(1)`
abbrev pub after_first : String → String
after_first String.[] = String.[]
after_first (String.◌∷◌ c s) = s

unfoldable pub rgb_of : Colour → Rgb
unfolding parse_hex hex_to_rgb
rgb_of (level_colour hex) = hex_to_rgb (parse_hex 0 (after_first hex))
rgb_of (ramp_colour rgb) = rgb

-- `luminance > 0.55`, times 255 000.
unfoldable pub is_light : Rgb → Bool
is_light c = ltb 140250 (299 * c.r + 587 * c.g + 114 * c.b)

unfoldable pub readable_on : Colour → String
unfolding rgb_of is_light
readable_on c = if is_light (rgb_of c) then "#0C2231" else "#FFFFFF"

pub record Feature : Type 0 where
  pub id : String
  pub longitude : ℤ
  pub latitude : ℤ
  pub live : Bool
  pub color : Colour
  pub ink : String
  pub label : String
  pub rank : Hundredths
  pub focus : Bool

-- `row.status === 'online' && row.reading`
abbrev pub live_reading : SensorStatus → Option Reading → Option Reading
live_reading online reading = reading
live_reading offline reading = none
live_reading inactive reading = none

abbrev pub is_some {ℓ} : {A : Type ℓ} → Option A → Bool
is_some none = false
is_some (some a) = true

abbrev pub value_of : MetricId → Option Reading → Option Hundredths
value_of metric none = none
value_of metric (some reading) = value metric reading

unfoldable pub colour_of : MetricId → Option Hundredths → Colour
unfolding color
colour_of metric none = level_colour unknown_solid
colour_of metric (some v) = color metric v

-- `props.focusId ?? selectedId.value`
abbrev pub focus_id : Option String → Option String → Option String
focus_id none selected = selected
focus_id (some id) selected = some id

abbrev pub is_id : String → Option String → Bool
is_id id none = false
is_id id (some other) = str_eq id other

-- `format` is `n(value, 0)`.
module _ (format : Hundredths → String) (metric : MetricId) (focus selected : Option String) where
  abbrev pub label_of : Option Hundredths → String
  label_of none = ""
  label_of (some v) = format v

  abbrev pub rank_of : Option Hundredths → Hundredths
  rank_of none = negsuc 99
  rank_of (some v) = v

  unfoldable pub feature : SensorRow → Feature
  unfolding colour_of readable_on
  feature row =
      let live = live_reading row.status row.reading in
      let shown = value_of metric live in
      record {
        id = row.sensor.id;
        longitude = row.sensor.longitude;
        latitude = row.sensor.latitude;
        live = is_some live;
        color = colour_of metric shown;
        ink = readable_on (colour_of metric shown);
        label = label_of shown;
        rank = rank_of shown;
        focus = is_id row.sensor.id (focus_id focus selected);
      }

  unfoldable pub features : List SensorRow → List Feature
  features rows = map feature rows

unfoldable pub selected_row : Option String → List SensorRow → Option SensorRow
selected_row none rows = none
selected_row (some id) rows = find (λ row. str_eq row.sensor.id id) rows

-- A movement of the view: to one sensor, or to the bounds of all.
pub data Movement : Type 0 where
  jump_to : ℤ → ℤ → Movement
  fit_bounds : List (ℤ × ℤ) → Movement

pub record MapState : Type 0 where
  pub rows : List SensorRow
  pub fitted : Bool
  pub style_ready : Bool
  pub failed : Bool
  pub selected : Option String
  pub moves : List Movement

abbrev pub mounted : List SensorRow → MapState
mounted rows = record {
  rows = rows;
  fitted = false;
  style_ready = false;
  failed = false;
  selected = none;
  moves = [];
}

abbrev pub jump_or_stay : Option SensorRow → MapState → MapState
jump_or_stay none s = s
jump_or_stay (some row) s = record s {
  moves = jump_to row.sensor.longitude row.sensor.latitude ∷ s.moves;
}

abbrev pub coordinates : SensorRow → ℤ × ℤ
coordinates row = (row.sensor.longitude, row.sensor.latitude)

-- A list that may be empty is not fitted.
abbrev pub fit_rows : List SensorRow → MapState → MapState
fit_rows [] s = s
fit_rows (row ∷ rows) s = record s {
  fitted = true;
  moves = fit_bounds (map coordinates (row ∷ rows)) ∷ s.moves;
}

-- `if (props.focusId)`: no id, or the empty text, is none.
unfoldable pub fit_to_sensors : Option String → MapState → MapState
fit_to_sensors (some id) s =
    if not (str_eq id "")
    then jump_or_stay (find (λ row. str_eq row.sensor.id id) s.rows) s
    else if s.fitted
    then s
    else fit_rows s.rows s
fit_to_sensors none s = if s.fitted then s else fit_rows s.rows s

-- `style.load`
unfoldable pub on_style_ready : Option String → MapState → MapState
unfolding fit_to_sensors
on_style_ready focus s = fit_to_sensors focus (record s { style_ready = true })

-- The watcher of the features, which follow the rows, the layer and the selection.
unfoldable pub on_rows : Option String → List SensorRow → MapState → MapState
unfolding fit_to_sensors
on_rows focus rows s =
    if s.style_ready
    then fit_to_sensors focus (record s { rows = rows })
    else record s { rows = rows }

-- The watcher of the theme, which loads another style.
unfoldable pub on_theme : MapState → MapState
on_theme s = record s { style_ready = false }

-- An error of the map; `is_of_style` says that its message is about the style.
unfoldable pub on_error : Bool → MapState → MapState
on_error is_of_style s = if not s.style_ready && is_of_style then record s { failed = true } else s

-- A click, on the dot of a sensor or beside them all.
unfoldable pub on_click : Option String → MapState → MapState
on_click hit s = record s { selected = hit }

pub data Step (focus : Option String) : MapState → MapState → Type 0 where
  styled : (s : MapState) → Step focus s (on_style_ready focus s)
  changed : (rows : List SensorRow) (s : MapState) → Step focus s (on_rows focus rows s)
  themed : (s : MapState) → Step focus s (on_theme s)
  erred : (is_of_style : Bool) (s : MapState) → Step focus s (on_error is_of_style s)
  clicked : (hit : Option String) (s : MapState) → Step focus s (on_click hit s)

pub data Reachable (focus : Option String) (rows : List SensorRow) : MapState → Type 0 where
  start : Reachable focus rows (mounted rows)
  next : {s s' : MapState} → Reachable focus rows s → Step focus s s' → Reachable focus rows s'
