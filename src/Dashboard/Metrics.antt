-- ===== src/Dashboard/Metrics.antt =====
-- apps/dashboard/src/lib/metrics.ts: what is measured, and the colours of a scale. A colour '#rrggbb' is
-- its number; a value is in hundredths.
pub mod Ramp
use air_quality_monitoring.Base.{
  ℕ, suc, ◌+◌, ◌-◌, ◌*◌, ◌/◌, ◌%◌, Option, some, List, [], ◌∷◌, leb, if◌then◌else◌,
}
use air_quality_monitoring.Base.Int.{ℤ, pos, leb_ℤ, pos_part}
use air_quality_monitoring.Base.Rounding.{Hundredths}
use air_quality_monitoring.Base.Strings.{String}
use air_quality_monitoring.Dashboard.Model.{Reading, HourlyPoint}
use air_quality_monitoring.Dashboard.Aqi.{particles_to_aqi, aqi_solid, pm25_to_aqi, pm10_to_aqi}

pub data MetricId : Type 0 where
  aqi pm25 pm10 temperature humidity : MetricId

-- The empty unit is `unitless`.
pub data MetricUnit : Type 0 where
  ugm3 celsius percent unitless : MetricUnit

pub record Rgb : Type 0 where
  pub r : ℕ
  pub g : ℕ
  pub b : ℕ

-- A stop of a ramp, its colour as a number.
pub record Stop : Type 0 where
  pub at : ℕ
  pub hex : ℕ

-- `[(n >> 16) & 255, (n >> 8) & 255, n & 255]`
unfoldable pub hex_to_rgb : ℕ → Rgb
hex_to_rgb n = record { r = n / 65536 % 256; g = n / 256 % 256; b = n % 256 }

-- `Math.round(c + (b - c) * t)` at `t = x / d`, with `x ≤ d`.
unfoldable pub mix : ℕ → ℕ → ℕ → ℕ → ℕ
mix x d c b = (2 * (c * (d - x) + b * x) + d) / (2 * d)

-- The colour between two stops.
unfoldable pub between : Stop → Stop → ℕ → Rgb
between lo hi v =
    let x = v - lo.at in
    let d = hi.at - lo.at in
    let p = hex_to_rgb lo.hex in
    let q = hex_to_rgb hi.hex in
    record { r = mix x d p.r q.r; g = mix x d p.g q.g; b = mix x d p.b q.b }

-- The loop from the stop after `lo` on.
unfoldable pub ramp_from : Stop → List Stop → ℕ → Rgb
ramp_from lo [] v = hex_to_rgb lo.hex
ramp_from lo (hi ∷ stops) v =
    let later = ramp_from hi stops v in if leb v hi.at then between lo hi v else later

-- The first stop stands apart, since there is one.
unfoldable pub ramp : Stop → List Stop → Hundredths → Rgb
ramp first stops v =
    if leb_ℤ v (pos first.at) then hex_to_rgb first.hex else ramp_from first stops (pos_part v)

abbrev pub temperature_first : Stop
temperature_first = record { at = 0; hex = 0x3D7EC7 }

abbrev pub temperature_stops : List Stop
temperature_stops =
    record { at = 1500; hex = 0x6FB7D9 }
    ∷ record { at = 2400; hex = 0xE9D27A }
    ∷ record { at = 3200; hex = 0xEE9440 }
    ∷ record { at = 4200; hex = 0xC8392F }
    ∷ []

abbrev pub humidity_first : Stop
humidity_first = record { at = 0; hex = 0xE3D9A8 }

abbrev pub humidity_stops : List Stop
humidity_stops = record { at = 5000; hex = 0x6FB7D9 } ∷ record { at = 10000; hex = 0x0A4F8C } ∷ []

-- `value`, in hundredths.
unfoldable pub value : MetricId → Reading → Option Hundredths
value aqi reading = some (pos (reading.aqi * 100))
value pm25 reading = some reading.pm25
value pm10 reading = some reading.pm10
value temperature reading = some reading.temperature
value humidity reading = some reading.humidity

unfoldable pub hourly : MetricId → HourlyPoint → Hundredths
hourly aqi point = pos (particles_to_aqi point.pm25 point.pm10 * 100)
hourly pm25 point = point.pm25
hourly pm10 point = point.pm10
hourly temperature point = point.temperature
hourly humidity point = point.humidity

unfoldable pub unit_of : MetricId → MetricUnit
unit_of aqi = unitless
unit_of pm25 = ugm3
unit_of pm10 = ugm3
unit_of temperature = celsius
unit_of humidity = percent

unfoldable pub digits : MetricId → ℕ
digits aqi = 0
digits pm25 = 1
digits pm10 = 1
digits temperature = 1
digits humidity = 0

unfoldable pub range : MetricId → ℕ × ℕ
range aqi = (0, 200)
range pm25 = (0, 80)
range pm10 = (0, 150)
range temperature = (0, 42)
range humidity = (0, 100)

-- The colour of a level, by its text, or one of a ramp.
pub data Colour : Type 0 where
  level_colour : String → Colour
  ramp_colour : Rgb → Colour

-- A level holds up to a whole index, so an index between two is that of the next.
abbrev pub whole_index : Hundredths → ℕ
whole_index v = (pos_part v + 99) / 100

unfoldable pub color : MetricId → Hundredths → Colour
unfolding ramp
color aqi v = level_colour (aqi_solid (some (whole_index v)))
color pm25 v = level_colour (aqi_solid (some (pm25_to_aqi v)))
color pm10 v = level_colour (aqi_solid (some (pm10_to_aqi v)))
color temperature v = ramp_colour (ramp temperature_first temperature_stops v)
color humidity v = ramp_colour (ramp humidity_first humidity_stops v)

abbrev pub metric_order : List MetricId
metric_order = aqi ∷ pm25 ∷ pm10 ∷ temperature ∷ humidity ∷ []
