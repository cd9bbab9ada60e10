-- ===== src/Domain/Aqi.antt =====
-- packages/domain/src/aqi.ts and types.ts. Concentrations and break points are in hundredths of a
-- microgram per cubic metre.
pub mod Bands
pub mod Order
pub mod Category
use air_quality_monitoring.Base.{
  ℕ, ◌+◌, ◌-◌, ◌*◌, ◌/◌, List, [], ◌∷◌, Bool, leb, if◌then◌else◌, max, min,
}
use air_quality_monitoring.Base.Int.{ℤ, pos, pos_part}
use air_quality_monitoring.Base.Rounding.{Hundredths, round_div}

pub data AqiCategory : Type 0 where
  good moderate unhealthy_sensitive unhealthy very_unhealthy hazardous : AqiCategory

pub data Pollutant : Type 0 where
  pm25 pm10 : Pollutant

pub record AqiResult : Type 0 where
  pub aqi : ℕ
  pub category : AqiCategory
  pub dominant_pollutant : Pollutant

pub record Breakpoint : Type 0 where
  pub c_low : ℕ
  pub c_high : ℕ
  pub i_low : ℕ
  pub i_high : ℕ

-- A table has a first row and further ones.
pub record Breakpoints : Type 0 where
  pub first : Breakpoint
  pub rest : List Breakpoint

abbrev pub breakpoint : ℕ → ℕ → ℕ → ℕ → Breakpoint
breakpoint cl ch il ih = record { c_low = cl; c_high = ch; i_low = il; i_high = ih }

abbrev pub pm25_breakpoints : Breakpoints
pm25_breakpoints = record {
  first = breakpoint 0 900 0 50;
  rest =
      breakpoint 910 3540 51 100
      ∷ breakpoint 3550 5540 101 150
      ∷ breakpoint 5550 12540 151 200
      ∷ breakpoint 12550 22540 201 300
      ∷ breakpoint 22550 32540 301 500
      ∷ [];
}

abbrev pub pm10_breakpoints : Breakpoints
pm10_breakpoints = record {
  first = breakpoint 0 5400 0 50;
  rest =
      breakpoint 5500 15400 51 100
      ∷ breakpoint 15500 25400 101 150
      ∷ breakpoint 25500 35400 151 200
      ∷ breakpoint 35500 42400 201 300
      ∷ breakpoint 42500 60400 301 500
      ∷ [];
}

-- Down to a tenth, down to a unit.
abbrev pub trunc_pm25 : ℕ → ℕ
trunc_pm25 c = c / 10 * 10

abbrev pub trunc_pm10 : ℕ → ℕ
trunc_pm10 c = c / 100 * 100

-- `breakpoints.find((b) => c <= b.cHigh) ?? breakpoints[breakpoints.length - 1]`
unfoldable pub find_breakpoint : ℕ → Breakpoint → List Breakpoint → Breakpoint
find_breakpoint c b [] = b
find_breakpoint c b (next ∷ more) =
    let later = find_breakpoint c next more in if leb c b.c_high then b else later

-- The line through the band at the concentration clamped into it, rounded. The intercept is a whole
-- number, and both are over the width of the band.
unfoldable pub interpolate : ℕ → Breakpoint → ℕ
unfolding round_div
interpolate c bp =
    let cc = min (max c bp.c_low) bp.c_high in
    let width = bp.c_high - bp.c_low in
    pos_part (round_div (pos ((bp.i_high - bp.i_low) * (cc - bp.c_low) + bp.i_low * width)) width)

-- `Math.max(0, concentration)` is the positive part.
unfoldable pub sub_index : Hundredths → Breakpoints → (ℕ → ℕ) → ℕ
sub_index concentration breakpoints truncate =
    let c = truncate (pos_part concentration) in
    interpolate c (find_breakpoint c breakpoints.first breakpoints.rest)

unfoldable pub aqi_category : ℕ → AqiCategory
aqi_category aqi =
    if leb aqi 50
    then good
    else if leb aqi 100
    then moderate
    else if leb aqi 150
    then unhealthy_sensitive
    else if leb aqi 200
    then unhealthy
    else if leb aqi 300
    then very_unhealthy
    else hazardous

unfoldable pub calculate_aqi : Hundredths → Hundredths → AqiResult
calculate_aqi c25 c10 =
    let pm25_index = sub_index c25 pm25_breakpoints trunc_pm25 in
    let pm10_index = sub_index c10 pm10_breakpoints trunc_pm10 in
    let aqi = max pm25_index pm10_index in
    record {
      aqi = aqi;
      category = aqi_category aqi;
      dominant_pollutant = if leb pm10_index pm25_index then pm25 else pm10;
    }
