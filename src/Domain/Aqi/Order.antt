-- ===== src/Domain/Aqi/Order.antt =====
-- The index over a whole table: its range, and that it grows with the concentration.
use air_quality_monitoring.Base.{ℕ, ◌≤◌, ◌<◌, List, [], ◌∷◌, arith}
use air_quality_monitoring.Base.Int.{pos_part, ◌≤ℤ◌}
use air_quality_monitoring.Base.Rounding.{Hundredths}
use air_quality_monitoring.Domain.Aqi.{
  Breakpoint, Breakpoints, find_breakpoint, interpolate, sub_index, pm25_breakpoints,
  pm10_breakpoints, trunc_pm25, trunc_pm10, calculate_aqi,
}
use air_quality_monitoring.Domain.Aqi.Bands.{IsBand, interpolate_bounds, interpolate_mono}

-- The rows rise: each band ends before the next one does, and its indices stay below the next's.
abbrev pub IsTable : Breakpoint → List Breakpoint → Type 0
IsTable b [] = IsBand b
IsTable b (next ∷ more) =
    IsBand b × (b.c_high < next.c_high) × (b.i_high < next.i_low) × IsTable next more

abbrev index : ℕ → Breakpoint → List Breakpoint → ℕ
index c b bs = interpolate c (find_breakpoint c b bs)

first_IsBand : (b : Breakpoint) (bs : List Breakpoint) → IsTable b bs → IsBand b
first_IsBand b [] t = t
first_IsBand b (next ∷ more) t = t.0

index-ge : (c : ℕ) (b : Breakpoint) (bs : List Breakpoint) → IsTable b bs → b.i_low ≤ index c b bs
unfolding find_breakpoint
index-ge c b [] t = (interpolate_bounds c b t).0
index-ge c b (next ∷ more) t =
    ground (arith, interpolate_bounds c b t.0, index-ge c next more t.3, t.0.indices)

-- The index of the last row's end.
abbrev pub top : Breakpoint → List Breakpoint → ℕ
top b [] = b.i_high
top b (next ∷ more) = top next more

index-le :
    (c : ℕ) (b : Breakpoint) (bs : List Breakpoint)
    → IsTable b bs
    → (index c b bs ≤ top b bs) × (b.i_high ≤ top b bs)
unfolding find_breakpoint
index-le c b [] t = ((interpolate_bounds c b t).1, omega arith)
index-le c b (next ∷ more) t = ground (
  arith,
  interpolate_bounds c b t.0,
  index-le c next more t.3,
  (first_IsBand next more t.3).indices,
)

index_mono :
    (c d : ℕ) (b : Breakpoint) (bs : List Breakpoint)
    → IsTable b bs
    → c ≤ d
    → index c b bs ≤ index d b bs
unfolding find_breakpoint
index_mono c d b [] t le = interpolate_mono c d b t le
index_mono c d b (next ∷ more) t le = ground (
  arith,
  interpolate_mono c d b t.0 le,
  interpolate_bounds c b t.0,
  index-ge d next more t.3,
  index_mono c d next more t.3 le,
)

abbrev band : (b : Breakpoint) → b.c_low < b.c_high → b.i_low ≤ b.i_high → IsBand b
band b w i = record { width = w; indices = i }

pub pm25_IsTable : IsTable pm25_breakpoints.first pm25_breakpoints.rest
pm25_IsTable = omega arith

pub pm10_IsTable : IsTable pm10_breakpoints.first pm10_breakpoints.rest
pm10_IsTable = omega arith

pub sub_index_mono :
    (c d : Hundredths) (table : Breakpoints) (truncate : ℕ → ℕ)
    → IsTable table.first table.rest
    → ((m n : ℕ) → m ≤ n → truncate m ≤ truncate n)
    → c ≤ℤ d
    → sub_index c table truncate ≤ sub_index d table truncate
unfolding sub_index
sub_index_mono c d table truncate t mono le =
    index_mono _ _ table.first table.rest t (mono (pos_part c) (pos_part d) (ground arith))

-- The server's index is at most 500, and at most 500 for each pollutant.
pub calculate_aqi_bounded : (c25 c10 : Hundredths) → (calculate_aqi c25 c10).aqi ≤ 500
unfolding calculate_aqi sub_index
calculate_aqi_bounded c25 c10 = omega (
  arith,
  index-le (trunc_pm25 (pos_part c25)) pm25_breakpoints.first pm25_breakpoints.rest pm25_IsTable,
  index-le (trunc_pm10 (pos_part c10)) pm10_breakpoints.first pm10_breakpoints.rest pm10_IsTable,
)

-- If neither concentration falls, the index does not fall.
pub calculate_aqi_mono :
    (c25 d25 c10 d10 : Hundredths)
    → c25 ≤ℤ d25
    → c10 ≤ℤ d10
    → (calculate_aqi c25 c10).aqi ≤ (calculate_aqi d25 d10).aqi
unfolding calculate_aqi
calculate_aqi_mono c25 d25 c10 d10 h k = omega (
  arith,
  sub_index_mono c25 d25 pm25_breakpoints trunc_pm25 pm25_IsTable (λ m n le. omega arith) h,
  sub_index_mono c10 d10 pm10_breakpoints trunc_pm10 pm10_IsTable (λ m n le. omega arith) k,
)
