-- ===== src/Api/History/Contents.antt =====
-- What a bucket of a network history says of the rows that it is made of, and which rows those are,
-- in terms of their times, devices and columns.
use air_quality_monitoring.Base.{
  ℕ, ◌+◌, ◌*◌, ◌≤◌, ◌≡◌, ◌∙◌, refl, ap, Bool, true, ◌&&◌, Option, List, [], ◌∷◌, map, foldl, max,
  arith, keep, leb, ◌==◌, any, ◌||◌, ==_iff, All, length,
}
use air_quality_monitoring.Base.Averages.{sum}
use air_quality_monitoring.Base.Int.{ℤ, pos, ◌+ℤ◌, ◌-ℤ◌, ◌*ℤ◌, int_laws}
use air_quality_monitoring.Base.Rounding.{Hundredths, is_integer}
use air_quality_monitoring.Base.Strings.{String, str_eq}
use air_quality_monitoring.Api.Readings.{window_days}
use air_quality_monitoring.Api.History.{
  HourlyRow, Average, NetworkHourlyBucket, average, network_bucket, is_recent, is_in_scope,
}

-- The sum of a column.
abbrev pub total : (HourlyRow → Hundredths) → List HourlyRow → ℤ
total column [] = pos 0
total column (row ∷ rows) = column row +ℤ total column rows

-- The mean of a column, as the sum and the number of its values.
abbrev pub IsMean : Average → (HourlyRow → Hundredths) → List HourlyRow → Type 0
IsMean a column rows = (a.sum ≡ total column rows) × (a.count ≡ length rows)

-- A bucket holds the means of four columns of the rows, the greatest AQI among them, their number
-- and the sum of their samples.
pub record Summarises (rows : List HourlyRow) (b : NetworkHourlyBucket) : Type 0 where
  pub pm25 : IsMean b.avg_pm25 (λ row. row.avg_pm25) rows
  pub pm10 : IsMean b.avg_pm10 (λ row. row.avg_pm10) rows
  pub temperature : IsMean b.avg_temperature (λ row. row.avg_temperature) rows
  pub humidity : IsMean b.avg_humidity (λ row. row.avg_humidity) rows
  pub no_greater : All (λ row. row.max_aqi ≤ b.max_aqi) rows
  pub reached : any (λ row. row.max_aqi == b.max_aqi) rows ≡ true
  pub sensors : b.sensor_count ≡ length rows
  pub samples : b.sample_count ≡ sum (map (λ row. row.sample_count) rows)

-- The rows of an hour that devices of `ids` reported and whose hour starts at most `w` days before
-- now.
abbrev pub contributing : ℕ → ℕ → List String → ℕ → List HourlyRow → List HourlyRow
contributing now w ids hour = keep (λ row.
    (hour == row.bucket)
    && (leb now (row.bucket + w * 86400000) && any (λ id. str_eq row.sensor_id id) ids))

foldl-total :
    (column : HourlyRow → Hundredths) (rows : List HourlyRow) (acc : ℤ)
    → foldl (λ sum row. sum +ℤ column row) acc rows ≡ acc +ℤ total column rows
foldl-total column [] acc = omega int_laws
foldl-total column (row ∷ rows) acc =
    rw (foldl-total column rows (acc +ℤ column row)) (omega int_laws)

average-IsMean :
    (column : HourlyRow → Hundredths) (rows : List HourlyRow)
    → IsMean (average column rows) column rows
unfolding average
average-IsMean column rows = (foldl-total column rows (pos 0) ∙ omega int_laws, refl)

-- A running maximum is at least each AQI, and is its start or one of them.
foldl-max_aqi :
    (rows : List HourlyRow) (m : ℕ)
    → let top = foldl (λ greatest row. max greatest row.max_aqi) m rows in
      (m ≤ top)
      × All (λ row. row.max_aqi ≤ top) rows
      × (((m == top) || any (λ row. row.max_aqi == top) rows) ≡ true)
foldl-max_aqi [] m = (omega arith, tt, ground (arith, ==_iff m m))
foldl-max_aqi (row ∷ rows) m =
    let (le, all, there) = foldl-max_aqi rows (max m row.max_aqi) in
    (omega arith, (omega arith, all), ground arith)

pub network_bucket-Summarises :
    (hour : ℕ) (row : HourlyRow) (rows : List HourlyRow)
    → Summarises (row ∷ rows) (network_bucket (hour, row ∷ rows))
unfolding network_bucket
network_bucket-Summarises hour row rows =
    let (le, all, there) = foldl-max_aqi rows (max 0 row.max_aqi) in
    record {
      pm25 = average-IsMean _ _;
      pm10 = average-IsMean _ _;
      temperature = average-IsMean _ _;
      humidity = average-IsMean _ _;
      no_greater = (omega arith, all);
      reached = ground arith;
      sensors = refl;
      samples = refl;
    }

keep-keep :
    (p q : HourlyRow → Bool) (rows : List HourlyRow)
    → keep p (keep q rows) ≡ keep (λ row. p row && q row) rows
keep-keep p q [] = refl
keep-keep p q (row ∷ rows) = ground (arith, keep-keep p q rows)

-- A window of `w` days reaches back to `w` times the milliseconds of a day.
is_recent-days :
    (now w : ℕ) (row : HourlyRow)
    → is_recent now (pos (w * 100)) row ≡ leb now (row.bucket + w * 86400000)
unfolding is_recent ◌-ℤ◌ ◌*ℤ◌
is_recent-days now w row = ground arith

pub keep-is_in_scope :
    (now w hour : ℕ) (ids : List String) (rows : List HourlyRow)
    → keep (λ row. hour == row.bucket) (keep (is_in_scope now (pos (w * 100)) ids) rows)
      ≡ contributing now w ids hour rows
unfolding is_in_scope
keep-is_in_scope now w hour ids rows =
    keep-keep (λ row. hour == row.bucket) (is_in_scope now (pos (w * 100)) ids) rows
    ∙ ap
        (λ (recent : HourlyRow → Bool).
          keep
            (λ row. (hour == row.bucket) && (recent row && any (λ id. str_eq row.sensor_id id) ids))
            rows)
        (λ i row. is_recent-days now w row i)

pub is_integer-days : (w : ℕ) → is_integer (pos (w * 100)) ≡ true
unfolding is_integer
is_integer-days w = ground arith

-- No row is of no device.
pub contributing_nobody :
    (now w hour : ℕ) (rows : List HourlyRow) → contributing now w [] hour rows ≡ []
contributing_nobody now w hour [] = refl
contributing_nobody now w hour (row ∷ rows) = ground (arith, contributing_nobody now w hour rows)

pub window_days-Bounded :
    (days : Option Hundredths) (w : ℕ) → window_days days ≡ pos (w * 100) → (1 ≤ w) × (w ≤ 90)
unfolding window_days
window_days-Bounded days w e = ground arith
