-- ===== src/Api/History/Buckets.antt =====
-- What a history holds: for each hour that a sensor in scope reported in, one bucket of all of those.
use air_quality_monitoring.Base.{
  ℕ, ◌<◌, ◌≤◌, ◌*◌, ◌≡◌, ◌∙◌, refl, sym, ap, Option, none, some, List, [], ◌∷◌, map, arith, keep,
  find, ◌==◌, ==_iff, by_cases,
}
use air_quality_monitoring.Base.Groups.{grouped, under, IsAscending, Above, grouped-under}
use air_quality_monitoring.Base.Rounding.{Hundredths}
use air_quality_monitoring.Base.Strings.{String}
use air_quality_monitoring.Base.Int.{pos}
use air_quality_monitoring.Api.Readings.{window_days}
use air_quality_monitoring.Api.History.Contents.{
  Summarises, contributing, network_bucket-Summarises, keep-is_in_scope, is_integer-days,
  contributing_nobody, window_days-Bounded,
}
use air_quality_monitoring.Api.History.{
  HourlyRow, NetworkHourlyBucket, network_bucket, is_in_scope, grouped_history, network_history,
}

-- The hours of the buckets rise strictly.
abbrev pub IsLater : ℕ → List NetworkHourlyBucket → Type 0
IsLater hour [] = Unit
IsLater hour (b ∷ bs) = (hour < b.bucket) × IsLater hour bs

abbrev pub IsChronological : List NetworkHourlyBucket → Type 0
IsChronological [] = Unit
IsChronological (b ∷ bs) = IsLater b.bucket bs × IsChronological bs

-- The bucket of an hour with these rows, if there are any.
abbrev pub bucket_of : ℕ → List HourlyRow → Option NetworkHourlyBucket
bucket_of hour [] = none
bucket_of hour (row ∷ rows) = some (network_bucket (hour, row ∷ rows))

Above-IsLater :
    (hour : ℕ) (gs : List (ℕ × List HourlyRow))
    → Above hour gs
    → IsLater hour (map network_bucket gs)
unfolding network_bucket
Above-IsLater hour [] h = tt
Above-IsLater hour ((k, rows) ∷ gs) (h, hs) = (h, Above-IsLater hour gs hs)

IsAscending-IsChronological :
    (gs : List (ℕ × List HourlyRow)) → IsAscending gs → IsChronological (map network_bucket gs)
unfolding network_bucket
IsAscending-IsChronological [] h = tt
IsAscending-IsChronological ((k, rows) ∷ gs) (n, h, hs) =
    (Above-IsLater k gs h, IsAscending-IsChronological gs hs)

find-network_bucket :
    (hour : ℕ) (gs : List (ℕ × List HourlyRow))
    → IsAscending gs
    → find (λ b. hour == b.bucket) (map network_bucket gs) ≡ bucket_of hour (under hour gs)
unfolding network_bucket under
find-network_bucket hour [] h = refl
find-network_bucket hour ((k, []) ∷ gs) (n, h, hs) = absurd (omega arith)
find-network_bucket hour ((k, row ∷ rows) ∷ gs) (n, h, hs) =
    by_cases (hour == k)
      (λ e.
        let same : hour ≡ k = (==_iff hour k).0 e in
        rw e (ap (λ (i : ℕ). some (network_bucket (i, row ∷ rows))) (sym same)))
      (λ e. rw e (find-network_bucket hour gs hs))

-- The bucket of these rows, where there are any, and none where there are not.
abbrev pub IsBucketOf : List HourlyRow → Option NetworkHourlyBucket → Type 0
IsBucketOf [] found = found ≡ none
IsBucketOf (row ∷ rows) found =
    (b : NetworkHourlyBucket) × (found ≡ some b) × Summarises (row ∷ rows) b

bucket_of-IsBucketOf :
    (hour : ℕ) (rows : List HourlyRow) (found : Option NetworkHourlyBucket)
    → found ≡ bucket_of hour rows
    → IsBucketOf rows found
bucket_of-IsBucketOf hour [] found e = e
bucket_of-IsBucketOf hour (row ∷ rows) found e =
    (network_bucket (hour, row ∷ rows), e, network_bucket-Summarises hour row rows)

-- What the buckets of a window of `w` days say.
abbrev pub IsNetworkHistory :
    ℕ → ℕ → List String → List HourlyRow → List NetworkHourlyBucket → Type 0
IsNetworkHistory now w ids hourly buckets =
    IsChronological buckets
    × ((hour : ℕ)
        → IsBucketOf (contributing now w ids hour hourly) (find (λ b. hour == b.bucket) buckets))

module _ (now w : ℕ) where
  grouped_history-IsNetworkHistory :
      (ids : List String) (hourly : List HourlyRow)
      → (buckets : List NetworkHourlyBucket) × (grouped_history now (pos (w * 100)) ids hourly
          ≡ some buckets)
        × IsNetworkHistory now w ids hourly buckets
  unfolding grouped_history
  grouped_history-IsNetworkHistory ids hourly =
      let rows = keep (is_in_scope now (pos (w * 100)) ids) hourly in
      let (ascending, there) = grouped-under (λ (row : HourlyRow). row.bucket) rows in
      (
        map network_bucket (grouped (λ row. row.bucket) rows),
        rw (is_integer-days w) refl,
        (
          IsAscending-IsChronological _ ascending,
          λ hour. bucket_of-IsBucketOf hour _ _ (
              find-network_bucket hour _ ascending
              ∙ ap (bucket_of hour) (there hour ∙ keep-is_in_scope now w hour ids hourly)),
        ),
      )

  -- A history over a window of whole days, `w`, is answered, and `w` is from 1 to 90. The hours of its
  -- buckets rise strictly. An hour has a bucket if a device of `ids` has a row of that hour and the
  -- hour starts at most `w` days before now, and no bucket otherwise. The bucket holds the means of
  -- PM2.5, PM10, temperature and humidity of exactly those rows, the greatest AQI among them, their
  -- number and the sum of their samples.
  pub network_history_buckets :
      (days : Option Hundredths) (ids : List String) (hourly : List HourlyRow)
      → window_days days ≡ pos (w * 100)
      → ((1 ≤ w) × (w ≤ 90))
        × ((buckets : List NetworkHourlyBucket) × (network_history now days ids hourly
              ≡ some buckets)
            × IsNetworkHistory now w ids hourly buckets)
  unfolding network_history
  network_history_buckets days [] hourly e = (
    window_days-Bounded days w e,
    ([], refl, (tt, λ hour. rw (contributing_nobody now w hour hourly) refl)),
  )
  network_history_buckets days (id ∷ ids) hourly e =
      (window_days-Bounded days w e, rw e (grouped_history-IsNetworkHistory (id ∷ ids) hourly))
