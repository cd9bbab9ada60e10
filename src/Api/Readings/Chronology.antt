-- ===== src/Api/Readings/Chronology.antt =====
-- The order of the readings that the API answers, and what the dashboard makes of them.
use air_quality_monitoring.Base.{
  ℕ, zero, suc, ◌≤◌, ◌<◌, ◌≡◌, refl, true, false, Option, List, [], ◌∷◌, arith, All, keep, take,
  any, length, ltb, ◌==◌, ==_iff, by_cases, min,
}
use air_quality_monitoring.Base.Int.{ℤ, pos, ◌≤ℤ◌}
use air_quality_monitoring.Base.Rounding.{Hundredths}
use air_quality_monitoring.Base.Strings.{String, str_eq, eq_iff}
use air_quality_monitoring.Ingestion.State.{Row, same_key}
use air_quality_monitoring.Ingestion.Stores.{KeysUnique}
use air_quality_monitoring.Api.Readings.{
  since, insert_desc, order_desc, is_in_window, readings, max_rows,
}

-- Newest first, no time twice.
abbrev pub Falling : List Row → Type 0
Falling [] = Unit
Falling (r ∷ rs) = All (λ q. q.time < r.time) rs × Falling rs

abbrev OtherTimes : ℕ → List Row → Type 0
OtherTimes t = All (λ q. (t == q.time) ≡ false)

abbrev TimesUnique : List Row → Type 0
TimesUnique [] = Unit
TimesUnique (r ∷ rs) = OtherTimes r.time rs × TimesUnique rs

All-le : (s t : ℕ) (rs : List Row) → s ≤ t → All (λ q. q.time < s) rs → All (λ q. q.time < t) rs
All-le s t [] l h = tt
All-le s t (r ∷ rs) l (h, hs) = (omega arith, All-le s t rs l hs)

module _ (P : Row → Type 0) where
  All-insert_desc : (row : Row) (rs : List Row) → P row → All P rs → All P (insert_desc row rs)
  unfolding insert_desc
  All-insert_desc row [] p h = (p, tt)
  All-insert_desc row (r ∷ rs) p (h, hs) =
      by_cases (ltb row.time r.time) (λ e. rw (e, insert_desc) (h, All-insert_desc row rs p hs))
        (λ e. rw (e, insert_desc) (p, (h, hs)))

  All-order_desc : (rs : List Row) → All P rs → All P (order_desc rs)
  unfolding order_desc
  All-order_desc [] h = tt
  All-order_desc (r ∷ rs) (h, hs) = All-insert_desc r (order_desc rs) h (All-order_desc rs hs)

  All-take : (n : ℕ) (rs : List Row) → All P rs → All P (take n rs)
  All-take zero rs h = tt
  All-take (suc n) [] h = tt
  All-take (suc n) (r ∷ rs) (h, hs) = (h, All-take n rs hs)

insert_desc-Falling :
    (row : Row) (rs : List Row) → OtherTimes row.time rs → Falling rs → Falling (insert_desc row rs)
unfolding insert_desc
insert_desc-Falling row [] o f = (tt, tt)
insert_desc-Falling row (r ∷ rs) (o, os) (f, fs) =
    by_cases (ltb row.time r.time)
      (λ e.
        rw (e, insert_desc)
          (
            All-insert_desc (λ q. q.time < r.time) row rs (ground arith) f,
            insert_desc-Falling row rs os fs,
          ))
      (λ e.
        let l : r.time < row.time = ground (arith, ==_iff row.time r.time) in
        rw (e, insert_desc) ((l, All-le r.time row.time rs (omega arith) f), (f, fs)))

order_desc-Falling : (rs : List Row) → TimesUnique rs → Falling (order_desc rs)
unfolding order_desc
order_desc-Falling [] u = tt
order_desc-Falling (r ∷ rs) (u, us) =
    insert_desc-Falling r (order_desc rs) (All-order_desc (λ q. (r.time == q.time) ≡ false) rs u)
      (order_desc-Falling rs us)

take-Falling : (n : ℕ) (rs : List Row) → Falling rs → Falling (take n rs)
take-Falling zero rs f = tt
take-Falling (suc n) [] f = tt
take-Falling (suc n) (r ∷ rs) (f, fs) =
    (All-take (λ q. q.time < r.time) n rs f, take-Falling n rs fs)

module _ (device : String) (from : ℤ) where
  keep-OtherTimes :
      (row : Row) (rs : List Row)
      → str_eq row.sensor_id device ≡ true
      → any (same_key row) rs ≡ false
      → OtherTimes row.time (keep (is_in_window device from) rs)
  unfolding is_in_window
  keep-OtherTimes row [] d u = tt
  keep-OtherTimes row (r ∷ rs) d u = ground (
    arith,
    keep-OtherTimes row rs d,
    eq_iff row.sensor_id device,
    eq_iff r.sensor_id device,
    eq_iff row.sensor_id r.sensor_id,
  )

  keep-TimesUnique :
      (rs : List Row) → KeysUnique rs → TimesUnique (keep (is_in_window device from) rs)
  unfolding is_in_window
  keep-TimesUnique [] u = tt
  keep-TimesUnique (r ∷ rs) u =
      let (h, hs) : (any (same_key r) rs ≡ false) × KeysUnique rs = u in
      by_cases (is_in_window device from r)
        (λ e. rw e (keep-OtherTimes r rs (ground (arith, e)) h, keep-TimesUnique rs hs))
        (λ e. rw e (keep-TimesUnique rs hs))

  keep-window :
      (rs : List Row)
      → All
          (λ r. (r.sensor_id ≡ device) × (from ≤ℤ pos r.time))
          (keep (is_in_window device from) rs)
  unfolding is_in_window
  keep-window [] = tt
  keep-window (r ∷ rs) =
      by_cases (is_in_window device from r)
        (λ e.
          rw e ((ground (arith, e, eq_iff r.sensor_id device), ground (arith, e)), keep-window rs))
        (λ e. rw e (keep-window rs))

length-insert_desc : (row : Row) (rs : List Row) → length (insert_desc row rs) ≡ suc (length rs)
unfolding insert_desc
length-insert_desc row [] = refl
length-insert_desc row (r ∷ rs) = ground (arith, length-insert_desc row rs)

length-order_desc : (rs : List Row) → length (order_desc rs) ≡ length rs
unfolding order_desc
length-order_desc [] = refl
length-order_desc (r ∷ rs) =
    omega (arith, length-insert_desc r (order_desc rs), length-order_desc rs)

length-take : (n : ℕ) (rs : List Row) → length (take n rs) ≡ min n (length rs)
length-take zero rs = omega arith
length-take (suc n) [] = omega arith
length-take (suc n) (r ∷ rs) = omega (arith, length-take n rs)

-- The readings of a device over a table whose keys are unique are of that device and not older than the
-- window allows, newest first with no time twice, and they are all of those, or 5000 of them.
pub readings_window :
    (now : ℕ) (device : String) (hours : Option Hundredths) (rows : List Row)
    → KeysUnique rows
    → let answer = readings now device hours rows in
      All (λ r. (r.sensor_id ≡ device) × (since now hours ≤ℤ pos r.time)) answer
      × Falling answer
      × (length answer ≡ min 5000 (length (keep (is_in_window device (since now hours)) rows)))
unfolding readings
readings_window now device hours rows u =
    let from = since now hours in
    let rs = keep (is_in_window device from) rows in
    (
      All-take _ max_rows (order_desc rs) (All-order_desc _ rs (keep-window device from rows)),
      take-Falling max_rows (order_desc rs)
          (order_desc-Falling rs (keep-TimesUnique device from rows u)),
      omega (arith, length-take max_rows (order_desc rs), length-order_desc rs),
    )
