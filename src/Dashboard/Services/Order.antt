-- ===== src/Dashboard/Services/Order.antt =====
-- The order and the keys of what the service hands on.
use air_quality_monitoring.Base.{
  ℕ, ◌<◌, ◌≡◌, inl, inr, ◌↔◌, sym, subst, false, some, List, [], ◌∷◌, arith, All, All-append,
  reverse, Option-cases,
}
use mathlib.Core.List.{reverse-cons}
use air_quality_monitoring.Base.Strings.{str_eq}
use air_quality_monitoring.Dashboard.Model.{Reading}
use air_quality_monitoring.Dashboard.Store.Window.{Sorted, append-Sorted}
use air_quality_monitoring.Dashboard.Services.{
  ApiReading, Platform, device_key, reading_at, row_time, or_empty, or_else, to_reading,
  to_readings, get_readings,
}

All-reverse : (P : Reading → Type 0) (rs : List Reading) → All P rs → All P (reverse rs)
All-reverse P [] h = tt
All-reverse P (r ∷ rs) (h, hs) =
    subst (All P) (sym (reverse-cons r rs))
      (All-append P (reverse rs) (r ∷ []) (All-reverse P rs hs) (h, tt))

module _ (platform : Platform) where
  -- Newest first, no time twice; a row whose time cannot be read takes no part.
  abbrev pub IsBefore : ℕ → ApiReading → Type 0
  IsBefore t r = (u : ℕ) → row_time platform r ≡ some u → u < t

  abbrev pub IsNewestFirst : List ApiReading → Type 0
  IsNewestFirst [] = Unit {0}
  IsNewestFirst (r ∷ rs) =
      ((t : ℕ) → row_time platform r ≡ some t → All (IsBefore t) rs) × IsNewestFirst rs

  to_reading-time :
      (r : ApiReading) (q : Reading)
      → to_reading platform r ≡ some q
      → row_time platform r ≡ some q.time
  unfolding to_reading reading_at
  to_reading-time r q e = ground (arith, e)

  to_reading-sensor_id :
      (r : ApiReading) (q : Reading)
      → to_reading platform r ≡ some q
      → q.sensor_id ≡ platform.to_lower_case (or_empty (or_else r.sensor_id r.device_id))
  unfolding to_reading reading_at device_key
  to_reading-sensor_id r q e = ground (arith, e)

  -- What is kept of rows before a time is before it.
  to_readings_before :
      (t : ℕ) (rs : List ApiReading)
      → All (IsBefore t) rs
      → All (λ q. q.time < t) (to_readings platform rs)
  unfolding to_readings
  to_readings_before t [] h = tt
  to_readings_before t (r ∷ rs) (h, hs) = elim (Option-cases (to_reading platform r)) [
    | inl n ↦ rw (n, to_readings) (to_readings_before t rs hs)
    | inr (q, e) ↦
        rw (e, to_readings) (h q.time (to_reading-time r q e), to_readings_before t rs hs)
  ]

  -- If the API answers newest first, the readings that are handed on are in order of time, as the
  -- history of the store wants them, whatever rows were left out because they could not be read.
  pub get_readings-Sorted :
      (rows : List ApiReading) → IsNewestFirst rows → Sorted (get_readings platform rows)
  unfolding get_readings to_readings
  get_readings-Sorted [] w = tt
  get_readings-Sorted (r ∷ rs) (h, w) = elim (Option-cases (to_reading platform r)) [
    | inl n ↦ rw (n, to_readings) (get_readings-Sorted rs w)
    | inr (q, e) ↦
        rw (e, to_readings)
          (subst Sorted (sym (reverse-cons q (to_readings platform rs))) (
            append-Sorted q (reverse (to_readings platform rs)) (get_readings-Sorted rs w) (
              All-reverse (λ p. p.time < q.time) (to_readings platform rs)
                (to_readings_before q.time rs (h q.time (to_reading-time r q e))))))
  ]

  -- A row gives a reading exactly if it has an id and a time that can be read; the reading has the
  -- id in lower case, and that time.
  pub to_reading_iff :
      (r : ApiReading)
      → (((q : Reading) × (to_reading platform r ≡ some q)) ↔ (
          (str_eq (or_empty (or_else r.sensor_id r.device_id)) "" ≡ false)
          × ((t : ℕ) × (row_time platform r ≡ some t))))
        × ((q : Reading)
            → to_reading platform r ≡ some q
            → (q.sensor_id ≡ platform.to_lower_case (or_empty (or_else r.sensor_id r.device_id)))
              × (row_time platform r ≡ some q.time))
  unfolding to_reading
  to_reading_iff r = (
    (
      λ (q, e). (ground (arith, e), (q.time, to_reading-time r q e)),
      λ (named, (t, e)). (
        reading_at platform r (or_empty (or_else r.sensor_id r.device_id)) t,
        ground (arith, named, e),
      ),
    ),
    λ q e. (to_reading-sensor_id r q e, to_reading-time r q e),
  )
