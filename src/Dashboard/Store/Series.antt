-- ===== src/Dashboard/Store/Series.antt =====
-- The hourly series of apps/dashboard/src/stores/air.ts: loadCitySeries and loadPlaceSeries, whose
-- requests may overlap, and refreshSeries. A request is pending from its guard to its answer.
pub mod Covering
use air_quality_monitoring.Base.{
  ℕ, suc, ◌-◌, ◌≡◌, Bool, true, false, not, ◌&&◌, ◌||◌, Option, none, some, List, [], ◌∷◌, ◌++◌,
  leb, ltb, ◌==◌, if◌then◌else◌,
}
use air_quality_monitoring.Base.Maps.{put, get}
use air_quality_monitoring.Base.Strings.{String}

-- `P` is the type of a point of the series.
pub record NetworkSeries {ℓ} (P : Type ℓ) : Type ℓ where
  pub days : ℕ
  pub points : List P

pub record Request : Type 0 where
  pub days : ℕ
  pub force : Bool

module _ {ℓ} {P : Type ℓ} where
  -- `{ days: 0, points: [] }`, and what a place without a series counts as.
  abbrev pub no_series : NetworkSeries P
  no_series = record { days = 0; points = [] }

  -- The guard: `!force && series.days >= days` returns at once.
  unfoldable pub is_wanted : Request → NetworkSeries P → Bool
  is_wanted r series = not (not r.force && leb r.days series.days)

  -- After the await: the points, or `none` for a failed request.
  unfoldable pub settle : Request → Option (List P) → NetworkSeries P → NetworkSeries P
  settle r (some points) series =
      if r.force || leb series.days r.days
      then record { days = r.days; points = points }
      else series
  settle r none series =
      if ltb series.days r.days then record { days = r.days; points = series.points } else series

  -- The answers of overlapping requests, in the order in which they end.
  unfoldable pub settle_all : List (Request × Option (List P)) → NetworkSeries P → NetworkSeries P
  settle_all [] series = series
  settle_all ((r, answer) ∷ rest) series = settle_all rest (settle r answer series)

  -- A place's series, by its id.
  abbrev pub series_at : String → List (String × NetworkSeries P) → NetworkSeries P
  series_at id places = elim (get id places) [ none ↦ no_series | some series ↦ series ]

  -- loadPlaceSeries after its await. A write happens only where the series changes.
  unfoldable pub settle_place :
      String
      → Request
      → Option (List P)
      → List (String × NetworkSeries P)
      → List (String × NetworkSeries P)
  settle_place id r (some points) places =
      if r.force || leb (series_at id places).days r.days
      then put id (record { days = r.days; points = points }) places
      else places
  settle_place id r none places =
      if ltb (series_at id places).days r.days
      then put id (record { days = r.days; points = (series_at id places).points }) places
      else places

  -- What refreshSeries asks for again.
  unfoldable pub refresh_city : NetworkSeries P → Option Request
  refresh_city series =
      if series.days == 0 then none else some (record { days = series.days; force = true })

  unfoldable pub refresh_places :
      List String → List (String × NetworkSeries P) → List (String × Request)
  refresh_places [] places = []
  refresh_places (id ∷ ids) places = elim (get id places) [
    | none ↦ refresh_places ids places
    | some series ↦ (id, record { days = series.days; force = true }) ∷ refresh_places ids places
  ]

-- `pending` are the requests that wait for their answer; `city_requests` and `loading` are the
-- store's cityRequests and citySeriesLoading.
pub record City {ℓ} (P : Type ℓ) : Type ℓ where
  pub series : NetworkSeries P
  pub city_requests : ℕ
  pub loading : Bool
  pub pending : List Request

module _ {ℓ} {P : Type ℓ} where
  abbrev pub no_city : City P
  no_city = record { series = no_series; city_requests = 0; loading = false; pending = [] }

  -- loadCitySeries up to its await.
  unfoldable pub begin : Request → City P → City P
  unfolding is_wanted
  begin r c =
      if is_wanted r c.series
      then record c { city_requests = suc c.city_requests; loading = true; pending = r ∷ c.pending }
      else c

  -- The rest of it, `finally` included: `--cityRequests > 0`.
  unfoldable pub end : List Request → Request → List Request → Option (List P) → City P → City P
  end before r after answer c = record c {
    series = settle r answer c.series;
    city_requests = c.city_requests - 1;
    loading = ltb 0 (c.city_requests - 1);
    pending = before ++ after;
  }

  pub data Step : City P → City P → Type ℓ where
    began : (c : City P) (r : Request) → Step c (begin r c)
    ended :
        (c : City P) (before : List Request) (r : Request) (after : List Request)
        (answer : Option (List P))
        → c.pending ≡ before ++ r ∷ after
        → Step c (end before r after answer c)

  pub data Reachable : City P → Type ℓ where
    start : Reachable no_city
    next : {c c' : City P} → Reachable c → Step c c' → Reachable c'
