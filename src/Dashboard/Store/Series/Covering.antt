-- ===== src/Dashboard/Store/Series/Covering.antt =====
-- What the overlapping requests leave: the range that is covered, and the loading flag.
use air_quality_monitoring.Base.{
  ℕ, suc, All, [], ◌≤◌, ◌<◌, ◌⊎◌, inl, inr, by_cases, subst, sym, ◌≡◌, refl, ap, ◌∙◌, false, Option,
  none, some, List, ◌∷◌, ◌++◌, arith, ltb, length, length-append, max,
}
use air_quality_monitoring.Base.Maps.{get, get-put}
use air_quality_monitoring.Base.Strings.{String, str_eq, eq_refl}
use air_quality_monitoring.Dashboard.Store.Series.{
  NetworkSeries, Request, is_wanted, settle, settle_all, series_at, settle_place, City, begin, end,
  began, ended, Reachable, start, next,
}

module _ {ℓ} {P : Type ℓ} where
  -- Whether a request is answered or fails, afterwards the series covers its range; if it was not
  -- forced, the series covers the wider of the two ranges, so a late narrow answer never replaces a
  -- wider one.
  pub settle_covers :
      (r : Request) (answer : Option (List P)) (series : NetworkSeries P)
      → (r.days ≤ (settle r answer series).days)
        × (r.force ≡ false → (settle r answer series).days ≡ max series.days r.days)
  unfolding settle
  settle_covers r (some points) series = (ground arith, λ f. ground (arith, f))
  settle_covers r none series = (ground arith, λ f. ground (arith, f))

  -- The widest range of the series and of the requests.
  abbrev pub widest : ℕ → List (Request × Option (List P)) → ℕ
  widest days [] = days
  widest days ((r, answer) ∷ rest) = widest (max days r.days) rest

  abbrev pub AllWanted : List (Request × Option (List P)) → Type 0
  AllWanted = All (λ (r, answer). r.force ≡ false)

  widest_le : (days : ℕ) (answers : List (Request × Option (List P))) → days ≤ widest days answers
  widest_le days [] = omega arith
  widest_le days ((r, answer) ∷ rest) = omega (arith, widest_le (max days r.days) rest)

  -- Requests that are not forced, answered or failed in any order, leave the widest range recorded of
  -- what was there and what was asked for.
  pub settle_all-days :
      (answers : List (Request × Option (List P))) (series : NetworkSeries P)
      → AllWanted answers
      → let final = settle_all answers series in
        (final.days ≡ widest series.days answers)
        × (series.days ≤ final.days)
        × All (λ (r, answer). r.days ≤ final.days) answers
  unfolding settle_all
  settle_all-days [] series w = (refl, omega arith, tt)
  settle_all-days ((r, answer) ∷ rest) series (w, ws) =
      let (covered, wider) = settle_covers r answer series in
      let (days, before, each) = settle_all-days rest (settle r answer series) ws in
      (
        days ∙ ap (λ d. widest d rest) (wider w),
        omega (arith, wider w, before),
        (omega (arith, covered, before), each),
      )

  -- Requests of so many days that are not forced, each with the points that it was answered with.
  abbrev pub unforced : List (ℕ × List P) → List (Request × Option (List P))
  unforced [] = []
  unforced ((days, points) ∷ rest) =
      (record { days = days; force = false }, some points) ∷ unforced rest

  -- `final` is what was there, and every answer is narrower; or it is the last one of the widest answers,
  -- and it is no narrower than what was there.
  abbrev pub IsWidest : NetworkSeries P → List (ℕ × List P) → NetworkSeries P → Type ℓ
  IsWidest series answers final =
      ((final ≡ series) × All (λ a. a.0 < series.days) answers)
      ⊎ ((before : List (ℕ × List P)) × (days : ℕ) × (points : List P) × (after : List (ℕ × List P))
          × (answers ≡ before ++ (days, points) ∷ after)
          × (final ≡ record { days = days; points = points })
          × (series.days ≤ days)
          × All (λ a. a.0 ≤ days) before
          × All (λ a. a.0 < days) after)

  settle_narrower :
      (days : ℕ) (points : List P) (series : NetworkSeries P)
      → days < series.days
      → settle (record { days = days; force = false }) (some points) series ≡ series
  unfolding settle
  settle_narrower days points series h = ground arith

  settle_wider :
      (days : ℕ) (points : List P) (series : NetworkSeries P)
      → series.days ≤ days
      → settle (record { days = days; force = false }) (some points) series
        ≡ record { days = days; points = points }
  unfolding settle
  settle_wider days points series h = ground arith

  keep_narrower :
      (days : ℕ) (points : List P) (rest : List (ℕ × List P)) (series final : NetworkSeries P)
      → days < series.days
      → IsWidest series rest final
      → IsWidest series ((days, points) ∷ rest) final
  keep_narrower days points rest series final h (inl (same, narrow)) = inl (same, (h, narrow))
  keep_narrower days points rest series final h (inr (before, d, p, after, e, same, l, bs, later)) =
      inr (
        (days, points) ∷ before,
        d,
        p,
        after,
        ap (λ xs. (days, points) ∷ xs) e,
        same,
        l,
        (omega arith, bs),
        later,
      )

  take_wider :
      (days : ℕ) (points : List P) (rest : List (ℕ × List P)) (series final : NetworkSeries P)
      → series.days ≤ days
      → IsWidest (record { days = days; points = points }) rest final
      → IsWidest series ((days, points) ∷ rest) final
  take_wider days points rest series final h (inl (same, narrow)) =
      inr ([], days, points, rest, refl, same, h, tt, narrow)
  take_wider days points rest series final h (inr (before, d, p, after, e, same, l, bs, later)) =
      inr (
        (days, points) ∷ before,
        d,
        p,
        after,
        ap (λ xs. (days, points) ∷ xs) e,
        same,
        omega arith,
        (l, bs),
        later,
      )

  -- Let requests that are not forced overlap, and be answered in any order. When all are answered, the
  -- series is the last answer of the widest range that was asked for, its days and its points; or it is
  -- what was there, if that covers more than each of the answers.
  pub settle_all-IsWidest :
      (answers : List (ℕ × List P)) (series : NetworkSeries P)
      → IsWidest series answers (settle_all (unforced answers) series)
  unfolding settle_all
  settle_all-IsWidest [] series = inl (refl, tt)
  settle_all-IsWidest ((days, points) ∷ rest) series =
      by_cases (ltb days series.days)
        (λ e.
          let h : days < series.days = ground arith in
          subst (λ x. IsWidest series ((days, points) ∷ rest) (settle_all (unforced rest) x))
            (sym (settle_narrower days points series h))
            (keep_narrower days points rest series _ h (settle_all-IsWidest rest series)))
        (λ e.
          let h : series.days ≤ days = ground arith in
          subst (λ x. IsWidest series ((days, points) ∷ rest) (settle_all (unforced rest) x))
            (sym (settle_wider days points series h))
            (take_wider days points rest series _ h
              (settle_all-IsWidest rest (record { days = days; points = points }))))

  -- The series of a place is settled like the city's, and the other places keep theirs.
  pub settle_place-settle :
      (id j : String) (r : Request) (answer : Option (List P))
      (places : List (String × NetworkSeries P))
      → (series_at id (settle_place id r answer places) ≡ settle r answer (series_at id places))
        × (str_eq id j ≡ false → get j (settle_place id r answer places) ≡ get j places)
  unfolding settle_place settle
  settle_place-settle id j r (some points) places =
      let written : NetworkSeries P = record { days = r.days; points = points } in
      (
        ground (arith, get-put id id written places, eq_refl id),
        λ n. ground (arith, get-put id j written places, n),
      )
  settle_place-settle id j r none places =
      let written : NetworkSeries P = record {
        days = r.days;
        points = (series_at id places).points;
      } in
      (
        ground (arith, get-put id id written places, eq_refl id),
        λ n. ground (arith, get-put id j written places, n),
      )

  pub record IsCounted (c : City P) : Type 0 where
    pub requests : c.city_requests ≡ length c.pending
    pub flag : c.loading ≡ ltb 0 (length c.pending)

  begin-IsCounted : (r : Request) (c : City P) → IsCounted c → IsCounted (begin r c)
  unfolding begin is_wanted
  begin-IsCounted r c w = ground (arith, w.requests, w.flag)

  end-IsCounted :
      (c : City P) (before : List Request) (r : Request) (after : List Request)
      (answer : Option (List P))
      → c.pending ≡ before ++ r ∷ after
      → IsCounted c
      → IsCounted (end before r after answer c)
  unfolding end
  end-IsCounted c before r after answer e w =
      let left : length c.pending ≡ suc (length (before ++ after)) =
        omega (arith, ap length e ∙ length-append before (r ∷ after), length-append before after) in
      record { requests = omega (arith, w.requests, left); flag = ground (arith, w.requests, left) }

  -- In every state that overlapping requests reach, the loading flag is set exactly while a request
  -- is pending, and the counter is their number.
  pub Reachable-IsCounted : (c : City P) → Reachable c → IsCounted c
  Reachable-IsCounted _ start = record { requests = refl; flag = refl }
  Reachable-IsCounted _ (next r (began c q)) = begin-IsCounted q c (Reachable-IsCounted c r)
  Reachable-IsCounted _ (next r (ended c before q after answer e)) =
      end-IsCounted c before q after answer e (Reachable-IsCounted c r)
