-- ===== src/Dashboard/Stats/Series/Hours.antt =====
-- The typical day has an entry for each hour, made of exactly the points of that hour.
use air_quality_monitoring.Base.{
  ℕ, zero, suc, ◌+◌, ◌<◌, ◌≡◌, ◌∙◌, refl, sym, ap, List, [], ◌∷◌, ◌++◌, arith, keep, length, get_or,
  set, replicate, ◌==◌, ==_iff, if◌then◌else◌, by_cases,
}
use mathlib.Core.List.{append-nil, append_assoc}
use air_quality_monitoring.Base.Rounding.{Hundredths}
use air_quality_monitoring.Dashboard.Stats.Series.{
  SeriesPoint, HourlySeries, HourOfDay, push_at, by_hour, hour_of_day, hours_of_day,
  hour_of_day_profile,
}

module _ {A : Type 0} where
  pub get_or-set :
      (i j : ℕ) (x d : A) (xs : List A)
      → j < length xs
      → get_or (set xs j x) i d ≡ (if i == j then x else get_or xs i d)
  get_or-set i j x d [] h = absurd (omega arith)
  get_or-set zero zero x d (y ∷ ys) h = refl
  get_or-set zero (suc j) x d (y ∷ ys) h = ground arith
  get_or-set (suc i) zero x d (y ∷ ys) h = ground arith
  get_or-set (suc i) (suc j) x d (y ∷ ys) h = ground (arith, get_or-set i j x d ys (omega arith))

  pub length-set : (xs : List A) (j : ℕ) (x : A) → length (set xs j x) ≡ length xs
  length-set [] j x = refl
  length-set (y ∷ ys) zero x = refl
  length-set (y ∷ ys) (suc j) x = ap suc (length-set ys j x)

module _ (get_hours : ℕ → ℕ) (in_day : (t : ℕ) → get_hours t < 24) where
  abbrev pub at_hour : ℕ → HourlySeries → HourlySeries
  at_hour hour series = keep (λ point. hour == get_hours point.time) series

  -- A point that is pushed at `h`, as it is seen at `hour`.
  pushed_lem :
      (hour h : ℕ) (point : SeriesPoint Hundredths) (groups : List HourlySeries)
      (rest : HourlySeries)
      → (if hour == h then get_or groups h [] ++ point ∷ [] else get_or groups hour []) ++ rest
        ≡ get_or groups hour [] ++ (if hour == h then point ∷ rest else rest)
  pushed_lem hour h point groups rest =
      by_cases (hour == h)
        (λ e. rw e (
          ap (λ (k : ℕ). (get_or groups k [] ++ point ∷ []) ++ rest) (sym ((==_iff hour h).0 e))
          ∙ append_assoc (get_or groups hour []) (point ∷ []) rest))
        (λ e. rw e refl)

  by_hour_lem :
      (hour : ℕ) (series : HourlySeries) (groups : List HourlySeries)
      → length groups ≡ 24
      → (get_or (by_hour get_hours series groups) hour []
          ≡ get_or groups hour [] ++ at_hour hour series)
        × (length (by_hour get_hours series groups) ≡ 24)
  unfolding by_hour
  by_hour_lem hour [] groups n = (sym (append-nil (get_or groups hour [])), n)
  by_hour_lem hour (point ∷ series) groups n =
      let h = get_hours point.time in
      let there : h < length groups = omega (arith, in_day point.time, n) in
      let pushed = push_at h point groups in
      let (rest, size) = by_hour_lem hour series pushed (length-set groups h _ ∙ n) in
      let here = get_or-set hour h (get_or groups h [] ++ point ∷ []) [] groups there in
      (
        rest
            ∙ ap (λ (ps : HourlySeries). ps ++ at_hour hour series) here
            ∙ pushed_lem hour h point groups (at_hour hour series),
        size,
      )

  get_or-hours_of_day :
      (n i : ℕ) (groups : List HourlySeries) (d : HourOfDay)
      → i < length groups
      → get_or (hours_of_day n groups) i d ≡ hour_of_day (n + i) (get_or groups i [])
  unfolding hours_of_day
  get_or-hours_of_day n i [] d h = absurd (omega arith)
  get_or-hours_of_day n zero (points ∷ groups) d h =
      ap (λ (k : ℕ). hour_of_day k points) (omega arith)
  get_or-hours_of_day n (suc i) (points ∷ groups) d h =
      get_or-hours_of_day (suc n) i groups d (omega arith)
      ∙ ap (λ (k : ℕ). hour_of_day k (get_or groups i [])) (omega arith)

  length-hours_of_day :
      (n : ℕ) (groups : List HourlySeries) → length (hours_of_day n groups) ≡ length groups
  unfolding hours_of_day
  length-hours_of_day n [] = refl
  length-hours_of_day n (points ∷ groups) = ap suc (length-hours_of_day (suc n) groups)

  none_yet : (n hour : ℕ) → get_or (replicate {A = HourlySeries} n []) hour [] ≡ []
  none_yet zero hour = refl
  none_yet (suc n) zero = refl
  none_yet (suc n) (suc hour) = none_yet n hour

  -- The profile has 24 entries, and the one of an hour has the means over exactly the points of that
  -- hour of the clock, in local time.
  pub hour_of_day_profile_hours :
      (series : HourlySeries) (hour : ℕ) (missing : HourOfDay)
      → hour < 24
      → (length (hour_of_day_profile get_hours series) ≡ 24)
        × (get_or (hour_of_day_profile get_hours series) hour missing
            ≡ hour_of_day hour (at_hour hour series))
  unfolding hour_of_day_profile
  hour_of_day_profile_hours series hour missing h =
      let start : List HourlySeries = replicate 24 [] in
      let (there, size) = by_hour_lem hour series start refl in
      (
        length-hours_of_day 0 _ ∙ size,
        get_or-hours_of_day 0 hour _ missing (omega (arith, size))
            ∙ ap (hour_of_day (0 + hour)) (
                there
                ∙ ap (λ (points : HourlySeries). points ++ at_hour hour series) (none_yet 24 hour))
            ∙ ap (λ (k : ℕ). hour_of_day k (at_hour hour series)) (omega arith),
      )
