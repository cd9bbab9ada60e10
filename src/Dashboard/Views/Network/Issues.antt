-- ===== src/Dashboard/Views/Network/Issues.antt =====
-- The list of issues by an independent description: the silent sensors, then the low batteries, then the
-- weak signals.
use mathlib.Core.List.{append_assoc}
use air_quality_monitoring.Base.{
  ℕ, ◌≤◌, ◌<◌, ◌≡◌, ◌∙◌, refl, sym, ap, ◌⊎◌, inl, inr, subst, by_cases, Option, none, some, List,
  [], ◌∷◌, ◌++◌, arith, All, All-append,
}
use air_quality_monitoring.Base.Int.{ℤ, ltb_ℤ}
use air_quality_monitoring.Base.Strings.{String}
use air_quality_monitoring.Dashboard.Format.{battery_percent}
use air_quality_monitoring.Dashboard.Model.{
  Sensor, Reading, SensorStatus, online, offline, inactive,
}
use air_quality_monitoring.Dashboard.Stats.{SensorRow}
use air_quality_monitoring.Dashboard.Views.Network.{
  low_battery_percent, low_battery, weak_signal, weak_signal_dbm, Issue, issue, offline_text,
  battery_issue, signal_issue, battery_of, signal_of, row_issues, all_issues, insert_by_weight,
  sort_by_weight, issues,
}

module _ (sensor_name sensor_place : Sensor → String) where
  -- What a row adds to each part of the list.
  abbrev pub silence : SensorStatus → Sensor → Option Reading → List Issue
  silence offline sensor reading =
      issue sensor_name sensor_place sensor (offline_text reading) 0 ∷ []
  silence online sensor reading = []
  silence inactive sensor reading = []

  abbrev pub battery : SensorStatus → Sensor → Option Reading → List Issue
  battery online sensor reading = battery_issue sensor_name sensor_place sensor (battery_of reading)
  battery offline sensor reading = []
  battery inactive sensor reading = []

  abbrev pub signal : SensorStatus → Sensor → Option Reading → List Issue
  signal online sensor reading = signal_issue sensor_name sensor_place sensor (signal_of reading)
  signal offline sensor reading = []
  signal inactive sensor reading = []

  -- A part of the list, in the order of the rows.
  abbrev pub of_rows :
      (SensorStatus → Sensor → Option Reading → List Issue) → List SensorRow → List Issue
  of_rows part [] = []
  of_rows part (row ∷ rows) = part row.status row.sensor row.reading ++ of_rows part rows

  abbrev Weighs : ℕ → List Issue → Type 0
  Weighs w = All (λ i. i.weight ≡ w)

  insert_front :
      (i : Issue) (l : List Issue)
      → All (λ j. i.weight ≤ j.weight) l
      → insert_by_weight sensor_name sensor_place i l ≡ i ∷ l
  unfolding insert_by_weight
  insert_front i [] h = refl
  insert_front i (j ∷ l) (h, hs) = ground (arith, h)

  insert_past :
      (i : Issue) (before l : List Issue)
      → All (λ j. j.weight < i.weight) before
      → insert_by_weight sensor_name sensor_place i (before ++ l)
        ≡ before ++ insert_by_weight sensor_name sensor_place i l
  unfolding insert_by_weight
  insert_past i [] l h = refl
  insert_past i (j ∷ before) l (h, hs) = ground (arith, h, insert_past i before l hs)

  Weighs-lt : (v w : ℕ) (l : List Issue) → v < w → Weighs v l → All (λ j. j.weight < w) l
  Weighs-lt v w [] h k = tt
  Weighs-lt v w (j ∷ l) h (k, ks) = (omega arith, Weighs-lt v w l h ks)

  Weighs-le : (v w : ℕ) (l : List Issue) → w ≤ v → Weighs v l → All (λ j. w ≤ j.weight) l
  Weighs-le v w [] h k = tt
  Weighs-le v w (j ∷ l) h (k, ks) = (omega arith, Weighs-le v w l h ks)

  -- An issue goes before those of its own weight and after the lighter ones.
  insert_between :
      (w : ℕ) (i : Issue) (before l : List Issue)
      → i.weight ≡ w
      → All (λ j. j.weight < w) before
      → All (λ j. w ≤ j.weight) l
      → insert_by_weight sensor_name sensor_place i (before ++ l) ≡ before ++ i ∷ l
  insert_between w i before l e b a =
      insert_past i before l (subst (λ (n : ℕ). All (λ j. j.weight < n) before) (sym e) b)
      ∙ ap (◌++◌ before) (insert_front i l (subst (λ (n : ℕ). All (λ j. n ≤ j.weight) l) (sym e) a))

  -- None or one issue of a weight.
  abbrev AtMostOne : ℕ → List Issue → Type 0
  AtMostOne w l = (l ≡ []) ⊎ ((i : Issue) × (i.weight ≡ w) × (l ≡ i ∷ []))

  battery_issue-AtMostOne :
      (sensor : Sensor) (mv : Option ℤ)
      → AtMostOne 1 (battery_issue sensor_name sensor_place sensor mv)
  unfolding battery_issue
  battery_issue-AtMostOne sensor none = inl refl
  battery_issue-AtMostOne sensor (some mv) =
      by_cases (ltb_ℤ (battery_percent mv) low_battery_percent)
        (λ e. inr (
          issue sensor_name sensor_place sensor (low_battery (battery_percent mv)) 1,
          refl,
          rw e refl,
        ))
        (λ e. inl (rw e refl))

  signal_issue-AtMostOne :
      (sensor : Sensor) (dbm : Option ℤ)
      → AtMostOne 2 (signal_issue sensor_name sensor_place sensor dbm)
  unfolding signal_issue
  signal_issue-AtMostOne sensor none = inl refl
  signal_issue-AtMostOne sensor (some dbm) =
      by_cases (ltb_ℤ dbm weak_signal_dbm)
        (λ e. inr (issue sensor_name sensor_place sensor (weak_signal dbm) 2, refl, rw e refl))
        (λ e. inl (rw e refl))

  abbrev AreOrdered : List Issue → List Issue → List Issue → Type 0
  AreOrdered s l w = Weighs 0 s × Weighs 1 l × Weighs 2 w

  not_light : (l : List Issue) → All (λ j. 0 ≤ j.weight) l
  not_light [] = tt
  not_light (j ∷ l) = (omega arith, not_light l)

  sort-add :
      (k : ℕ) (x rest before after : List Issue)
      → AtMostOne k x
      → All (λ j. j.weight < k) before
      → All (λ j. k ≤ j.weight) after
      → sort_by_weight sensor_name sensor_place rest ≡ before ++ after
      → sort_by_weight sensor_name sensor_place (x ++ rest) ≡ before ++ (x ++ after)
  unfolding sort_by_weight
  sort-add k x rest before after (inl nothing) b a e = rw nothing e
  sort-add k x rest before after (inr (i, weight, one)) b a e =
      rw (one, e) (insert_between k i before after weight b a)

  Weighs-add : (k : ℕ) (x l : List Issue) → AtMostOne k x → Weighs k l → Weighs k (x ++ l)
  Weighs-add k x l (inl nothing) h = rw nothing h
  Weighs-add k x l (inr (i, weight, one)) h = rw one (weight, h)

  status_lem :
      (status : SensorStatus) (sensor : Sensor) (reading : Option Reading) (rest s l w : List Issue)
      → AreOrdered s l w
      → sort_by_weight sensor_name sensor_place rest ≡ s ++ l ++ w
      → (sort_by_weight sensor_name sensor_place
            (row_issues sensor_name sensor_place status sensor reading ++ rest)
          ≡ (silence status sensor reading ++ s)
            ++ (battery status sensor reading ++ l)
            ++ (signal status sensor reading ++ w))
        × AreOrdered
            (silence status sensor reading ++ s)
            (battery status sensor reading ++ l)
            (signal status sensor reading ++ w)
  unfolding row_issues
  status_lem inactive sensor reading rest s l w h e = (e, h)
  status_lem offline sensor reading rest s l w (hs, hl, hw) e =
      let i = issue sensor_name sensor_place sensor (offline_text reading) 0 in
      (
        sort-add 0 (i ∷ []) rest [] (s ++ l ++ w) (inr (i, refl, refl)) tt (not_light (s ++ l ++ w))
            e,
        ((refl, hs), hl, hw),
      )
  status_lem online sensor reading rest s l w (hs, hl, hw) e =
      let b = battery_issue sensor_name sensor_place sensor (battery_of reading) in
      let g = signal_issue sensor_name sensor_place sensor (signal_of reading) in
      let one = battery_issue-AtMostOne sensor (battery_of reading) in
      let other = signal_issue-AtMostOne sensor (signal_of reading) in
      let heavy = Weighs-le 1 1 l (omega arith) hl in
      let weak =
        sort-add 2 g rest (s ++ l) w other
          (All-append _ s l (Weighs-lt 0 2 s (omega arith) hs) (Weighs-lt 1 2 l (omega arith) hl))
          (Weighs-le 2 2 w (omega arith) hw) e
        ∙ append_assoc s l (g ++ w) in
      let all =
        sort-add 1 b (g ++ rest) s (l ++ (g ++ w)) one (Weighs-lt 0 1 s (omega arith) hs)
          (All-append _ l (g ++ w) heavy
            (Weighs-le 2 1 (g ++ w) (omega arith) (Weighs-add 2 g w other hw)))
          weak in
      (
        ap (sort_by_weight sensor_name sensor_place) (append_assoc b g rest)
            ∙ all
            ∙ ap (◌++◌ s) (sym (append_assoc b l (g ++ w)))
            ∙ sym (append_assoc s (b ++ l) (g ++ w)),
        (hs, Weighs-add 1 b l one hl, Weighs-add 2 g w other hw),
      )

  sorted_lem :
      (rows : List SensorRow)
      → (sort_by_weight sensor_name sensor_place (all_issues sensor_name sensor_place rows)
          ≡ of_rows silence rows ++ of_rows battery rows ++ of_rows signal rows)
        × AreOrdered (of_rows silence rows) (of_rows battery rows) (of_rows signal rows)
  unfolding all_issues
  sorted_lem [] = (unfold sort_by_weight in refl, (tt, tt, tt))
  sorted_lem (row ∷ rows) =
      let (e, h) = sorted_lem rows in
      status_lem row.status row.sensor row.reading (all_issues sensor_name sensor_place rows) _ _ _
        h e

  -- The list of issues is: every sensor that is not retired and silent, then every low battery, then
  -- every weak signal of the sensors that are online, each part in the order of the rows.
  pub issues_in_parts :
      (rows : List SensorRow)
      → issues sensor_name sensor_place rows
        ≡ of_rows silence rows ++ of_rows battery rows ++ of_rows signal rows
  unfolding issues
  issues_in_parts rows = (sorted_lem rows).0
