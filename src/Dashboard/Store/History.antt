-- ===== src/Dashboard/Store/History.antt =====
-- The history of a sensor on screen: in order of time, never ahead of the reading that is shown, and
-- cut to its window by each live reading.
use air_quality_monitoring.Base.{
  ℕ, ◌+◌, ◌*◌, ◌≤◌, ◌<◌, ◌≡◌, refl, sym, subst, ap, ◌∙◌, ◌⊎◌, inl, inr, Option-cases, Bool, true,
  false, none, some, List, [], ◌∷◌, ◌++◌, arith, All, All-append, if◌then◌else◌, by_cases,
}
use air_quality_monitoring.Base.Maps.{put, get, get-put}
use air_quality_monitoring.Base.Strings.{String, str_eq, eq_iff, eq_refl}
use air_quality_monitoring.Dashboard.Model.{Reading}
use air_quality_monitoring.Dashboard.Store.Window.{
  Sorted, All-mono, append-Sorted, All-prune, prune-Sorted, prune_window,
}
use air_quality_monitoring.Dashboard.Store.{
  AirState, RawHistory, is_late, notice_unknown, apply_reading, prune, extend_history, hour,
}

-- A history that is in order and not ahead of the time `t`.
pub record IsTimeline (rs : List Reading) (t : ℕ) : Type 0 where
  pub sorted : Sorted rs
  pub reached : All (λ r. r.time ≤ t) rs

-- Every loaded history has a shown reading, and is in order and not ahead of it.
abbrev pub HasTimelines : AirState → Type 0
HasTimelines s =
    (id : String) (h : RawHistory)
    → get id s.raw_history ≡ some h
    → (c : Reading) × (get id s.latest ≡ some c) × IsTimeline h.readings c.time

-- A reading that is newer than a history leaves it in order, cut to the window, and up to itself.
push-IsTimeline :
    (r : Reading) (span : ℕ) (rs : List Reading)
    → Sorted rs
    → All (λ q. q.time < r.time) rs
    → IsTimeline (prune r.time span (rs ++ r ∷ [])) r.time
push-IsTimeline r span rs s h = record {
  sorted = prune-Sorted r.time span (rs ++ r ∷ []) (append-Sorted r rs s h);
  reached =
      All-prune (λ q. q.time ≤ r.time) r.time span (rs ++ r ∷ [])
        (All-append (λ q. q.time ≤ r.time) rs (r ∷ [])
          (All-mono (λ q. q.time < r.time) (λ q. q.time ≤ r.time) rs (λ q l. omega arith) h)
          (omega arith, tt));
}

-- The two things a reading may do.
pub apply_reading-cases :
    (server_now : ℕ) (r : Reading) (live : Bool) (s : AirState)
    → let s' = apply_reading server_now r live s in
      (s' ≡ s)
      ⊎ ((is_late (get r.sensor_id s.latest) r ≡ false)
          × (s'.latest ≡ put r.sensor_id r s.latest)
          × (s'.raw_history ≡ (if live then extend_history r s.raw_history else s.raw_history)))
unfolding apply_reading notice_unknown
apply_reading-cases server_now r live s =
    by_cases (is_late (get r.sensor_id s.latest) r) (λ e. inl (rw e refl))
      (λ e. inr (e, ground arith, ground arith))

-- A reading that is not late does not lower the time that a sensor shows.
shown_after :
    (r : Reading) (l : List (String × Reading)) (id : String) (c : Reading)
    → is_late (get r.sensor_id l) r ≡ false
    → get id l ≡ some c
    → (c' : Reading) × (get id (put r.sensor_id r l) ≡ some c') × (c.time ≤ c'.time)
shown_after r l id c e g =
    by_cases (str_eq r.sensor_id id)
      (λ t. (
        r,
        ground (arith, get-put r.sensor_id id r l),
        (let same : r.sensor_id ≡ id = (eq_iff r.sensor_id id).0 t in
            let there : get r.sensor_id l ≡ some c = ap (λ k. get k l) same ∙ g in ground arith),
      ))
      (λ f. (c, ground (arith, get-put r.sensor_id id r l), omega arith))

abbrev pub extended : Reading → RawHistory → RawHistory
extended r old = record old { readings = prune r.time (old.hours * hour) (old.readings ++ r ∷ []) }

extend_history-none :
    (r : Reading) (hs : List (String × RawHistory))
    → get r.sensor_id hs ≡ none
    → extend_history r hs ≡ hs
unfolding extend_history
extend_history-none r hs e = rw (e, extend_history) refl

extend_history-some :
    (r : Reading) (hs : List (String × RawHistory)) (old : RawHistory)
    → get r.sensor_id hs ≡ some old
    → extend_history r hs ≡ put r.sensor_id (extended r old) hs
unfolding extend_history
extend_history-some r hs old e = rw (e, extend_history) refl

-- A timeline whose sensor comes to show a reading that is as new.
grown-IsTimeline : (rs : List Reading) (t u : ℕ) → t ≤ u → IsTimeline rs t → IsTimeline rs u
grown-IsTimeline rs t u le w = record {
  sorted = w.sorted;
  reached = All-mono (λ r. r.time ≤ t) (λ r. r.time ≤ u) rs (λ r l. omega arith) w.reached;
}

-- What a loaded history is after the push.
get-extend_history :
    (r : Reading) (hs : List (String × RawHistory)) (id : String) (h : RawHistory)
    → get id (extend_history r hs) ≡ some h
    → (get id hs ≡ some h)
      ⊎ ((r.sensor_id ≡ id)
          × ((old : RawHistory) × (get id hs ≡ some old)
              × (h.readings ≡ prune r.time (old.hours * hour) (old.readings ++ r ∷ []))))
get-extend_history r hs id h e = elim (Option-cases (get r.sensor_id hs)) [
  | inl n ↦ inl (ap (get id) (sym (extend_history-none r hs n)) ∙ e)
  | inr (old, g) ↦
      let e' : get id (put r.sensor_id (extended r old) hs) ≡ some h =
        ap (get id) (sym (extend_history-some r hs old g)) ∙ e in
      let p = get-put r.sensor_id id (extended r old) hs in
      by_cases (str_eq r.sensor_id id)
        (λ t.
          let same = (eq_iff r.sensor_id id).0 t in
          let now : some (extended r old) ≡ some h = ground (arith, p, e') in
          let there : get id hs ≡ some old = ap (λ k. get k hs) (sym same) ∙ g in
          inr (same, (old, there, ground (arith, now))))
        (λ f. inl (ground (arith, p, e')))
]

get-raw_history :
    (live : Bool) (r : Reading) (hs : List (String × RawHistory)) (id : String) (h : RawHistory)
    → get id (if live then extend_history r hs else hs) ≡ some h
    → (get id hs ≡ some h)
      ⊎ ((r.sensor_id ≡ id)
          × ((old : RawHistory) × (get id hs ≡ some old)
              × (h.readings ≡ prune r.time (old.hours * hour) (old.readings ++ r ∷ []))))
get-raw_history true r hs id h e = get-extend_history r hs id h e
get-raw_history false r hs id h e = inl e

-- A history that is not pushed to.
kept-IsTimeline :
    (r : Reading) (s : AirState) (id : String) (h : RawHistory)
    → HasTimelines s
    → is_late (get r.sensor_id s.latest) r ≡ false
    → get id s.raw_history ≡ some h
    → (c : Reading) × (get id (put r.sensor_id r s.latest) ≡ some c) × IsTimeline h.readings c.time
kept-IsTimeline r s id h w late kept =
    let (c, g, timeline) = w id h kept in
    let (c', g', le) = shown_after r s.latest id c late g in
    (c', g', grown-IsTimeline h.readings c.time c'.time le timeline)

-- The history that is pushed to.
pushed-IsTimeline :
    (r : Reading) (s : AirState) (id : String) (h old : RawHistory)
    → HasTimelines s
    → is_late (get r.sensor_id s.latest) r ≡ false
    → r.sensor_id ≡ id
    → get id s.raw_history ≡ some old
    → h.readings ≡ prune r.time (old.hours * hour) (old.readings ++ r ∷ [])
    → (c : Reading) × (get id (put r.sensor_id r s.latest) ≡ some c) × IsTimeline h.readings c.time
pushed-IsTimeline r s id h old w late same there eq =
    let (c, g, timeline) = w id old there in
    let shown : get r.sensor_id s.latest ≡ some c = ap (λ k. get k s.latest) same ∙ g in
    let newer : c.time < r.time = ground arith in
    let before =
      All-mono (λ q. q.time ≤ c.time) (λ q. q.time < r.time) old.readings (λ q l. omega arith)
        timeline.reached in
    (
      r,
      ground (arith, get-put r.sensor_id id r s.latest, eq_iff r.sensor_id id),
      subst (λ rs. IsTimeline rs r.time) (sym eq)
          (push-IsTimeline r (old.hours * hour) old.readings timeline.sorted before),
    )

-- A live reading, and one from the bulk endpoint, keeps every loaded history in order and not ahead of
-- the reading that its sensor shows.
pub apply_reading-HasTimelines :
    (server_now : ℕ) (r : Reading) (live : Bool) (s : AirState)
    → HasTimelines s
    → HasTimelines (apply_reading server_now r live s)
apply_reading-HasTimelines server_now r live s w = elim (apply_reading-cases server_now r live s) [
  | inl e ↦ subst HasTimelines (sym e) w
  | inr (late, l, hs) ↦ λ id h e.
      subst (λ m. (c : Reading) × (get id m ≡ some c) × IsTimeline h.readings c.time) (sym l)
        (elim (get-raw_history live r s.raw_history id h (ap (get id) (sym hs) ∙ e)) [
          | inl kept ↦ kept-IsTimeline r s id h w late kept
          | inr (same, (old, there, eq)) ↦ pushed-IsTimeline r s id h old w late same there eq
        ])
]

raw_history-live :
    (server_now : ℕ) (r : Reading) (s : AirState) (old : RawHistory)
    → is_late (get r.sensor_id s.latest) r ≡ false
    → get r.sensor_id s.raw_history ≡ some old
    → (apply_reading server_now r true s).raw_history
      ≡ put r.sensor_id (extended r old) s.raw_history
unfolding apply_reading notice_unknown
raw_history-live server_now r s old late there =
    ground (arith, extend_history-some r s.raw_history old there)

-- A live reading that is newer than the shown one leaves its sensor's loaded history within the window
-- of hours that it was loaded for, counted back from the reading.
pub apply_reading_window :
    (server_now : ℕ) (r : Reading) (s : AirState) (old : RawHistory)
    → HasTimelines s
    → is_late (get r.sensor_id s.latest) r ≡ false
    → get r.sensor_id s.raw_history ≡ some old
    → (h : RawHistory) × (get r.sensor_id (apply_reading server_now r true s).raw_history ≡ some h)
      × (h.hours ≡ old.hours)
      × All (λ q. r.time ≤ q.time + h.hours * hour) h.readings
apply_reading_window server_now r s old w late there =
    let (c, g, timeline) = w r.sensor_id old there in
    let newer : c.time < r.time = ground arith in
    let before =
      All-mono (λ q. q.time ≤ c.time) (λ q. q.time < r.time) old.readings (λ q l. omega arith)
        timeline.reached in
    (
      extended r old,
      ap (get r.sensor_id) (raw_history-live server_now r s old late there)
          ∙ ground (
            arith,
            get-put r.sensor_id r.sensor_id (extended r old) s.raw_history,
            eq_refl r.sensor_id,
          ),
      refl,
      prune_window r.time (old.hours * hour) (old.readings ++ r ∷ [])
          (append-Sorted r old.readings timeline.sorted before),
    )
