-- ===== src/Dashboard/Stats/MapLimit/Completion.antt =====
-- What the pool has done when it ends, and how many tasks it runs at a time.
use air_quality_monitoring.Base.{
  ℕ, zero, suc, ◌+◌, ◌≤◌, ◌<◌, ◌≡◌, ◌⊎◌, inl, inr, refl, sym, ap, ◌∙◌, subst, Bool, true, false,
  ◌||◌, none, some, List, [], ◌∷◌, ◌++◌, map, min, arith, length, get_or, set, replicate, any, ◌==◌,
  ==_iff, length-map, length-append, by_cases, ltb, ltb→lt,
}
use air_quality_monitoring.Dashboard.Stats.MapLimit.{
  Pool, task_of, initial, take_item, leave, finish, Step, taken, left, finished, Reachable, start,
  next,
}

module _ {ℓ} {A : Type ℓ} where
  get_or-set_own :
      (xs ys : List A) (i : ℕ) (d : A)
      → length xs ≡ length ys
      → get_or (set xs i (get_or ys i d)) i d ≡ get_or ys i d
  get_or-set_own [] [] i d l = refl
  get_or-set_own [] (y ∷ ys) i d l = absurd (omega arith)
  get_or-set_own (x ∷ xs) [] i d l = absurd (omega arith)
  get_or-set_own (x ∷ xs) (y ∷ ys) zero d l = refl
  get_or-set_own (x ∷ xs) (y ∷ ys) (suc i) d l = get_or-set_own xs ys i d (omega arith)

  get_or-set_other :
      (xs : List A) (i j : ℕ) (v d : A) → (i == j) ≡ false → get_or (set xs i v) j d ≡ get_or xs j d
  get_or-set_other [] i j v d n = refl
  get_or-set_other (x ∷ xs) zero zero v d n = absurd (ground (arith, ==_iff zero zero))
  get_or-set_other (x ∷ xs) zero (suc j) v d n = refl
  get_or-set_other (x ∷ xs) (suc i) zero v d n = refl
  get_or-set_other (x ∷ xs) (suc i) (suc j) v d n =
      get_or-set_other xs i j v d (ground (arith, ==_iff i j, ==_iff (suc i) (suc j)))

  length-set : (xs : List A) (i : ℕ) (v : A) → length (set xs i v) ≡ length xs
  length-set [] i v = refl
  length-set (x ∷ xs) zero v = refl
  length-set (x ∷ xs) (suc i) v = ap suc (length-set xs i v)

  length-replicate : (n : ℕ) (v : A) → length (replicate n v) ≡ n
  length-replicate zero v = refl
  length-replicate (suc n) v = ap suc (length-replicate n v)

  -- Two lists of one length with the same entries are equal.
  eq_of_entries :
      (xs ys : List A) (d : A)
      → length xs ≡ length ys
      → ((i : ℕ) → i < length xs → get_or xs i d ≡ get_or ys i d)
      → xs ≡ ys
  eq_of_entries [] [] d l h = refl
  eq_of_entries [] (y ∷ ys) d l h = absurd (omega arith)
  eq_of_entries (x ∷ xs) [] d l h = absurd (omega arith)
  eq_of_entries (x ∷ xs) (y ∷ ys) d l h = λ i.
      h zero (omega arith) i
      ∷ eq_of_entries xs ys d (omega arith) (λ j b. h (suc j) (omega arith)) i

first_running :
    (running : List ℕ) → 0 < length running → (i : ℕ) × (after : List ℕ) × (running ≡ i ∷ after)
first_running [] b = absurd (omega arith)
first_running (i ∷ after) b = (i, after, refl)

any-append : (p : ℕ → Bool) (xs ys : List ℕ) → any p (xs ++ ys) ≡ (any p xs || any p ys)
any-append p [] ys = refl
any-append p (x ∷ xs) ys = ground (arith, any-append p xs ys)

module _ {ℓ κ} {T : Type ℓ} {R : Type κ} (items : List T) (limit : ℕ) (task : T → R) where
  -- Every worker is accounted for, every index below the next one is being worked on or has its result,
  -- and a worker has left only when no item was left.
  pub record IsPool (p : Pool R) : Type κ where
    pub workers : p.ready + length p.running + p.ended ≡ min limit (length items)
    pub size : length p.results ≡ length items
    pub begun :
        (i : ℕ)
        → i < p.next_index
        → (any (λ j. j == i) p.running ≡ true)
          ⊎ (get_or p.results i none ≡ task_of items limit task i)
    pub exhausted : 0 < p.ended → length items ≤ p.next_index

  initial-IsPool : IsPool (initial items limit task)
  unfolding initial
  initial-IsPool = record {
    workers = omega arith;
    size = length-replicate (length items) none;
    begun = λ i b. absurd (omega arith);
    exhausted = λ e. absurd (omega arith);
  }

  take_item-IsPool :
      (p : Pool R)
      → 0 < p.ready
      → p.next_index < length items
      → IsPool p
      → IsPool (take_item items limit task p)
  unfolding take_item
  take_item-IsPool p r b w = record {
    workers = omega (arith, w.workers);
    size = w.size;
    begun = λ i l.
        by_cases (p.next_index == i) (λ e. inl (ground (arith, e)))
          (λ e.
            let below : i < p.next_index = ground (arith, e, ==_iff p.next_index i) in
            elim (w.begun i below) [
              | inl running ↦ inl (ground (arith, running))
              | inr done ↦ inr done
            ]);
    exhausted = λ e. absurd (omega (arith, w.exhausted e));
  }

  leave-IsPool :
      (p : Pool R)
      → 0 < p.ready
      → length items ≤ p.next_index
      → IsPool p
      → IsPool (leave items limit task p)
  unfolding leave
  leave-IsPool p r b w = record {
    workers = omega (arith, w.workers);
    size = w.size;
    begun = w.begun;
    exhausted = λ e. b;
  }

  finish-IsPool :
      (p : Pool R) (before : List ℕ) (i : ℕ) (after : List ℕ)
      → p.running ≡ before ++ i ∷ after
      → IsPool p
      → IsPool (finish items limit task before i after p)
  unfolding finish task_of
  finish-IsPool p before i after e w =
      let all = map (λ item. some (task item)) items in
      let same_size : length p.results ≡ length all =
        w.size ∙ sym (length-map items (λ item. some (task item))) in
      let count : length p.running ≡ length before + suc (length after) =
        ap length e ∙ length-append before (i ∷ after) in
      record {
        workers = omega (arith, w.workers, count, length-append before after);
        size = length-set p.results i (get_or all i none) ∙ w.size;
        begun = λ j l.
            by_cases (i == j)
              (λ t.
                let at_j : i ≡ j = (==_iff i j).0 t in
                inr (
                  subst
                    (λ k. get_or (set p.results i (get_or all i none)) k none ≡ get_or all k none)
                    at_j (get_or-set_own p.results all i none same_size)))
              (λ f. elim (w.begun j l) [
                | inl running ↦
                    let split : any (λ k. k == j) (before ++ i ∷ after) ≡ true =
                      ap (any (λ k. k == j)) (sym e) ∙ running in
                    inl (
                      ground (
                        arith,
                        split,
                        f,
                        any-append (λ k. k == j) before (i ∷ after),
                        any-append (λ k. k == j) before after,
                      ))
                | inr done ↦ inr (get_or-set_other p.results i j (get_or all i none) none f ∙ done)
              ]);
        exhausted = w.exhausted;
      }

  Reachable-IsPool : (p : Pool R) → Reachable items limit task p → IsPool p
  Reachable-IsPool _ start = initial-IsPool
  Reachable-IsPool _ (next p q before step) = Step-IsPool p q step (Reachable-IsPool p before)
    where
      Step-IsPool : (p q : Pool R) → Step items limit task p q → IsPool p → IsPool q
      Step-IsPool _ _ (taken p r b) w = take_item-IsPool p r b w
      Step-IsPool _ _ (left p r b) w = leave-IsPool p r b w
      Step-IsPool _ _ (finished p before i after e) w = finish-IsPool p before i after e w

  -- However the tasks interleave, no more than `limit` of them run at a time.
  pub running_bounded : (p : Pool R) → Reachable items limit task p → length p.running ≤ limit
  running_bounded p r = let w = Reachable-IsPool p r in omega (arith, w.workers)

  -- When every worker has left, and at least one was allowed, the results are the task's of the items
  -- in the items' order, in whatever order the tasks ended.
  pub results_of_finished :
      (p : Pool R)
      → 0 < limit
      → Reachable items limit task p
      → p.ready ≡ 0
      → p.running ≡ []
      → p.results ≡ map (λ item. some (task item)) items
  unfolding task_of
  results_of_finished p l r idle none_runs =
      let w = Reachable-IsPool p r in
      let all = map (λ item. some (task item)) items in
      let counted : length p.running ≡ 0 = ap length none_runs in
      eq_of_entries p.results all none (w.size ∙ sym (length-map items (λ item. some (task item))))
        (λ i b.
          let exists : 0 < length items = omega (arith, w.size) in
          let left_one : 0 < p.ended = omega (arith, w.workers) in
          let over = w.exhausted left_one in
          elim (w.begun i (omega (arith, w.size))) [
            | inl running ↦
                absurd (ground (arith, ap (any (λ j. j == i)) (sym none_runs) ∙ running))
            | inr done ↦ done
          ])

  -- A pool that has not ended has a step, so no interleaving is stuck before the results are there.
  pub Reachable-progress :
      (p : Pool R)
      → Reachable items limit task p
      → (0 < p.ready) ⊎ (0 < length p.running)
      → (q : Pool R) × Step items limit task p q
  Reachable-progress p r (inl ready) =
      by_cases (ltb p.next_index (length items))
        (λ l. (take_item items limit task p, taken p ready (ltb→lt p.next_index (length items) l)))
        (λ l. (leave items limit task p, left p ready (ground (arith, l))))
  Reachable-progress p r (inr busy) =
      let (i, after, e) = first_running p.running busy in
      (finish items limit task [] i after p, finished p [] i after e)
