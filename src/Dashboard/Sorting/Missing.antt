-- ===== src/Dashboard/Sorting/Missing.antt =====
-- Whatever the direction, the rows without a value come last, and no row is lost.
use air_quality_monitoring.Base.{
  ℕ, ◌≡◌, refl, ◌∙◌, Bool, true, false, List, [], ◌∷◌, arith, All, keep, length, by_cases,
}
use air_quality_monitoring.Base.Int.{ℤ, pos, ◌≤ℤ◌, ◌-ℤ◌, leb_ℤ, int_laws, -ℤ_parts}
use air_quality_monitoring.Base.Strings.{String}
use air_quality_monitoring.Dashboard.Sorting.{
  Value, missing, number, text, is_missing, directed, order, present_order, insert, sorted,
}

module _ (locale_compare : String → String → ℤ) (to_string : ℤ → String)
    (flips : (s t : String)
      → (locale_compare s t ≤ℤ pos 0 → pos 0 ≤ℤ locale_compare t s)
        × (pos 0 ≤ℤ locale_compare s t → locale_compare t s ≤ℤ pos 0))
    {A : Type 0} (get : A → Value) (descending : Bool) where
  -- How many of the rows have a property.
  abbrev pub count : (A → Bool) → List A → ℕ
  count test rows = length (keep test rows)

  -- A row with a value is never after one without.
  abbrev pub MissingLast : List A → Type 0
  MissingLast [] = Unit
  MissingLast (a ∷ rows) =
      All (λ b. is_missing (get a) ≡ true → is_missing (get b) ≡ true) rows × MissingLast rows

  -- Each row is in order with the next.
  abbrev pub InOrder : List A → Type 0
  InOrder [] = Unit
  InOrder (a ∷ []) = Unit
  InOrder (a ∷ b ∷ rows) =
      (order locale_compare to_string descending (get a) (get b) ≤ℤ pos 0) × InOrder (b ∷ rows)

  order_le :
      (x y : Value)
      → leb_ℤ (order locale_compare to_string descending x y) (pos 0) ≡ true
      → is_missing x ≡ true
      → is_missing y ≡ true
  unfolding order
  order_le x y e m = ground (arith, e, m)

  order_gt :
      (x y : Value)
      → leb_ℤ (order locale_compare to_string descending x y) (pos 0) ≡ false
      → is_missing y ≡ true
      → is_missing x ≡ true
  unfolding order
  order_gt x y e m = ground (arith, e, m)

  abbrev Flips : ℤ → ℤ → Type 0
  Flips p q = (p ≤ℤ pos 0 → pos 0 ≤ℤ q) × (pos 0 ≤ℤ p → q ≤ℤ pos 0)

  difference-Flips : (x y : ℤ) → Flips (x -ℤ y) (y -ℤ x)
  difference-Flips x y = (λ l. omega (int_laws, l), λ l. omega (int_laws, l))

  present_order-Flips :
      (x y : Value)
      → Flips
          (present_order locale_compare to_string x y)
          (present_order locale_compare to_string y x)
  present_order-Flips missing missing = flips _ _
  present_order-Flips missing (number y) = flips _ _
  present_order-Flips missing (text y) = flips _ _
  present_order-Flips (number x) missing = flips _ _
  present_order-Flips (number x) (number y) = difference-Flips x y
  present_order-Flips (number x) (text y) = flips _ _
  present_order-Flips (text x) missing = flips _ _
  present_order-Flips (text x) (number y) = flips _ _
  present_order-Flips (text x) (text y) = flips _ _

  directed_total :
      (d : Bool) (p q : ℤ)
      → Flips p q
      → leb_ℤ (directed d p) (pos 0) ≡ false
      → directed d q ≤ℤ pos 0
  directed_total true p q (f, g) e =
      let below : p ≤ℤ pos 0 = ground (arith, e, -ℤ_parts (pos 0) p) in
      let above = f below in omega (int_laws, above)
  directed_total false p q (f, g) e = let above : pos 0 ≤ℤ p = ground (arith, e) in g above

  -- Of two values one is in order before the other.
  order_total :
      (x y : Value)
      → leb_ℤ (order locale_compare to_string descending x y) (pos 0) ≡ false
      → order locale_compare to_string descending y x ≤ℤ pos 0
  unfolding order
  order_total x y e =
      by_cases (is_missing x)
        (λ mx.
          by_cases (is_missing y) (λ my. rw (mx, my) (ground arith))
            (λ my. rw (mx, my) (ground arith)))
        (λ mx.
          by_cases (is_missing y)
            (λ my. let never : true ≡ false = rw (mx, my) at e in absurd (ground (arith, never)))
            (λ my.
              rw (mx, my)
                (directed_total descending _ _ (present_order-Flips x y) (rw (mx, my) at e))))

  All-implies : (P Q : A → Type 0) (rows : List A) → ((a : A) → P a → Q a) → All P rows → All Q rows
  All-implies P Q [] f h = tt
  All-implies P Q (a ∷ rows) f (h, hs) = (f a h, All-implies P Q rows f hs)

  All-insert :
      (P : A → Type 0) (a : A) (rows : List A)
      → P a
      → All P rows
      → All P (insert locale_compare to_string get descending a rows)
  unfolding insert
  All-insert P a [] p h = (p, tt)
  All-insert P a (b ∷ rows) p (h, hs) =
      by_cases (leb_ℤ (order locale_compare to_string descending (get a) (get b)) (pos 0))
        (λ e. rw e (p, (h, hs))) (λ e. rw e (h, All-insert P a rows p hs))

  insert-MissingLast :
      (a : A) (rows : List A)
      → MissingLast rows
      → MissingLast (insert locale_compare to_string get descending a rows)
  unfolding insert
  insert-MissingLast a [] h = (tt, tt)
  insert-MissingLast a (b ∷ rows) (h, hs) =
      by_cases (leb_ℤ (order locale_compare to_string descending (get a) (get b)) (pos 0))
        (λ e.
          let ab = order_le (get a) (get b) e in
          rw e ((ab, All-implies _ _ rows (λ c f m. f (ab m)) h), (h, hs)))
        (λ e. rw e (
          All-insert (λ c. is_missing (get b) ≡ true → is_missing (get c) ≡ true) a rows
              (order_gt (get a) (get b) e) h,
          insert-MissingLast a rows hs,
        ))

  count-insert :
      (test : A → Bool) (a : A) (rows : List A)
      → count test (insert locale_compare to_string get descending a rows) ≡ count test (a ∷ rows)
  unfolding insert
  count-insert test a [] = refl
  count-insert test a (b ∷ rows) = ground (arith, count-insert test a rows)

  insert-InOrder :
      (a : A) (rows : List A)
      → InOrder rows
      → InOrder (insert locale_compare to_string get descending a rows)
  unfolding insert
  insert-InOrder a [] h = tt
  insert-InOrder a (b ∷ []) h =
      by_cases (leb_ℤ (order locale_compare to_string descending (get a) (get b)) (pos 0))
        (λ e. rw e (ground arith, tt)) (λ e. rw e (order_total (get a) (get b) e, tt))
  insert-InOrder a (b ∷ c ∷ rows) (h, hs) =
      by_cases (leb_ℤ (order locale_compare to_string descending (get a) (get b)) (pos 0))
        (λ e. rw e (ground arith, (h, hs)))
        (λ e.
          by_cases (leb_ℤ (order locale_compare to_string descending (get a) (get c)) (pos 0))
            (λ f. rw (e, f) (order_total (get a) (get b) e, (ground (arith, f), hs)))
            (λ f. rw (e, f) (h, rw f at (insert-InOrder a (c ∷ rows) hs))))

  -- Sorting by a column, in either direction, puts the rows without a value last and each other row in
  -- order with the next, and keeps the rows: as many of them as before have any property. The comparison
  -- of texts is taken to change its sign when its texts are swapped.
  pub sorted-MissingLast :
      (rows : List A)
      → let result = sorted locale_compare to_string get descending rows in
        MissingLast result
        × InOrder result
        × ((test : A → Bool) → count test result ≡ count test rows)
  unfolding sorted
  sorted-MissingLast [] = (tt, tt, λ test. refl)
  sorted-MissingLast (a ∷ rows) =
      let (last, order, same) = sorted-MissingLast rows in
      (
        insert-MissingLast a _ last,
        insert-InOrder a _ order,
        λ test.
            count-insert test a (sorted locale_compare to_string get descending rows)
            ∙ ground (arith, same test),
      )
