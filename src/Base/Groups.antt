-- ===== src/Base/Groups.antt =====
-- Items under number keys, in the order of the keys: what `GROUP BY key ORDER BY key` answers, and a
-- `Map` of lists whose entries are sorted by their keys.
use air_quality_monitoring.Base.{
  ℕ, ◌<◌, ◌≡◌, ◌∙◌, refl, List, [], ◌∷◌, ◌++◌, arith, length, keep, ltb, ◌==◌, if◌then◌else◌,
  by_cases,
}
use mathlib.Core.List.{append-nil, append_assoc}

module _ {ℓ} {A : Type ℓ} where
  unfoldable pub add_under : ℕ → A → List (ℕ × List A) → List (ℕ × List A)
  add_under k a [] = (k, a ∷ []) ∷ []
  add_under k a ((j, ys) ∷ gs) =
      let rest = add_under k a gs in
      if k == j
      then (j, ys ++ a ∷ []) ∷ gs
      else if ltb k j
      then (k, a ∷ []) ∷ (j, ys) ∷ gs
      else (j, ys) ∷ rest

  unfoldable pub group_under : (A → ℕ) → List A → List (ℕ × List A) → List (ℕ × List A)
  group_under key [] gs = gs
  group_under key (a ∷ ys) gs = group_under key ys (add_under (key a) a gs)

  abbrev pub grouped : (A → ℕ) → List A → List (ℕ × List A)
  grouped key ys = group_under key ys []

  -- The items under a key, none where the key is not there.
  unfoldable pub under : ℕ → List (ℕ × List A) → List A
  under k [] = []
  under k ((j, ys) ∷ gs) = let rest = under k gs in if k == j then ys else rest

  abbrev pub Above : ℕ → List (ℕ × List A) → Type 0
  Above k [] = Unit
  Above k ((j, ys) ∷ gs) = (k < j) × Above k gs

  -- The keys rise strictly, and there are items under each.
  abbrev pub IsAscending : List (ℕ × List A) → Type 0
  IsAscending [] = Unit
  IsAscending ((j, ys) ∷ gs) = (0 < length ys) × Above j gs × IsAscending gs

  Above-trans : (i j : ℕ) (gs : List (ℕ × List A)) → i < j → Above j gs → Above i gs
  Above-trans i j [] l h = tt
  Above-trans i j ((k, ys) ∷ gs) l (h, hs) = (omega arith, Above-trans i j gs l hs)

  under-Above : (k : ℕ) (gs : List (ℕ × List A)) → Above k gs → under k gs ≡ []
  unfolding under
  under-Above k [] h = refl
  under-Above k ((j, ys) ∷ gs) (h, hs) = ground (arith, under-Above k gs hs)

  add_under-Above :
      (i k : ℕ) (a : A) (gs : List (ℕ × List A)) → i < k → Above i gs → Above i (add_under k a gs)
  unfolding add_under
  add_under-Above i k a [] l h = (l, tt)
  add_under-Above i k a ((j, ys) ∷ gs) l (h, hs) =
      by_cases (k == j) (λ e. rw e (h, hs))
        (λ e.
          by_cases (ltb k j) (λ f. rw (e, f) (l, (h, hs)))
            (λ f. rw (e, f) (h, add_under-Above i k a gs l hs)))

  length_snoc : (ys : List A) (a : A) → 0 < length (ys ++ a ∷ [])
  length_snoc [] a = omega arith
  length_snoc (y ∷ ys) a = omega arith

  add_under-IsAscending :
      (k : ℕ) (a : A) (gs : List (ℕ × List A)) → IsAscending gs → IsAscending (add_under k a gs)
  unfolding add_under
  add_under-IsAscending k a [] h = (omega arith, tt, tt)
  add_under-IsAscending k a ((j, ys) ∷ gs) (n, h, hs) =
      by_cases (k == j) (λ e. rw e (length_snoc ys a, h, hs))
        (λ e.
          by_cases (ltb k j)
            (λ f.
              let l : k < j = ground (arith, f) in
              rw (e, f) (omega arith, (l, Above-trans k j gs l h), (n, h, hs)))
            (λ f.
              rw (e, f)
                (
                  n,
                  add_under-Above j k a gs (ground (arith, e, f)) h,
                  add_under-IsAscending k a gs hs,
                )))

  under-add_under :
      (i k : ℕ) (a : A) (gs : List (ℕ × List A))
      → IsAscending gs
      → under i (add_under k a gs) ≡ under i gs ++ (if i == k then a ∷ [] else [])
  unfolding add_under under
  under-add_under i k a [] h = refl
  under-add_under i k a ((j, ys) ∷ gs) (n, h, hs) =
      by_cases (k == j) (λ e. rw e (ground (arith, append-nil ys, append-nil (under i gs))))
        (λ e.
          by_cases (ltb k j)
            (λ f.
              let none : under k gs ≡ [] =
                under-Above k gs (Above-trans k j gs (ground (arith, f)) h) in
              rw (e, f) (ground (arith, none, e, f, append-nil ys, append-nil (under i gs))))
            (λ f. rw (e, f) (ground (arith, e, append-nil ys, under-add_under i k a gs hs))))

  pub group_under-IsAscending :
      (key : A → ℕ) (ys : List A) (gs : List (ℕ × List A))
      → IsAscending gs
      → IsAscending (group_under key ys gs)
  unfolding group_under
  group_under-IsAscending key [] gs h = h
  group_under-IsAscending key (a ∷ ys) gs h =
      group_under-IsAscending key ys (add_under (key a) a gs) (add_under-IsAscending (key a) a gs h)

  under-group_under :
      (i : ℕ) (key : A → ℕ) (ys : List A) (gs : List (ℕ × List A))
      → IsAscending gs
      → under i (group_under key ys gs) ≡ under i gs ++ keep (λ a. i == key a) ys
  unfolding group_under
  under-group_under i key [] gs h = rw append-nil refl
  under-group_under i key (a ∷ ys) gs h =
      let ih =
        under-group_under i key ys (add_under (key a) a gs)
          (add_under-IsAscending (key a) a gs h) in
      by_cases (i == key a)
        (λ e. ih ∙ rw (under-add_under i (key a) a gs h, e) (append_assoc (under i gs) (a ∷ []) _))
        (λ e. ih ∙ rw (under-add_under i (key a) a gs h, e) (rw (append-nil (under i gs)) refl))

  -- The keys rise strictly, and under each are exactly the items that have it, in their order.
  pub grouped-under :
      (key : A → ℕ) (ys : List A)
      → IsAscending (grouped key ys)
        × ((k : ℕ) → under k (grouped key ys) ≡ keep (λ a. k == key a) ys)
  grouped-under key ys =
      (group_under-IsAscending key ys [] tt, λ k. unfold under in under-group_under k key ys [] tt)
