-- ===== src/Dashboard/Sorting/Examples.antt =====
-- A column of three rows, one of which has no value, in descending order.
use air_quality_monitoring.Base.{ℕ, ◌≡◌, refl, Bool, true, List, [], ◌∷◌, Option, none, some}
use air_quality_monitoring.Base.Int.{ℤ, pos, ◌≤ℤ◌, ◌-ℤ◌}
use air_quality_monitoring.Base.Strings.{String}
use air_quality_monitoring.Dashboard.Sorting.{Value, missing, number, sorted, insert, order}
use air_quality_monitoring.Dashboard.Sorting.Missing.{
  MissingLast, InOrder, count, sorted-MissingLast,
}

abbrev alike : String → String → ℤ
alike s t = pos 0

abbrev column : Option ℕ → Value
column none = missing
column (some n) = number (pos n)

abbrev rows : List (Option ℕ)
rows = some 40 ∷ none ∷ some 90 ∷ []

alike_flips :
    (s t : String)
    → (alike s t ≤ℤ pos 0 → pos 0 ≤ℤ alike t s) × (pos 0 ≤ℤ alike s t → alike t s ≤ℤ pos 0)
alike_flips s t = (λ h. h, λ h. h)

sorted-MissingLast_example :
    let result = sorted alike (λ x. "") column true rows in
    MissingLast alike (λ x. "") alike_flips column true result
    × InOrder alike (λ x. "") alike_flips column true result
    × ((test : Option ℕ → Bool)
        → count alike (λ x. "") alike_flips column true test result
          ≡ count alike (λ x. "") alike_flips column true test rows)
sorted-MissingLast_example = sorted-MissingLast alike (λ x. "") alike_flips column true rows

best_first : sorted alike (λ x. "") column true rows ≡ some 90 ∷ some 40 ∷ none ∷ []
unfolding sorted insert order ◌-ℤ◌
best_first = refl
