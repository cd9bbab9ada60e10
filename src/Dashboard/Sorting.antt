-- ===== src/Dashboard/Sorting.antt =====
-- apps/dashboard/src/composables/useSort.ts: rows sorted by a column, and the state of the sort. The
-- comparison of texts, localeCompare, is a parameter.
pub mod Missing
mod Examples
use air_quality_monitoring.Base.{
  ℕ, Bool, true, false, not, Option, none, some, List, [], ◌∷◌, if◌then◌else◌,
}
use air_quality_monitoring.Base.Int.{ℤ, pos, negsuc, ◌-ℤ◌, leb_ℤ}
use air_quality_monitoring.Base.Strings.{String, str_eq}

-- What an accessor gives: nothing, a number, or a text.
pub data Value : Type 0 where
  missing : Value
  number : ℤ → Value
  text : String → Value

abbrev pub is_missing : Value → Bool
is_missing missing = true
is_missing (number _) = false
is_missing (text _) = false

-- `x * direction`
abbrev pub directed : Bool → ℤ → ℤ
directed descending x = if descending then pos 0 -ℤ x else x

pub data AriaSort : Type 0 where
  aria_ascending aria_descending aria_none : AriaSort

pub record SortState : Type 0 where
  pub key : String
  pub descending : Bool

-- Numbers and texts that are compared with each other are compared as texts.
module _ (locale_compare : String → String → ℤ) (to_string : ℤ → String) where
  abbrev pub as_text : Value → String
  as_text missing = ""
  as_text (number x) = to_string x
  as_text (text x) = x

  abbrev pub present_order : Value → Value → ℤ
  present_order (number x) (number y) = x -ℤ y
  present_order x y = locale_compare (as_text x) (as_text y)

  -- The comparison that is given to `sort`.
  unfoldable pub order : Bool → Value → Value → ℤ
  order descending x y =
      if is_missing x
      then (if is_missing y then pos 0 else pos 1)
      else if is_missing y
      then negsuc 0
      else directed descending (present_order x y)

  module _ {ℓ} {A : Type ℓ} (get : A → Value) (descending : Bool) where
    -- `sort`, which is stable.
    unfoldable pub insert : A → List A → List A
    insert a [] = a ∷ []
    insert a (b ∷ bs) =
        let rest = insert a bs in
        if leb_ℤ (order descending (get a) (get b)) (pos 0) then a ∷ b ∷ bs else b ∷ rest

    unfoldable pub sorted : List A → List A
    unfolding insert
    sorted [] = []
    sorted (a ∷ rows) = insert a (sorted rows)

unfoldable pub toggle : String → SortState → SortState
toggle next s =
    if str_eq s.key next
    then record s { descending = not s.descending }
    else record { key = next; descending = false }

unfoldable pub set : String → Bool → SortState → SortState
set next is_descending s = record { key = next; descending = is_descending }

unfoldable pub aria_sort : String → SortState → AriaSort
aria_sort k s =
    if str_eq s.key k then (if s.descending then aria_descending else aria_ascending) else aria_none
