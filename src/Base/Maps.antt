-- ===== src/Base/Maps.antt =====
-- A map with text keys, as an association list: `SET` and `GET`, or a JavaScript object.
use air_quality_monitoring.Base.{◌≡◌, refl, Option, none, some, List, [], ◌∷◌, arith, if◌then◌else◌}
use air_quality_monitoring.Base.Strings.{String, str_eq, eq_iff}

unfoldable pub put {ℓ} : {A : Type ℓ} → String → A → List (String × A) → List (String × A)
put k v [] = (k, v) ∷ []
put k v ((j, w) ∷ m) = let rest = put k v m in if str_eq j k then (k, v) ∷ m else (j, w) ∷ rest

unfoldable pub get {ℓ} : {A : Type ℓ} → String → List (String × A) → Option A
get k [] = none
get k ((j, w) ∷ m) = let rest = get k m in if str_eq j k then some w else rest

module _ {ℓ} {A : Type ℓ} where
  pub get-put :
      (k j : String) (v : A) (m : List (String × A))
      → get j (put k v m) ≡ (if str_eq k j then some v else get j m)
  unfolding get put
  get-put k j v [] = refl
  get-put k j v ((i, w) ∷ m) = ground (arith, eq_iff k j, eq_iff i k, eq_iff i j, get-put k j v m)
