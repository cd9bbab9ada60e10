-- ===== src/Base/Triples.antt =====
-- What holds of a call that returns: from a state with `P`, its value and its state have `Q`.
use air_quality_monitoring.Base.Results.{Result, ok, throw, ok-injective}
use air_quality_monitoring.Base.Actions.{Action, pure, lift, after, ◌>>=◌}
use mathlib.Core.Path.{◌≡◌, refl, sym, subst}

module _ {ℓ κ μ ν ξ} {S : Type ℓ} {E : Type κ} where
  abbrev pub Triple :
      {A : Type μ} → (S → Type ν) → Action S E A → (A → S → Type ξ) → Type (ℓ ⊔ κ ⊔ μ ⊔ ν ⊔ ξ)
  Triple {A} P m Q = (s : S) → P s → (a : A) → (m s).0 ≡ ok a → Q a (m s).1

  pub Triple-pure :
      {A : Type μ} {P : S → Type ν} (Q : A → S → Type ξ) (a : A)
      → ((s : S) → P s → Q a s)
      → Triple P (pure a) Q
  Triple-pure {A} {P} Q a h s p b e = subst (λ b. Q b s) (ok-injective {E = E} a b e) (h s p)

  pub Triple-lift :
      {A : Type μ} {P : S → Type ν} (Q : A → S → Type ξ) (r : Result E A)
      → ((a : A) → r ≡ ok a → (s : S) → P s → Q a s)
      → Triple P (lift r) Q
  Triple-lift Q r h s p a e = h a e s p

module _ {ℓ κ μ ν} {S : Type ℓ} {E : Type κ} {A : Type μ} {B : Type ν} where
  after-ok :
      (r : Result E A) (f : A → Action S E B) (s : S) (b : B)
      → (after r f s).0 ≡ ok b
      → (a : A) × (r ≡ ok a) × ((f a s).0 ≡ ok b) × ((after r f s).1 ≡ (f a s).1)
  after-ok (ok a) f s b e = (a, refl, e, refl)
  after-ok (throw err) f s b e = cc

  pub Triple-bind {ξ ζ η} :
      {P : S → Type ξ} {Q : A → S → Type ζ} (R : B → S → Type η) (m : Action S E A)
      (f : A → Action S E B)
      → Triple P m Q
      → ((a : A) → Triple (Q a) (f a) R)
      → Triple P (m >>= f) R
  Triple-bind R m f hm hf s p b e =
      let (a, ra, fe, se) = after-ok (m s).0 f (m s).1 b e in
      subst (λ s'. R b s') (sym se) (hf a (m s).1 (hm s p a ra) b fe)
