-- ===== src/Api/Guard/Examples.antt =====
-- The guard at concrete requests, on a platform whose strings are in normal form and whose buffers are
-- the lists of the characters' numbers.
use Prim.Native.String.{[] as nil, ◌∷◌ as cons}
use Prim.Native.Char.{code}
use text.Mathlib.TextEquality.{Char-path}
use air_quality_monitoring.Base.{
  ◌≡◌, ◌↔◌, refl, Bool, true, false, ◌&&◌, ◌==◌, ==_iff, some, [], ◌∷◌, arith, length, ok, throw,
}
use air_quality_monitoring.Base.Strings.{String}
use air_quality_monitoring.Codec.Words.{Bytes}
use air_quality_monitoring.Api.Guard.{
  Config, Request, Platform, one, absent, invalid_key, can_activate, extract_api_key, bearer_token,
  check_key, timing_safe_equal, is_production,
}
use air_quality_monitoring.Api.Guard.Decision.{configured_key, IsUsable, can_activate_iff}

codes : String → Bytes
codes nil = []
codes (cons c s) = code c ∷ codes s

codes_injective : (s t : String) → codes s ≡ codes t → s ≡ t
unfolding codes
codes_injective nil nil e = refl
codes_injective nil (cons d t) e = absurd (ground (arith, e))
codes_injective (cons c s) nil e = absurd (ground (arith, e))
codes_injective (cons c s) (cons d t) e =
    let head : code c ≡ code d = ground (arith, e) in
    let tail : codes s ≡ codes t = ground (arith, e) in
    λ i. cons (Char-path c d head i) (codes_injective s t tail i)

same_bytes : Bytes → Bytes → Bool
same_bytes [] [] = true
same_bytes (x ∷ xs) (y ∷ ys) = (x == y) && same_bytes xs ys
same_bytes _ _ = false

same_bytes_iff : (a b : Bytes) → length a ≡ length b → (same_bytes a b ≡ true) ↔ (a ≡ b)
unfolding same_bytes
same_bytes_iff [] [] l = (λ _. refl, λ _. refl)
same_bytes_iff [] (y ∷ ys) l = absurd (omega arith)
same_bytes_iff (x ∷ xs) [] l = absurd (omega arith)
same_bytes_iff (x ∷ xs) (y ∷ ys) l =
    let (to, from) = same_bytes_iff xs ys (omega arith) in ground (arith, ==_iff x y, to, from)

abbrev platform : Platform
platform = record { trim = λ s. s; to_utf8 = codes; safe_equal = same_bytes }

abbrev config : Config
config = record { admin_api_key = some "s3cret"; node_env = some "production" }

abbrev bearer : Request
bearer = record { x_api_key = absent; authorization = one "Bearer s3cret" }

lets_pass : can_activate platform config bearer ≡ ok true
unfolding can_activate extract_api_key bearer_token check_key timing_safe_equal is_production codes
    same_bytes
lets_pass = refl

refuses :
    can_activate platform config (record bearer { x_api_key = one "guess" }) ≡ throw invalid_key
unfolding can_activate extract_api_key bearer_token check_key timing_safe_equal is_production codes
    same_bytes
refuses = refl

can_activate_iff_example : (can_activate platform config bearer ≡ ok true) ↔ (
    (key : String) × (configured_key platform (some "s3cret") ≡ some key)
    × IsUsable config key
    × (extract_api_key platform bearer ≡ some key))
can_activate_iff_example = can_activate_iff platform same_bytes_iff codes_injective config bearer
