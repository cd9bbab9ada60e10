-- ===== src/Api/Guard/Decision.antt =====
-- Which requests the guard lets pass.
use air_quality_monitoring.Base.{
  ◌≡◌, ◌↔◌, refl, ap, sym, ◌∙◌, subst, ◌==◌, true, false, ◌&&◌, Option, none, some, arith, ok,
  by_cases, length, ==_iff,
}
use air_quality_monitoring.Base.Strings.{String, str_eq}
use air_quality_monitoring.Codec.Words.{Bytes}
use air_quality_monitoring.Api.Guard.{
  Config, Request, Platform, is_truthy, is_production, timing_safe_equal, extract_api_key,
  check_key, can_activate,
}

-- A key the server may be run with.
abbrev pub IsUsable : Config → String → Type 0
IsUsable config key =
    (is_truthy key ≡ true) × ((is_production config && str_eq key "dev-admin-key") ≡ false)

-- The trimmed setting.
abbrev pub configured_key : Platform → Option String → Option String
configured_key platform none = none
configured_key platform (some setting) = some (platform.trim setting)

module _ (platform : Platform)
    (safe : (a b : Bytes) → length a ≡ length b → (platform.safe_equal a b ≡ true) ↔ (a ≡ b))
    (injective : (a b : String) → platform.to_utf8 a ≡ platform.to_utf8 b → a ≡ b) where
  timing_safe_equal_refl : (a : String) → timing_safe_equal platform a a ≡ true
  unfolding timing_safe_equal
  timing_safe_equal_refl a =
      let n = length (platform.to_utf8 a) in
      let equal = (safe (platform.to_utf8 a) (platform.to_utf8 a) refl).1 refl in
      ground (arith, ==_iff n n, equal)

  timing_safe_equal_iff : (a b : String) → (timing_safe_equal platform a b ≡ true) ↔ (a ≡ b)
  unfolding timing_safe_equal
  timing_safe_equal_iff a b = (
    λ e.
        by_cases (length (platform.to_utf8 a) == length (platform.to_utf8 b))
          (λ l.
            let same = (==_iff (length (platform.to_utf8 a)) (length (platform.to_utf8 b))).0 l in
            let equal : platform.safe_equal (platform.to_utf8 a) (platform.to_utf8 b) ≡ true =
              ground (arith, l, e) in
            injective a b ((safe (platform.to_utf8 a) (platform.to_utf8 b) same).0 equal))
          (λ l. absurd (ground (arith, l, e))),
    λ p. subst (λ c. timing_safe_equal platform a c ≡ true) p (timing_safe_equal_refl a),
  )

  check_key_iff :
      (configured : String) (provided : Option String)
      → is_truthy configured ≡ true
      → (check_key platform configured provided ≡ ok true) ↔ (provided ≡ some configured)
  unfolding check_key
  check_key_iff configured none t = ground arith
  check_key_iff configured (some provided) t =
      ground (arith, timing_safe_equal_iff provided configured)

  can_activate_at :
      (setting env : Option String) (request : Request)
      → let config : Config = record { admin_api_key = setting; node_env = env } in
        (can_activate platform config request ≡ ok true) ↔ (
          (key : String) × (configured_key platform setting ≡ some key)
          × IsUsable config key
          × (extract_api_key platform request ≡ some key))
  unfolding can_activate
  can_activate_at none env request =
      (λ e. absurd (ground (arith, e)), λ (key, c, u, x). absurd (ground (arith, c)))
  can_activate_at (some setting) env request =
      let config : Config = record { admin_api_key = some setting; node_env = env } in
      let key = platform.trim setting in
      let given = extract_api_key platform request in
      (
        λ e.
            let t : is_truthy key ≡ true = ground (arith, e) in
            let d : (is_production config && str_eq key "dev-admin-key") ≡ false =
              ground (arith, e) in
            let checked : check_key platform key given ≡ ok true = ground (arith, e) in
            (key, refl, (t, d), (check_key_iff key given t).0 checked),
        λ (k, c, (t, d), x).
            let same : key ≡ k = ground (arith, c) in
            let t' : is_truthy key ≡ true = ground (arith, t, same) in
            let checked = (check_key_iff key given t').1 (x ∙ ap some (sym same)) in
            let d' : (is_production config && str_eq key "dev-admin-key") ≡ false =
              subst (λ j. (is_production config && str_eq j "dev-admin-key") ≡ false) (sym same)
                d in
            ground (arith, checked, d', t'),
      )

  -- Where the platform compares buffers of one length rightly and no two texts have the same
  -- buffer: a request passes exactly if the server is configured with a key, not empty and in
  -- production not the development key, and the key that is extracted from the request is that key.
  pub can_activate_iff :
      (config : Config) (request : Request)
      → (can_activate platform config request ≡ ok true) ↔ (
          (key : String) × (configured_key platform config.admin_api_key ≡ some key)
          × IsUsable config key
          × (extract_api_key platform request ≡ some key))
  can_activate_iff config request = can_activate_at config.admin_api_key config.node_env request
