-- ===== src/Api/Guard.antt =====
-- apps/api/src/auth/admin-api-key.guard.ts: who may call an administrative endpoint.
pub mod Decision
pub mod Examples
use Prim.Native.String.{slice, len}
use air_quality_monitoring.Base.{
  ℕ, Bool, true, false, not, ◌&&◌, ◌||◌, ◌==◌, Option, none, some, List, if◌then◌else◌, length,
  Result, ok, throw,
}
use air_quality_monitoring.Base.Strings.{String, str_eq}
use air_quality_monitoring.Codec.Words.{Bytes}

-- `string | string[] | undefined`
pub data Header : Type 0 where
  absent : Header
  one : String → Header
  many : List String → Header

pub record Request : Type 0 where
  pub x_api_key : Header
  pub authorization : Header

-- The settings the guard reads.
pub record Config : Type 0 where
  pub admin_api_key : Option String
  pub node_env : Option String

-- The three reasons of an UnauthorizedException.
pub data Unauthorized : Type 0 where
  not_configured missing_key invalid_key : Unauthorized

-- What the guard calls: `trim`, `Buffer.from` and `crypto.timingSafeEqual` on buffers of one length.
pub record Platform : Type 0 where
  pub trim : String → String
  pub to_utf8 : String → Bytes
  pub safe_equal : Bytes → Bytes → Bool

-- A string as a condition.
abbrev pub is_truthy : String → Bool
is_truthy s = not (str_eq s "")

unfoldable pub is_production : Config → Bool
is_production config = elim config.node_env [ none ↦ false | some env ↦ str_eq env "production" ]

module _ (platform : Platform) where
  unfoldable pub timing_safe_equal : String → String → Bool
  timing_safe_equal a b =
      if not (length (platform.to_utf8 a) == length (platform.to_utf8 b))
      then false
      else platform.safe_equal (platform.to_utf8 a) (platform.to_utf8 b)

  -- The token of `Authorization: Bearer <token>`.
  unfoldable pub bearer_token : Header → Option String
  bearer_token absent = none
  bearer_token (many headers) = none
  bearer_token (one header) =
      let token = platform.trim (slice header 7 (len header)) in
      if str_eq (slice header 0 7) "Bearer " && is_truthy token then some token else none

  unfoldable pub extract_api_key : Request → Option String
  extract_api_key request = elim request.x_api_key [
    | absent ↦ bearer_token request.authorization
    | many headers ↦ bearer_token request.authorization
    | one header ↦
        if is_truthy (platform.trim header)
        then some (platform.trim header)
        else bearer_token request.authorization
  ]

  -- From `extractApiKey` on, at the configured key.
  unfoldable pub check_key : String → Option String → Result Unauthorized Bool
  check_key configured none = throw missing_key
  check_key configured (some provided) =
      if not (is_truthy provided)
      then throw missing_key
      else if not (timing_safe_equal provided configured)
      then throw invalid_key
      else ok true

  unfoldable pub can_activate : Config → Request → Result Unauthorized Bool
  can_activate config request = elim config.admin_api_key [
    | none ↦ throw not_configured
    | some setting ↦
        let configured = platform.trim setting in
        let checked = check_key configured (extract_api_key request) in
        if not (is_truthy configured) || (is_production config && str_eq configured "dev-admin-key")
        then throw not_configured
        else checked
  ]
