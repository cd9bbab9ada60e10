-- ===== src/Dashboard/Config.antt =====
-- apps/dashboard/src/lib/config.ts: where the dashboard gets its data, from the build's environment. A
-- regular expression's replacement and `new URL` are the platform's.
use air_quality_monitoring.Base.{
  Bool, true, false, not, ◌&&◌, ◌||◌, Option, none, some, if◌then◌else◌, ◌≡◌, arith,
}
use air_quality_monitoring.Base.Strings.{String, str_eq, starts_with}

pub data DataSourceKind : Type 0 where
  api mock : DataSourceKind

pub record MapStyle : Type 0 where
  pub light : String
  pub dark : String

pub record AppConfig : Type 0 where
  pub source : DataSourceKind
  pub api_base : String
  pub socket_url : Option String
  pub map_style : MapStyle

pub record ConfigEnv : Type 0 where
  pub dev : Bool
  pub data_source : Option String
  pub api_url : Option String
  pub ws_url : Option String
  pub map_style_light : Option String
  pub map_style_dark : Option String

-- `replace(/\/$/, '')`, `replace(/^ws/, 'http')` and `new URL(base).origin`.
pub record UrlPlatform : Type 0 where
  pub without_final_slash : String → String
  pub ws_to_http : String → String
  pub origin : String → String

abbrev pub default_api_base : String
default_api_base = "/api"

abbrev pub default_map_light : String
default_map_light = "https://tiles.openfreemap.org/styles/positron"

abbrev pub default_map_dark : String
default_map_dark = "https://tiles.openfreemap.org/styles/fiord"

-- A text that is missing or empty is false.
abbrev pub is_set : Option String → Bool
is_set none = false
is_set (some text) = not (str_eq text "")

-- `a || b`
abbrev pub set_or : Option String → String → String
set_or none usual = usual
set_or (some text) usual = if str_eq text "" then usual else text

-- `/^https?:\/\//`
abbrev pub is_absolute : String → Bool
is_absolute url = starts_with url "http://" || starts_with url "https://"

abbrev pub source_is : Option String → String → Bool
source_is none name = false
source_is (some text) name = str_eq text name

module _ (platform : UrlPlatform) where
  unfoldable pub socket_url_for : String → Option String → Option String
  socket_url_for api_base ws_url =
      if is_set ws_url
      then some (platform.ws_to_http (set_or ws_url ""))
      else if is_absolute api_base
      then some (platform.origin api_base)
      else none

  unfoldable pub resolve_config : ConfigEnv → AppConfig
  resolve_config env =
      let base = platform.without_final_slash (set_or env.api_url default_api_base) in
      let wants_mock =
        source_is env.data_source "mock"
        || (not (source_is env.data_source "api") && not (is_set env.api_url)) in
      record {
        source = if env.dev && wants_mock then mock else api;
        api_base = base;
        socket_url = socket_url_for base env.ws_url;
        map_style = record {
          light = set_or env.map_style_light default_map_light;
          dark = set_or env.map_style_dark default_map_dark;
        };
      }

  -- A production build talks to the API, whatever its environment says. A development build with an
  -- API URL does so unless the mock is asked for, and one without asks for the mock unless the API is.
  pub resolve_config-source :
      (env : ConfigEnv)
      → (env.dev ≡ false → (resolve_config env).source ≡ api)
        × (is_set env.api_url ≡ true
            → source_is env.data_source "mock" ≡ false
            → (resolve_config env).source ≡ api)
        × (env.dev ≡ true
            → is_set env.api_url ≡ false
            → source_is env.data_source "api" ≡ false
            → (resolve_config env).source ≡ mock)
  unfolding resolve_config
  resolve_config-source env =
      (λ d. ground (arith, d), λ u m. ground (arith, u, m), λ d u a. ground (arith, d, u, a))
