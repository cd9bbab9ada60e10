-- ===== src/Contracts/Registration.antt =====
-- The schemas of packages/contracts/src/sensor.ts that the registry's requests are checked by:
-- `ListSensorsQuerySchema`, `CreateSensorSchema` and `UpdateSensorSchema`. A field is a JSON value; a
-- number is a count of millionths. zod reports every issue, and here the first field that has one.

pub mod Bodies
use Prim.Native.Char.{code}
use air_quality_monitoring.Base.{
  ℕ, zero, suc, Bool, true, false, ◌&&◌, ◌||◌, Option, none, some, leb, if◌then◌else◌, Result, ok,
  throw, ◌>>=◌,
}
use air_quality_monitoring.Base.Int.{ℤ, pos, ◌-ℤ◌, leb_ℤ}
use air_quality_monitoring.Base.Strings.{String, str_eq}
use air_quality_monitoring.Api.Sensors.{
  SensorStatus, active, maintenance, retired, CreateSensor, UpdateSensor, Patch, absent, null,
  value,
}

pub data Json : Type 0 where
  undefined json_null nested : Json
  text : String → Json
  number : ℤ → Json
  boolean : Bool → Json

-- The fields of a body, `undefined` where it has none.
pub record Body : Type 0 where
  pub device_id : Json
  pub name : Json
  pub description : Json
  pub latitude : Json
  pub longitude : Json
  pub neighborhood : Json
  pub status : Json
  pub installed_at : Json
  pub is_simulated : Json

pub data ZodError : Type 0 where
  invalid_field : String → ZodError

-- `String.prototype.trim`, `toLowerCase` and `length`, and the moment of a text that
-- `z.iso.datetime()` accepts.
pub record Strings : Type 0 where
  pub trim : String → String
  pub to_lower_case : String → String
  pub size : String → ℕ
  pub datetime : String → Option ℕ

-- `[0-9a-fA-F]`
abbrev pub is_hex_code : ℕ → Bool
is_hex_code c = (leb 48 c && leb c 57) || (leb 97 c && leb c 102) || (leb 65 c && leb c 70)

-- `/^[0-9a-fA-F]{n}$/`
unfoldable pub are_hex : ℕ → String → Bool
are_hex zero String.[] = true
are_hex zero (String.◌∷◌ c s) = false
are_hex (suc n) String.[] = false
are_hex (suc n) (String.◌∷◌ c s) = is_hex_code (code c) && are_hex n s

abbrev pub invalid {ℓ} : {A : Type ℓ} → String → Result ZodError A
invalid name = throw (invalid_field name)

-- `z.number().min(-bound).max(bound)`, the bound in millionths.
unfoldable pub number_field : String → ℕ → Json → Result ZodError ℤ
number_field name bound (number x) =
    if leb_ℤ (pos 0 -ℤ pos bound) x && leb_ℤ x (pos bound) then ok x else invalid name
number_field name bound _ = invalid name

unfoldable pub boolean_field : String → Json → Result ZodError Bool
boolean_field name (boolean b) = ok b
boolean_field name _ = invalid name

-- `SensorStatusSchema`
unfoldable pub status_field : Json → Result ZodError SensorStatus
status_field (text s) =
    if str_eq s "active"
    then ok active
    else if str_eq s "maintenance"
    then ok maintenance
    else if str_eq s "retired"
    then ok retired
    else invalid "status"
status_field _ = invalid "status"

-- `.optional()`
unfoldable pub optional_field {ℓ} :
    {A : Type ℓ} → (Json → Result ZodError A) → Json → Result ZodError (Option A)
optional_field parse undefined = ok none
optional_field parse field = do a ← parse field; ok (some a)

-- `.nullable().optional()`
unfoldable pub nullable_field {ℓ} :
    {A : Type ℓ} → (Json → Result ZodError A) → Json → Result ZodError (Patch A)
nullable_field parse undefined = ok absent
nullable_field parse json_null = ok null
nullable_field parse field = do a ← parse field; ok (value a)

-- `.default(a)`
unfoldable pub default_field {ℓ} :
    {A : Type ℓ} → A → (Json → Result ZodError A) → Json → Result ZodError A
default_field a parse undefined = ok a
default_field a parse field = parse field

module _ (js : Strings) where
  -- `z.string().trim().min(lo).max(hi)`
  unfoldable pub text_field : String → ℕ → ℕ → Json → Result ZodError String
  text_field name lo hi (text s) =
      if leb lo (js.size (js.trim s)) && leb (js.size (js.trim s)) hi
      then ok (js.trim s)
      else invalid name
  text_field name lo hi _ = invalid name

  unfoldable pub device_id_field : Json → Result ZodError String
  device_id_field (text s) =
      if are_hex 16 (js.trim s) then ok (js.to_lower_case (js.trim s)) else invalid "deviceId"
  device_id_field _ = invalid "deviceId"

  unfoldable pub datetime_field : Json → Result ZodError ℕ
  datetime_field (text s) = elim (js.datetime s) [ none ↦ invalid "installedAt" | some at ↦ ok at ]
  datetime_field _ = invalid "installedAt"

  abbrev pub name_field : Json → Result ZodError String
  name_field = text_field "name" 1 100

  abbrev pub description_field : Json → Result ZodError String
  description_field = text_field "description" 0 500

  abbrev pub neighborhood_field : Json → Result ZodError String
  neighborhood_field = text_field "neighborhood" 1 100

  unfoldable pub parse_create : Body → Result ZodError CreateSensor
  parse_create body = do
    device_id ← device_id_field body.device_id
    name ← name_field body.name
    description ← optional_field description_field body.description
    latitude ← number_field "latitude" 90000000 body.latitude
    longitude ← number_field "longitude" 180000000 body.longitude
    neighborhood ← optional_field neighborhood_field body.neighborhood
    status ← default_field active status_field body.status
    installed_at ← optional_field datetime_field body.installed_at
    is_simulated ← default_field false (boolean_field "isSimulated") body.is_simulated
    ok (record {
      device_id = device_id;
      name = name;
      description = description;
      latitude = latitude;
      longitude = longitude;
      neighborhood = neighborhood;
      status = some status;
      installed_at = installed_at;
      is_simulated = some is_simulated;
    })

  unfoldable pub parse_update : Body → Result ZodError UpdateSensor
  parse_update body = do
    name ← optional_field name_field body.name
    description ← nullable_field description_field body.description
    latitude ← optional_field (number_field "latitude" 90000000) body.latitude
    longitude ← optional_field (number_field "longitude" 180000000) body.longitude
    neighborhood ← nullable_field neighborhood_field body.neighborhood
    status ← optional_field status_field body.status
    installed_at ← nullable_field datetime_field body.installed_at
    is_simulated ← optional_field (boolean_field "isSimulated") body.is_simulated
    ok (record {
      name = name;
      description = description;
      latitude = latitude;
      longitude = longitude;
      neighborhood = neighborhood;
      status = status;
      installed_at = installed_at;
      is_simulated = is_simulated;
    })

-- `z.union([z.boolean(), z.enum(['true', 'false'])])` and its transform; without one, `true`.
unfoldable pub include_simulated_field : Json → Result ZodError Bool
include_simulated_field undefined = ok true
include_simulated_field (boolean b) = ok b
include_simulated_field (text s) =
    if str_eq s "true"
    then ok true
    else if str_eq s "false"
    then ok false
    else invalid "includeSimulated"
include_simulated_field _ = invalid "includeSimulated"

pub record ListSensorsQuery : Type 0 where
  pub status : Option SensorStatus
  pub include_simulated : Bool

unfoldable pub parse_list_query : Json → Json → Result ZodError ListSensorsQuery
parse_list_query status include_simulated = do
  wanted ← optional_field status_field status
  included ← include_simulated_field include_simulated
  ok (record { status = wanted; include_simulated = included })
