-- ===== src/Api/Sensors.antt =====
-- apps/api/src/sensors/sensors.service.ts over the table `sensors` of
-- packages/db/src/relational/schema.ts. A method returns its result, or the error that it throws,
-- and the table. Dates are milliseconds; coordinates are carried and never computed with.
pub mod Invariant
pub mod Effects
pub mod Refinement
pub mod Requests
pub mod Validity
mod Submissions
use air_quality_monitoring.Base.{
  ℕ, Bool, true, false, not, ◌&&◌, Option, none, some, List, [], ◌∷◌, ◌++◌, map, if◌then◌else◌,
  keep, find, any, Result, ok, throw,
}
use air_quality_monitoring.Base.Int.{ℤ}
use air_quality_monitoring.Base.Rounding.{Hundredths}
use air_quality_monitoring.Base.Strings.{String, str_eq}

pub data SensorStatus : Type 0 where
  active maintenance retired : SensorStatus

abbrev pub status_eq : SensorStatus → SensorStatus → Bool
status_eq active active = true
status_eq maintenance maintenance = true
status_eq retired retired = true
status_eq _ _ = false

-- Millionths of a degree.
abbrev pub Degrees : Type 0
Degrees = ℤ

pub record SensorRow : Type 0 where
  pub id : String
  pub device_id : String
  pub name : String
  pub description : Option String
  pub latitude : Degrees
  pub longitude : Degrees
  pub neighborhood : Option String
  pub status : SensorStatus
  pub is_active : Bool
  pub installed_at : Option ℕ
  pub is_simulated : Bool
  pub last_seen_at : Option ℕ
  pub battery_mv : Option Hundredths
  pub created_at : ℕ
  pub updated_at : ℕ

-- `SensorSchema`: the row as the API shows it.
pub record Sensor : Type 0 where
  pub id : String
  pub device_id : String
  pub name : String
  pub description : Option String
  pub latitude : Degrees
  pub longitude : Degrees
  pub neighborhood : Option String
  pub status : SensorStatus
  pub is_active : Bool
  pub installed_at : Option ℕ
  pub is_simulated : Bool
  pub last_seen_at : Option ℕ
  pub battery_mv : Option Hundredths
  pub created_at : Option ℕ
  pub updated_at : Option ℕ

pub record CreateSensor : Type 0 where
  pub device_id : String
  pub name : String
  pub description : Option String
  pub latitude : Degrees
  pub longitude : Degrees
  pub neighborhood : Option String
  pub status : Option SensorStatus
  pub installed_at : Option ℕ
  pub is_simulated : Option Bool

-- A field that may be left out, `null`, or a value.
pub data Patch {ℓ} (A : Type ℓ) : Type ℓ where
  absent : Patch A
  null : Patch A
  value : A → Patch A

pub record UpdateSensor : Type 0 where
  pub name : Option String
  pub description : Patch String
  pub latitude : Option Degrees
  pub longitude : Option Degrees
  pub neighborhood : Patch String
  pub status : Option SensorStatus
  pub installed_at : Patch ℕ
  pub is_simulated : Option Bool

pub data HttpError : Type 0 where
  not_found : String → HttpError
  conflict : String → HttpError

-- What JavaScript and PostgreSQL give: the methods of strings, the clock, and `defaultRandom()`.
pub record Host : Type 0 where
  pub trim : String → String
  pub to_lower_case : String → String
  pub now : ℕ
  pub random_uuid : String

abbrev pub Table : Type 0
Table = List SensorRow

abbrev pub or_else {ℓ} : {A : Type ℓ} → Option A → A → A
or_else none d = d
or_else (some a) d = a

-- `x ?? false` and the like; `null` overwrites, `undefined` does not.
abbrev pub patched {ℓ} : {A : Type ℓ} → Patch A → Option A → Option A
patched absent old = old
patched null old = none
patched (value a) old = some a

abbrev pub has_device : String → SensorRow → Bool
has_device device row = str_eq row.device_id device

unfoldable pub to_sensor_response : SensorRow → Sensor
to_sensor_response r = record {
  id = r.id;
  device_id = r.device_id;
  name = r.name;
  description = r.description;
  latitude = r.latitude;
  longitude = r.longitude;
  neighborhood = r.neighborhood;
  status = r.status;
  is_active = r.is_active;
  installed_at = r.installed_at;
  is_simulated = r.is_simulated;
  last_seen_at = r.last_seen_at;
  battery_mv = r.battery_mv;
  created_at = some r.created_at;
  updated_at = some r.updated_at;
}

-- The two optional conditions of `findAll`.
abbrev pub matches_status : Option SensorStatus → SensorRow → Bool
matches_status none row = true
matches_status (some s) row = status_eq row.status s

abbrev pub matches_simulated : Option Bool → SensorRow → Bool
matches_simulated (some false) row = not row.is_simulated
matches_simulated _ row = true

unfoldable pub find_all : Option SensorStatus → Option Bool → Table → List Sensor
find_all status include_simulated rows =
    map to_sensor_response
      (keep (λ row. matches_status status row && matches_simulated include_simulated row) rows)

unfoldable pub find_active_device_ids : Table → List String
find_active_device_ids rows =
    map (λ row. row.device_id) (keep (λ row. status_eq row.status active) rows)

-- `apps/api/src/overview/overview.controller.ts` asks for the rows with `isActive`.
unfoldable pub overview_device_ids : Table → List String
overview_device_ids rows = map (λ row. row.device_id) (keep (λ row. row.is_active) rows)

-- What `retire` updates.
abbrev pub retirement : UpdateSensor
retirement = record {
  name = none;
  description = absent;
  latitude = none;
  longitude = none;
  neighborhood = absent;
  status = some retired;
  installed_at = absent;
  is_simulated = none;
}

module _ (host : Host) where
  -- `deviceId.trim().toLowerCase()`
  unfoldable pub normalized : String → String
  normalized device = host.to_lower_case (host.trim device)

  unfoldable pub find_by_device_id : String → Table → Result HttpError Sensor
  find_by_device_id device rows = elim (find (has_device (normalized device)) rows) [
    | none ↦ throw (not_found device)
    | some row ↦ ok (to_sensor_response row)
  ]

  -- The inserted values with the table's defaults.
  unfoldable pub new_row : CreateSensor → SensorRow
  new_row dto =
      let status = or_else dto.status active in
      record {
        id = host.random_uuid;
        device_id = normalized dto.device_id;
        name = dto.name;
        description = dto.description;
        latitude = dto.latitude;
        longitude = dto.longitude;
        neighborhood = dto.neighborhood;
        status = status;
        is_active = status_eq status active;
        installed_at = dto.installed_at;
        is_simulated = or_else dto.is_simulated false;
        last_seen_at = none;
        battery_mv = none;
        created_at = host.now;
        updated_at = host.now;
      }

  unfoldable pub create : CreateSensor → Table → Result HttpError Sensor × Table
  create dto rows =
      if any (has_device (normalized dto.device_id)) rows
      then (throw (conflict (normalized dto.device_id)), rows)
      else (ok (to_sensor_response (new_row dto)), rows ++ new_row dto ∷ [])

  -- The row after `set(updateValues)`.
  unfoldable pub updated_row : UpdateSensor → SensorRow → SensorRow
  updated_row dto row = record row {
    name = or_else dto.name row.name;
    description = patched dto.description row.description;
    latitude = or_else dto.latitude row.latitude;
    longitude = or_else dto.longitude row.longitude;
    neighborhood = patched dto.neighborhood row.neighborhood;
    status = or_else dto.status row.status;
    is_active = elim dto.status [ none ↦ row.is_active | some s ↦ status_eq s active ];
    installed_at = patched dto.installed_at row.installed_at;
    is_simulated = or_else dto.is_simulated row.is_simulated;
    updated_at = host.now;
  }

  -- `UPDATE … WHERE device_id = …`
  unfoldable pub update_rows : String → UpdateSensor → Table → Table
  update_rows device dto = map (λ row. if has_device device row then updated_row dto row else row)

  unfoldable pub update : String → UpdateSensor → Table → Result HttpError Sensor × Table
  update device dto rows = elim (find (has_device (normalized device)) rows) [
    | none ↦ (throw (not_found device), rows)
    | some existing ↦ (
      ok (to_sensor_response (updated_row dto existing)),
      update_rows (normalized device) dto rows,
    )
  ]

  unfoldable pub retire : String → Table → Result HttpError Sensor × Table
  unfolding update
  retire device = update device retirement
