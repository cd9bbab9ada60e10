-- ===== src/Api/Examples.antt =====
-- The registry at concrete calls.
use air_quality_monitoring.Base.{◌≡◌, refl, none, some, List, [], ◌∷◌, if◌then◌else◌, ok}
use air_quality_monitoring.Base.Int.{pos}
use air_quality_monitoring.Base.Strings.{String, str_eq}
use air_quality_monitoring.Api.Sensors.{
  maintenance, CreateSensor, UpdateSensor, null, Host, Table, find_by_device_id, to_sensor_response,
  normalized, new_row, retirement, find_active_device_ids, overview_device_ids,
}
use air_quality_monitoring.Api.Sensors.Refinement
use air_quality_monitoring.Api.Sensors.Invariant.{
  IsRegistry, creating, updating, retiring, calls, calls-IsRegistry,
}

-- A host whose strings are in normal form but for one spelling.
abbrev lower : String → String
lower s = if str_eq s "AB" then "ab" else s

abbrev host : Host
host = record { trim = λ s. s; to_lower_case = lower; now = 5; random_uuid = "u1" }

abbrev mina : CreateSensor
mina = record {
  device_id = "ab";
  name = "Mina 1";
  description = none;
  latitude = pos 34450000;
  longitude = pos 35810000;
  neighborhood = some "El Mina";
  status = none;
  installed_at = none;
  is_simulated = none;
}

abbrev table : Table
table = new_row host mina ∷ []

table-IsRegistry : IsRegistry table
unfolding new_row
table-IsRegistry = record { labelled = (refl, tt); unique = (refl, tt) }

abbrev moved : UpdateSensor
moved = record retirement { status = some maintenance; neighborhood = null }

found : find_by_device_id host "AB" table ≡ ok (to_sensor_response (new_row host mina))
unfolding find_by_device_id new_row normalized
found = refl

calls-IsRegistry_example :
    let rows =
      calls
        ((host, creating mina) ∷ (host, updating "AB" moved) ∷ (host, retiring "zz") ∷ [])
        table in
    IsRegistry rows × (find_active_device_ids rows ≡ overview_device_ids rows)
calls-IsRegistry_example =
    calls-IsRegistry
      ((host, creating mina) ∷ (host, updating "AB" moved) ∷ (host, retiring "zz") ∷ []) table
      table-IsRegistry

abbrev requests : List (Host × Refinement.Request)
requests =
    (host, Refinement.finding "AB")
    ∷ (host, Refinement.creating mina)
    ∷ (host, Refinement.creating mina)
    ∷ (host, Refinement.updating "AB" moved)
    ∷ (host, Refinement.retiring "zz")
    ∷ []

answers-promised_example :
    Refinement.answers requests []
    ≡ Refinement.promised_answers requests (Refinement.registry_of [])
answers-promised_example = Refinement.answers-promised requests []
