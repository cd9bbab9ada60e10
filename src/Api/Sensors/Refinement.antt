-- ===== src/Api/Sensors/Refinement.antt =====
-- The service against its contract: a map from devices to rows, whatever the table's order and the
-- spelling of the device.
use air_quality_monitoring.Base.{
  ◌≡◌, refl, ◌∙◌, ap, Option, none, some, List, [], ◌∷◌, ◌++◌, arith, if◌then◌else◌, Option-cases,
  inl, inr, Result, ok, throw,
}
use air_quality_monitoring.Base.Strings.{String, str_eq, eq_iff}
use air_quality_monitoring.Api.Sensors.{
  SensorRow, Sensor, CreateSensor, UpdateSensor, Host, Table, HttpError, not_found, conflict,
  retirement, to_sensor_response, normalized, find_by_device_id, new_row, create, updated_row,
  update, retire,
}
use air_quality_monitoring.Api.Sensors.Effects.{
  row_at, row_at-append, row_at-update_rows, any_of-row, any_of-none, device_id-new_row,
}

-- A request of the API.
pub data Request : Type 0 where
  finding : String → Request
  creating : CreateSensor → Request
  updating : String → UpdateSensor → Request
  retiring : String → Request

abbrev pub Answer : Type 0
Answer = Result HttpError Sensor

-- The contract: at most one row for a device in normal form.
abbrev pub Registry : Type 0
Registry = String → Option SensorRow

abbrev pub with_row : String → SensorRow → Registry → Registry
with_row device row m k = if str_eq k device then some row else m k

module _ (host : Host) where
  unfoldable pub respond : Request → Table → Answer × Table
  respond (finding x) rows = (find_by_device_id host x rows, rows)
  respond (creating dto) rows = create host dto rows
  respond (updating x dto) rows = update host x dto rows
  respond (retiring x) rows = retire host x rows

  unfoldable pub promised_update : String → UpdateSensor → Registry → Answer × Registry
  promised_update x dto m = elim (m (normalized host x)) [
    | none ↦ (throw (not_found x), m)
    | some row ↦
        let row' = updated_row host dto row in
        (ok (to_sensor_response row'), with_row (normalized host x) row' m)
  ]

  unfoldable pub promised_creation : CreateSensor → Registry → Answer × Registry
  promised_creation dto m =
      let device = normalized host dto.device_id in
      elim (m device) [
        | none ↦ (ok (to_sensor_response (new_row host dto)), with_row device (new_row host dto) m)
        | some _ ↦ (throw (conflict device), m)
      ]

  unfoldable pub promised_lookup : String → Registry → Answer
  promised_lookup x m = elim (m (normalized host x)) [
    | none ↦ throw (not_found x)
    | some row ↦ ok (to_sensor_response row)
  ]

  unfoldable pub promised : Request → Registry → Answer × Registry
  unfolding promised_update
  promised (finding x) m = (promised_lookup x m, m)
  promised (creating dto) m = promised_creation dto m
  promised (updating x dto) m = promised_update x dto m
  promised (retiring x) m = promised_update x retirement m

-- The answers to one request after another, each with the clock and the default id of its moment.
unfoldable pub answers : List (Host × Request) → Table → List Answer
answers [] rows = []
answers ((host, request) ∷ rest) rows =
    let (answer, rows') = respond host request rows in answer ∷ answers rest rows'

unfoldable pub promised_answers : List (Host × Request) → Registry → List Answer
promised_answers [] m = []
promised_answers ((host, request) ∷ rest) m =
    let (answer, m') = promised host request m in answer ∷ promised_answers rest m'

-- The contract's view of a table.
abbrev pub registry_of : Table → Registry
registry_of rows device = row_at device rows

-- A step of the service and one of the contract answer alike and leave the same registry.
abbrev Refines : Answer × Table → Answer × Registry → Type 0
Refines (answer, rows) (promised_answer, m) =
    (answer ≡ promised_answer) × ((k : String) → registry_of rows k ≡ m k)

module _ (host : Host) where
  update-Refines :
      (x : String) (dto : UpdateSensor) (rows : Table)
      → Refines (update host x dto rows) (promised_update host x dto (registry_of rows))
  unfolding update promised_update
  update-Refines x dto rows = elim (Option-cases (row_at (normalized host x) rows)) [
    | inl e ↦ rw (e, update, promised_update) (refl, λ k. refl)
    | inr (row, e) ↦
        rw (e, update, promised_update)
          (
            refl,
            λ k.
                row_at-update_rows host k (normalized host x) dto rows
                ∙ ground (arith, e, eq_iff k (normalized host x)),
          )
  ]

  new_lem :
      (dto : CreateSensor) (rows : Table) (k : String)
      → row_at (normalized host dto.device_id) rows ≡ none
      → row_at k (rows ++ new_row host dto ∷ [])
        ≡ with_row (normalized host dto.device_id) (new_row host dto) (registry_of rows) k
  new_lem dto rows k e =
      row_at-append k rows (new_row host dto)
      ∙ ground (
        arith,
        e,
        device_id-new_row host dto,
        eq_iff k (normalized host dto.device_id),
        eq_iff (normalized host dto.device_id) k,
      )

  create-Refines :
      (dto : CreateSensor) (rows : Table)
      → Refines (create host dto rows) (promised_creation host dto (registry_of rows))
  unfolding create promised_creation
  create-Refines dto rows = elim (Option-cases (row_at (normalized host dto.device_id) rows)) [
    | inl e ↦
        rw (e, promised_creation, any_of-none host (normalized host dto.device_id) rows e)
          (refl, λ k. new_lem dto rows k e)
    | inr (row, e) ↦
        rw (e, promised_creation, any_of-row host (normalized host dto.device_id) rows row e)
          (refl, λ k. refl)
  ]

  respond-Refines :
      (request : Request) (rows : Table)
      → Refines (respond host request rows) (promised host request (registry_of rows))
  unfolding respond promised retire
  respond-Refines (finding x) rows = (unfold find_by_device_id promised_lookup in refl, λ k. refl)
  respond-Refines (creating dto) rows = create-Refines dto rows
  respond-Refines (updating x dto) rows = update-Refines x dto rows
  respond-Refines (retiring x) rows = update-Refines x retirement rows

-- The service implements its contract: from any table, every sequence of lookups, registrations, updates
-- and retirements is answered as the map from devices to rows answers it, errors included.
pub answers-promised :
    (requests : List (Host × Request)) (rows : Table)
    → answers requests rows ≡ promised_answers requests (registry_of rows)
unfolding answers promised_answers
answers-promised [] rows = refl
answers-promised ((host, request) ∷ rest) rows =
    let (same, after) = respond-Refines host request rows in
    let maps : registry_of (respond host request rows).1
        ≡ (promised host request (registry_of rows)).1 =
      λ i k. after k i in
    ap (λ a. a ∷ answers rest (respond host request rows).1) same
    ∙ ap (λ l. (promised host request (registry_of rows)).0 ∷ l)
        (answers-promised rest (respond host request rows).1 ∙ ap (promised_answers rest) maps)
