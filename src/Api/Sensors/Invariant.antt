-- ===== src/Api/Sensors/Invariant.antt =====
-- What every sequence of calls of the service keeps true of the table.
use air_quality_monitoring.Base.{
  ◌≡◌, refl, ◌∙◌, Bool, false, ◌||◌, List, [], ◌∷◌, ◌++◌, arith, if◌then◌else◌, any, find, inl, inr,
  Option-cases, All, All-append, by_cases,
}
use air_quality_monitoring.Base.Strings.{String, eq_iff}
use air_quality_monitoring.Api.Sensors.{
  active, status_eq, SensorRow, CreateSensor, UpdateSensor, Host, Table, has_device, retirement,
  find_active_device_ids, overview_device_ids, normalized, new_row, create, updated_row,
  update_rows, update, retire,
}

-- A row is active exactly if its status says so.
abbrev pub IsLabelled : SensorRow → Type 0
IsLabelled row = row.is_active ≡ status_eq row.status active

-- No two rows have the same device.
abbrev pub DevicesUnique : Table → Type 0
DevicesUnique [] = Unit {0}
DevicesUnique (row ∷ rows) = (any (has_device row.device_id) rows ≡ false) × DevicesUnique rows

pub record IsRegistry (rows : Table) : Type 0 where
  pub labelled : All IsLabelled rows
  pub unique : DevicesUnique rows

-- A call that may change the table.
pub data Call : Type 0 where
  creating : CreateSensor → Call
  updating : String → UpdateSensor → Call
  retiring : String → Call

unfoldable pub call : Host → Call → Table → Table
call host (creating dto) rows = (create host dto rows).1
call host (updating device dto) rows = (update host device dto rows).1
call host (retiring device) rows = (retire host device rows).1

unfoldable pub calls : List (Host × Call) → Table → Table
calls [] rows = rows
calls ((host, c) ∷ rest) rows = calls rest (call host c rows)

any-append :
    (test : SensorRow → Bool) (xs ys : Table) → any test (xs ++ ys) ≡ (any test xs || any test ys)
any-append test [] ys = refl
any-append test (x ∷ xs) ys = ground (arith, any-append test xs ys)

append-DevicesUnique :
    (rows : Table) (row : SensorRow)
    → any (has_device row.device_id) rows ≡ false
    → DevicesUnique rows
    → DevicesUnique (rows ++ row ∷ [])
append-DevicesUnique [] row n h = (refl, tt)
append-DevicesUnique (r ∷ rows) row n (h, hs) = (
  ground (
    arith,
    any-append (has_device r.device_id) rows (row ∷ []),
    eq_iff r.device_id row.device_id,
    eq_iff row.device_id r.device_id,
  ),
  append-DevicesUnique rows row (ground arith) hs,
)

module _ (host : Host) where
  new_row-IsLabelled : (dto : CreateSensor) → IsLabelled (new_row host dto)
  unfolding new_row
  new_row-IsLabelled dto = refl

  updated_row-IsLabelled :
      (dto : UpdateSensor) (row : SensorRow)
      → IsLabelled row
      → IsLabelled (updated_row host dto row)
  unfolding updated_row
  updated_row-IsLabelled dto row h = ground arith

  device_id-updated_row :
      (dto : UpdateSensor) (row : SensorRow) → (updated_row host dto row).device_id ≡ row.device_id
  unfolding updated_row
  device_id-updated_row dto row = refl

  device_id-updated_if :
      (device : String) (dto : UpdateSensor) (row : SensorRow)
      → (if has_device device row then updated_row host dto row else row).device_id ≡ row.device_id
  unfolding updated_row
  device_id-updated_if device dto row = ground arith

  update_rows-IsLabelled :
      (device : String) (dto : UpdateSensor) (rows : Table)
      → All IsLabelled rows
      → All IsLabelled (update_rows host device dto rows)
  unfolding update_rows
  update_rows-IsLabelled device dto [] h = tt
  update_rows-IsLabelled device dto (row ∷ rows) (h, hs) =
      (ground (arith, updated_row-IsLabelled dto row h), update_rows-IsLabelled device dto rows hs)

  -- An update changes no device id.
  any-update_rows :
      (k device : String) (dto : UpdateSensor) (rows : Table)
      → any (has_device k) (update_rows host device dto rows) ≡ any (has_device k) rows
  unfolding update_rows
  any-update_rows k device dto [] = refl
  any-update_rows k device dto (row ∷ rows) =
      ground (arith, device_id-updated_row dto row, any-update_rows k device dto rows)

  update_rows-DevicesUnique :
      (device : String) (dto : UpdateSensor) (rows : Table)
      → DevicesUnique rows
      → DevicesUnique (update_rows host device dto rows)
  unfolding update_rows
  update_rows-DevicesUnique device dto [] h = tt
  update_rows-DevicesUnique device dto (row ∷ rows) (h, hs) = (
    rw (device_id-updated_if device dto row) (any-update_rows row.device_id device dto rows ∙ h),
    update_rows-DevicesUnique device dto rows hs,
  )

  create-IsRegistry :
      (dto : CreateSensor) (rows : Table) → IsRegistry rows → IsRegistry (create host dto rows).1
  create-IsRegistry dto rows h =
      by_cases (any (has_device (normalized host dto.device_id)) rows)
        (λ e. unfold create in rw e h)
        (λ e.
          unfold create in
          rw e (record {
            labelled =
                All-append IsLabelled rows (new_row host dto ∷ []) h.labelled
                  (new_row-IsLabelled dto, tt);
            unique = append-DevicesUnique rows (new_row host dto) (unfold new_row in e) h.unique;
          }))

  update-IsRegistry :
      (device : String) (dto : UpdateSensor) (rows : Table)
      → IsRegistry rows
      → IsRegistry (update host device dto rows).1
  update-IsRegistry device dto rows h =
      elim (Option-cases (find (has_device (normalized host device)) rows)) [
        | inl e ↦ unfold update in rw (e, update) h
        | inr (row, e) ↦
            unfold update in
            rw (e, update)
              (record {
                labelled = update_rows-IsLabelled (normalized host device) dto rows h.labelled;
                unique = update_rows-DevicesUnique (normalized host device) dto rows h.unique;
              })
      ]

  call-IsRegistry : (c : Call) (rows : Table) → IsRegistry rows → IsRegistry (call host c rows)
  unfolding call retire
  call-IsRegistry (creating dto) rows h = create-IsRegistry dto rows h
  call-IsRegistry (updating device dto) rows h = update-IsRegistry device dto rows h
  call-IsRegistry (retiring device) rows h = update-IsRegistry device retirement rows h

calls-IsRegistry_step :
    (cs : List (Host × Call)) (rows : Table) → IsRegistry rows → IsRegistry (calls cs rows)
unfolding calls
calls-IsRegistry_step [] rows h = h
calls-IsRegistry_step ((host, c) ∷ rest) rows h =
    calls-IsRegistry_step rest (call host c rows) (call-IsRegistry host c rows h)

active_ids-eq :
    (rows : Table) → All IsLabelled rows → find_active_device_ids rows ≡ overview_device_ids rows
unfolding find_active_device_ids overview_device_ids
active_ids-eq [] h = refl
active_ids-eq (row ∷ rows) (h, hs) = ground (arith, active_ids-eq rows hs)

-- Every sequence of creations, updates and retirements, failing or not, keeps the registry in order:
-- no two rows have the same device, and a row is active exactly if its status is. So the devices
-- that `GET /sensors/latest` serves (by status) are, in order, those that `GET /overview` counts (by
-- `isActive`).
pub calls-IsRegistry :
    (cs : List (Host × Call)) (rows : Table)
    → IsRegistry rows
    → IsRegistry (calls cs rows)
      × (find_active_device_ids (calls cs rows) ≡ overview_device_ids (calls cs rows))
calls-IsRegistry cs rows h =
    let kept = calls-IsRegistry_step cs rows h in
    (kept, active_ids-eq (calls cs rows) kept.labelled)
