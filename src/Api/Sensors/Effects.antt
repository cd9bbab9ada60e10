-- ===== src/Api/Sensors/Effects.antt =====
-- What creation, update and retirement do to the sensor that they name, and to the others.
use air_quality_monitoring.Base.{
  ◌≡◌, ◌≢◌, refl, sym, ◌∙◌, ap, true, false, Option, none, some, [], ◌∷◌, ◌++◌, arith,
  if◌then◌else◌, any, find, inl, inr, Option-cases, ok, throw, ok-injective,
}
use air_quality_monitoring.Base.Strings.{String, str_eq, eq_iff, eq_refl}
use air_quality_monitoring.Api.Sensors.{
  retired, SensorRow, Sensor, CreateSensor, UpdateSensor, Host, Table, HttpError, not_found,
  conflict, has_device, retirement, find_by_device_id, to_sensor_response, normalized, new_row,
  create, updated_row, update_rows, update, retire, find_active_device_ids,
}

-- The row of a device.
abbrev pub row_at : String → Table → Option SensorRow
row_at device = find (has_device device)

pub row_at-append :
    (device : String) (rows : Table) (row : SensorRow)
    → row_at device (rows ++ row ∷ []) ≡ elim (row_at device rows) [
      | none ↦ if has_device device row then some row else none
      | some old ↦ some old
    ]
row_at-append device [] row = refl
row_at-append device (r ∷ rows) row = ground (arith, row_at-append device rows row)

pub any-eq-false :
    (device : String) (rows : Table)
    → any (has_device device) rows ≡ false
    → row_at device rows ≡ none
any-eq-false device [] h = refl
any-eq-false device (r ∷ rows) h = ground (arith, any-eq-false device rows)

any-eq-true :
    (device : String) (rows : Table)
    → any (has_device device) rows ≡ true
    → row_at device rows ≢ none
any-eq-true device [] h = ground arith
any-eq-true device (r ∷ rows) h = ground (arith, any-eq-true device rows)

module _ (host : Host) where
  pub row_at-update_rows :
      (k device : String) (dto : UpdateSensor) (rows : Table)
      → row_at k (update_rows host device dto rows) ≡ elim (row_at k rows) [
        | none ↦ none
        | some row ↦ some (if str_eq k device then updated_row host dto row else row)
      ]
  unfolding update_rows
  row_at-update_rows k device dto [] = refl
  row_at-update_rows k device dto (row ∷ rows) = ground (
    arith,
    eq_iff row.device_id k,
    eq_iff row.device_id device,
    eq_iff k device,
    device_id-updated dto row,
    row_at-update_rows k device dto rows,
  )
    where
      device_id-updated :
          (dto : UpdateSensor) (row : SensorRow)
          → (updated_row host dto row).device_id ≡ row.device_id
      device_id-updated dto row = unfold updated_row in refl

  find_by-eq :
      (x : String) (rows : Table) (row : SensorRow)
      → row_at (normalized host x) rows ≡ some row
      → find_by_device_id host x rows ≡ ok (to_sensor_response row)
  unfolding find_by_device_id
  find_by-eq x rows row e = rw (e, find_by_device_id)

  -- Lookups that differ in the table alone agree where the tables agree.
  find_by_congr :
      (x : String) (rows rows' : Table)
      → row_at (normalized host x) rows ≡ row_at (normalized host x) rows'
      → find_by_device_id host x rows ≡ find_by_device_id host x rows'
  unfolding find_by_device_id
  find_by_congr x rows rows' e = rw (e, find_by_device_id)

  find_by-missing :
      (x : String) (rows : Table)
      → row_at (normalized host x) rows ≡ none
      → find_by_device_id host x rows ≡ throw (not_found x)
  unfolding find_by_device_id
  find_by-missing x rows e = rw (e, find_by_device_id)

  find_by-cases :
      (x : String) (rows : Table) (s : Sensor)
      → find_by_device_id host x rows ≡ ok s
      → (row : SensorRow) × (row_at (normalized host x) rows ≡ some row)
        × (to_sensor_response row ≡ s)
  find_by-cases x rows s e = elim (Option-cases (row_at (normalized host x) rows)) [
    | inl missing ↦ cc (find_by-missing x rows missing, e)
    | inr (row, at) ↦ (row, at, ok-injective _ s (sym (find_by-eq x rows row at) ∙ e))
  ]

  find_by-none :
      (x : String) (rows : Table) (err : HttpError)
      → find_by_device_id host x rows ≡ throw err
      → row_at (normalized host x) rows ≡ none
  unfolding find_by_device_id
  find_by-none x rows err e = ground arith

  pub any_of-row :
      (device : String) (rows : Table) (row : SensorRow)
      → row_at device rows ≡ some row
      → any (has_device device) rows ≡ true
  any_of-row device [] row e = cc
  any_of-row device (r ∷ rows) row e = ground (arith, any_of-row device rows row)

  pub any_of-none :
      (device : String) (rows : Table)
      → row_at device rows ≡ none
      → any (has_device device) rows ≡ false
  any_of-none device [] e = refl
  any_of-none device (r ∷ rows) e = ground (arith, any_of-none device rows)

  pub device_id-new_row :
      (dto : CreateSensor) → (new_row host dto).device_id ≡ normalized host dto.device_id
  unfolding new_row
  device_id-new_row dto = refl

  -- Take any spelling `x` of the device that is being created, that is, one with the same normal
  -- form. If `x` is found, the creation throws a conflict and changes nothing. If it is not, the
  -- creation returns a sensor, `x` finds that sensor afterwards, and what other devices find does not
  -- change.
  pub create-find_by_device_id :
      (x : String) (dto : CreateSensor) (rows : Table)
      → normalized host x ≡ normalized host dto.device_id
      → ((s : Sensor)
          → find_by_device_id host x rows ≡ ok s
          → create host dto rows ≡ (throw (conflict (normalized host dto.device_id)), rows))
        × ((err : HttpError)
            → find_by_device_id host x rows ≡ throw err
            → let (result, rows') = create host dto rows in
              (result ≡ ok (to_sensor_response (new_row host dto)))
              × (find_by_device_id host x rows' ≡ result)
              × ((y : String)
                  → normalized host y ≢ normalized host x
                  → find_by_device_id host y rows' ≡ find_by_device_id host y rows))
  create-find_by_device_id x dto rows same = (
    λ s e.
        let (row, at, _) = find_by-cases x rows s e in
        unfold create in rw (any_of-row (normalized host dto.device_id) rows row (rw same at at)),
    λ err e.
        let missing : row_at (normalized host dto.device_id) rows ≡ none =
          rw same at (find_by-none x rows err e) in
        let fresh = any_of-none (normalized host dto.device_id) rows missing in
        let grown = row_at-append (normalized host x) rows (new_row host dto) in
        unfold create in
        rw fresh (
          refl,
          find_by-eq x (rows ++ new_row host dto ∷ []) (new_row host dto) (
              ground (
                arith,
                grown,
                device_id-new_row dto,
                eq_iff (normalized host dto.device_id) (normalized host x),
              )),
          λ y other. find_by_congr y (rows ++ new_row host dto ∷ []) rows (
              ground (
                arith,
                row_at-append (normalized host y) rows (new_row host dto),
                device_id-new_row dto,
                eq_iff (normalized host dto.device_id) (normalized host y),
              )),
        ),
  )

  -- An update of a device that is not found throws and changes nothing. Otherwise it returns the
  -- sensor that the device finds afterwards, its old row with the given fields replaced, and what
  -- other devices find does not change.
  pub update-find_by_device_id :
      (x : String) (dto : UpdateSensor) (rows : Table)
      → ((err : HttpError)
          → find_by_device_id host x rows ≡ throw err
          → update host x dto rows ≡ (throw (not_found x), rows))
        × ((row : SensorRow)
            → row_at (normalized host x) rows ≡ some row
            → let (result, rows') = update host x dto rows in
              (result ≡ ok (to_sensor_response (updated_row host dto row)))
              × (find_by_device_id host x rows' ≡ result)
              × ((y : String)
                  → normalized host y ≢ normalized host x
                  → find_by_device_id host y rows' ≡ find_by_device_id host y rows))
  update-find_by_device_id x dto rows = (
    λ err e. unfold update in rw (find_by-none x rows err e, update),
    λ row e.
        unfold update in
        rw (e, update)
          (
            refl,
            find_by-eq x _ (updated_row host dto row) (
                rw (row_at-update_rows (normalized host x) (normalized host x) dto rows, e)
                  (ground (arith, eq_refl (normalized host x)))),
            λ y other. find_by_congr y _ rows (
                ground (
                  arith,
                  row_at-update_rows (normalized host y) (normalized host x) dto rows,
                  eq_iff (normalized host y) (normalized host x),
                )),
          ),
  )

  no_active_id :
      (device : String) (rows : Table)
      → any (str_eq device) (find_active_device_ids (update_rows host device retirement rows))
        ≡ false
  unfolding find_active_device_ids update_rows updated_row
  no_active_id device [] = refl
  no_active_id device (row ∷ rows) =
      ground
        (arith, no_active_id device rows, eq_iff row.device_id device, eq_iff device row.device_id)

  abbrev retired_sensor : Sensor → Sensor
  retired_sensor s = record s { status = retired; is_active = false; updated_at = some host.now }

  retired_response :
      (row : SensorRow)
      → to_sensor_response (updated_row host retirement row)
        ≡ retired_sensor (to_sensor_response row)
  unfolding updated_row to_sensor_response
  retired_response _ = refl

  -- A device that is found and retired is found afterwards with status `retired`, not active and its
  -- other fields but the time of update as before, and it is no longer among the devices that
  -- `GET /sensors/latest` serves.
  pub retire-find_by_device_id :
      (x : String) (rows : Table) (s : Sensor)
      → find_by_device_id host x rows ≡ ok s
      → let rows' = (retire host x rows).1 in
        (find_by_device_id host x rows'
          ≡ ok (record s { status = retired; is_active = false; updated_at = some host.now }))
        × (any (str_eq (normalized host x)) (find_active_device_ids rows') ≡ false)
  unfolding retire
  retire-find_by_device_id x rows s e =
      let (row, at, same) = find_by-cases x rows s e in
      let (result, found, others) = (update-find_by_device_id x retirement rows).1 row at in
      (
        found ∙ result ∙ ap ok (retired_response row ∙ ap retired_sensor same),
        unfold update in rw (at, update) (no_active_id (normalized host x) rows),
      )
