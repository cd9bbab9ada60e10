-- ===== src/Api/Sensors/Validity.antt =====
-- What the requests that the schemas let through keep true of every row of the registry.
use air_quality_monitoring.Base.{
  ℕ, Option, none, some, List, [], ◌∷◌, any, find, inl, inr, Option-cases, All, All-append,
  by_cases, Result, ok, throw,
}
use air_quality_monitoring.Base.Strings.{String}
use air_quality_monitoring.Api.Sensors.{
  Sensor, HttpError, SensorRow, CreateSensor, UpdateSensor, Patch, absent, null, value, Table,
  has_device, retirement, normalized, new_row, create, updated_row, update_rows, update, retire,
  or_else, patched,
}
use air_quality_monitoring.Api.Sensors.Requests.{
  Submission, post, patch, delete, host_at, answered, checked, submit, submit_all,
}
use air_quality_monitoring.Contracts.Registration.{Strings, ZodError, parse_create, parse_update}
use air_quality_monitoring.Contracts.Registration.Bodies.{
  IfOk, OfOption, OfPatch, Within, Sized, IsEui, HasText, IsValidCreate, IsValidUpdate,
  parse_create-IsValidCreate, parse_update-IsValidUpdate,
}

or_else_lem {ℓ} :
    {A : Type ℓ} (P : A → Type 0) (new : Option A) (old : A)
    → OfOption P new
    → P old
    → P (or_else new old)
or_else_lem P none old n o = o
or_else_lem P (some a) old n o = n

patched_lem {ℓ} :
    {A : Type ℓ} (P : A → Type 0) (new : Patch A) (old : Option A)
    → OfPatch P new
    → OfOption P old
    → OfOption P (patched new old)
patched_lem P absent old n o = o
patched_lem P null old n o = tt
patched_lem P (value a) old n o = n

module _ (js : Strings) where
  -- A row of the registry: its device is a DevEUI, its texts have their lengths, it is on the globe.
  pub record IsValid (row : SensorRow) : Type 0 where
    pub eui : IsEui js row.device_id
    pub named : Sized js 1 100 row.name
    pub described : OfOption (Sized js 0 500) row.description
    pub north : Within 90000000 row.latitude
    pub east : Within 180000000 row.longitude
    pub placed : OfOption (Sized js 1 100) row.neighborhood

  module _ (laws : HasText js) (now : ℕ) (uuid : String) where
    new_row-IsValid :
        (dto : CreateSensor) → IsValidCreate js dto → IsValid (new_row (host_at js now uuid) dto)
    unfolding new_row normalized
    new_row-IsValid dto v = record {
      eui = rw (laws.trimmed dto.device_id v.eui) (laws.lowered dto.device_id v.eui);
      named = v.named;
      described = v.described;
      north = v.north;
      east = v.east;
      placed = v.placed;
    }

    updated_row-IsValid :
        (dto : UpdateSensor) (row : SensorRow)
        → IsValidUpdate js dto
        → IsValid row
        → IsValid (updated_row (host_at js now uuid) dto row)
    unfolding updated_row
    updated_row-IsValid dto row u v = record {
      eui = v.eui;
      named = or_else_lem (Sized js 1 100) dto.name row.name u.named v.named;
      described =
          patched_lem (Sized js 0 500) dto.description row.description u.described v.described;
      north = or_else_lem (Within 90000000) dto.latitude row.latitude u.north v.north;
      east = or_else_lem (Within 180000000) dto.longitude row.longitude u.east v.east;
      placed = patched_lem (Sized js 1 100) dto.neighborhood row.neighborhood u.placed v.placed;
    }

    update_rows-IsValid :
        (device : String) (dto : UpdateSensor) (rows : Table)
        → IsValidUpdate js dto
        → All IsValid rows
        → All IsValid (update_rows (host_at js now uuid) device dto rows)
    unfolding update_rows
    update_rows-IsValid device dto [] u v = tt
    update_rows-IsValid device dto (row ∷ rows) u (v, vs) = (
      by_cases (has_device device row) (λ e. rw e (updated_row-IsValid dto row u v)) (λ e. rw e v),
      update_rows-IsValid device dto rows u vs,
    )

    create-IsValid :
        (dto : CreateSensor) (rows : Table)
        → IsValidCreate js dto
        → All IsValid rows
        → All IsValid (answered (create (host_at js now uuid) dto rows)).1
    unfolding create
    create-IsValid dto rows c v =
        by_cases (any (has_device (normalized (host_at js now uuid) dto.device_id)) rows)
          (λ e. rw e v)
          (λ e. rw e (
            All-append IsValid rows (new_row (host_at js now uuid) dto ∷ []) v
              (new_row-IsValid dto c, tt)))

    update-IsValid :
        (device : String) (dto : UpdateSensor) (rows : Table)
        → IsValidUpdate js dto
        → All IsValid rows
        → All IsValid (answered (update (host_at js now uuid) device dto rows)).1
    unfolding update
    update-IsValid device dto rows u v =
        elim (Option-cases (find (has_device (normalized (host_at js now uuid) device)) rows)) [
          | inl e ↦ unfold update in rw (e, update) v
          | inr (row, e) ↦
              unfold update in
              rw (e, update)
                (update_rows-IsValid (normalized (host_at js now uuid) device) dto rows u v)
        ]

    checked-IsValid {ℓ} :
        {D : Type ℓ} (P : D → Type 0) (m : Result ZodError D)
        (serve : D → Result HttpError Sensor × Table) (rows : Table)
        → IfOk P m
        → ((dto : D) → P dto → All IsValid (answered (serve dto)).1)
        → All IsValid rows
        → All IsValid (checked m serve rows).1
    checked-IsValid P (ok dto) serve rows p h v = h dto p
    checked-IsValid P (throw e) serve rows p h v = v

    submit-IsValid :
        (s : Submission) (rows : Table)
        → All IsValid rows
        → All IsValid (submit js now uuid s rows).1
    unfolding submit retire
    submit-IsValid (post body) rows v =
        checked-IsValid (IsValidCreate js) (parse_create js body) _ rows
          (parse_create-IsValidCreate js laws body) (λ dto c. create-IsValid dto rows c v) v
    submit-IsValid (patch device body) rows v =
        checked-IsValid (IsValidUpdate js) (parse_update js body) _ rows
          (parse_update-IsValidUpdate js body) (λ dto u. update-IsValid device dto rows u v) v
    submit-IsValid (delete device) rows v =
        update-IsValid device retirement rows
          (record { named = tt; described = tt; north = tt; east = tt; placed = tt }) v

  -- Whatever bodies are sent to the registry, in any order, every row keeps a DevEUI of sixteen
  -- hexadecimal digits, coordinates on the globe, and texts of the lengths that the schemas set; where
  -- trim leaves sixteen such digits as they are, and toLowerCase makes sixteen such digits of them.
  pub submit_all-IsValid :
      HasText js
      → (requests : List (ℕ × String × Submission)) (rows : Table) → All IsValid rows
      → All IsValid (submit_all js requests rows)
  unfolding submit_all
  submit_all-IsValid laws [] rows v = v
  submit_all-IsValid laws ((now, uuid, s) ∷ rest) rows v =
      submit_all-IsValid laws rest (submit js now uuid s rows).1
        (submit-IsValid laws now uuid s rows v)
