-- ===== src/Api/Sensors/Requests.antt =====
-- The routes of apps/api/src/sensors/sensors.controller.ts that change the registry, behind the
-- ZodValidationPipe of main.ts: a body that its schema refuses does not reach the service. Who may call
-- them is Api/Guard.
use air_quality_monitoring.Base.{ℕ, List, [], ◌∷◌, Result, ok, throw}
use air_quality_monitoring.Base.Strings.{String}
use air_quality_monitoring.Api.Sensors.{Sensor, HttpError, Host, Table, create, update, retire}
use air_quality_monitoring.Contracts.Registration.{
  Body, Strings, ZodError, parse_create, parse_update,
}

pub data Submission : Type 0 where
  post : Body → Submission
  patch : String → Body → Submission
  delete : String → Submission

pub data Refusal : Type 0 where
  bad_request : ZodError → Refusal
  refused : HttpError → Refusal

-- The service's world at a request: its clock and the uuid that would be drawn.
abbrev pub host_at : Strings → ℕ → String → Host
host_at js now uuid = record {
  trim = js.trim;
  to_lower_case = js.to_lower_case;
  now = now;
  random_uuid = uuid;
}

abbrev pub answered : Result HttpError Sensor × Table → Result Refusal Sensor × Table
answered (ok sensor, rows) = (ok sensor, rows)
answered (throw e, rows) = (throw (refused e), rows)

-- The pipe before a method of the service.
abbrev pub checked {ℓ} :
    {D : Type ℓ}
    → Result ZodError D
    → (D → Result HttpError Sensor × Table)
    → Table
    → Result Refusal Sensor × Table
checked (throw e) serve rows = (throw (bad_request e), rows)
checked (ok dto) serve rows = answered (serve dto)

module _ (js : Strings) where
  unfoldable pub submit : ℕ → String → Submission → Table → Result Refusal Sensor × Table
  submit now uuid (post body) rows =
      checked (parse_create js body) (λ dto. create (host_at js now uuid) dto rows) rows
  submit now uuid (patch device body) rows =
      checked (parse_update js body) (λ dto. update (host_at js now uuid) device dto rows) rows
  submit now uuid (delete device) rows = answered (retire (host_at js now uuid) device rows)

  unfoldable pub submit_all : List (ℕ × String × Submission) → Table → Table
  unfolding submit
  submit_all [] rows = rows
  submit_all ((now, uuid, s) ∷ rest) rows = submit_all rest (submit now uuid s rows).1
