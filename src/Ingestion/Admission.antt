-- ===== src/Ingestion/Admission.antt =====
-- What a message must be to reach the stores.
use air_quality_monitoring.Base.{
  ◌≡◌, ◌⊎◌, refl, ap, true, ◌&&◌, Option, none, some, arith, ok, by_cases, Option-cases,
  Result-cases, inl, inr,
}
use air_quality_monitoring.Base.Strings.{String}
use air_quality_monitoring.Codec.Uplink.{DecodedPayload, decode_uplink}
use air_quality_monitoring.Contracts.Events.{ChirpStackUplink}
use air_quality_monitoring.Contracts.Reading.{is_sensor_reading}
use air_quality_monitoring.Ingestion.State.{State, Env}
use air_quality_monitoring.Ingestion.Handler.{
  reading_of, row_of, store_reading, ingest_reading, handle_config_report, process_uplink,
  handle_uplink, pm_present, env_present, port_is, data_fport,
}
use air_quality_monitoring.Ingestion.Effects.{index_of}
use air_quality_monitoring.Codec.Uplink.{SensorsPresent}
use air_quality_monitoring.Base.Int.{ℤ, pos, negsuc}
use air_quality_monitoring.Ingestion.Invariant.{IsSound, row_of-IsSound}
use air_quality_monitoring.Ingestion.Delivery.{handle_uplink_incomplete, handle-valid}

-- The stores that readings are served from are as they were.
abbrev pub IsUntouched : State → State → Type 0
IsUntouched s s' =
    (s'.readings ≡ s.readings) × (s'.latest ≡ s.latest) × (s'.published ≡ s.published)

-- An uplink on the data port, with both sensor groups, whose row is sound.
pub record IsAdmitted (env : Env) (u : ChirpStackUplink) (d : DecodedPayload) : Type 0 where
  pub port : u.f_port ≡ some (pos 2)
  pub decoded : decode_uplink (env.from_base64 u.data_base64) ≡ ok d
  pub groups : (p : SensorsPresent) × (d.sensors_present ≡ some p) × (p.pm ≡ true) × (p.env ≡ true)
  pub sound : IsSound (row_of (reading_of env u d) (index_of (reading_of env u d)))
  pub taken : env.database_answers ≡ true

groups_lem :
    (o : Option SensorsPresent)
    → (pm_present o && env_present o) ≡ true
    → (p : SensorsPresent) × (o ≡ some p) × (p.pm ≡ true) × (p.env ≡ true)
groups_lem none e = absurd (ground arith)
groups_lem (some p) e = (p, refl, ground arith, ground arith)

port_lem : (o : Option ℤ) → port_is o data_fport ≡ true → o ≡ some (pos 2)
port_lem none e = absurd (ground arith)
port_lem (some (pos n)) e = ap (λ k. some (pos k)) (ground arith)
port_lem (some (negsuc n)) e = absurd (ground arith)

module _ (env : Env) (raw : String) (s : State) (u : ChirpStackUplink)
    (read : env.parse_envelope raw ≡ some u) where
  abbrev Outcome : Type 0
  Outcome =
      IsUntouched s (handle_uplink env raw s)
      ⊎ ((u : ChirpStackUplink) × (d : DecodedPayload) × (env.parse_envelope raw ≡ some u)
          × IsAdmitted env u d)

  from_valid :
      (d : DecodedPayload)
      → port_is u.f_port data_fport ≡ true
      → decode_uplink (env.from_base64 u.data_base64) ≡ ok d
      → (pm_present d.sensors_present && env_present d.sensors_present) ≡ true
      → is_sensor_reading (reading_of env u d) ≡ true
      → Outcome
  from_valid d port dec c v =
      by_cases env.database_answers
        (λ b. inr (
          u,
          d,
          read,
          record {
            port = port_lem u.f_port port;
            decoded = dec;
            groups = groups_lem d.sensors_present c;
            sound = row_of-IsSound (reading_of env u d) v;
            taken = b;
          },
        ))
        (λ b. inl (
          rw (handle-valid env raw u read port d dec c s v) (unfold store_reading in ground arith)))

  from_decoded :
      (d : DecodedPayload)
      → port_is u.f_port data_fport ≡ true
      → decode_uplink (env.from_base64 u.data_base64) ≡ ok d
      → Outcome
  from_decoded d port dec =
      by_cases (pm_present d.sensors_present && env_present d.sensors_present)
        (λ c.
          by_cases (is_sensor_reading (reading_of env u d)) (from_valid d port dec c)
            (λ v. inl (unfold handle_uplink process_uplink ingest_reading in ground arith)))
        (λ c.
          let e = handle_uplink_incomplete env raw u read port d dec s c in
          inl (ap (λ t. t.readings) e, ap (λ t. t.latest) e, ap (λ t. t.published) e))

  from_read : Outcome
  from_read =
      by_cases (port_is u.f_port data_fport)
        (λ port. elim (Result-cases (decode_uplink (env.from_base64 u.data_base64))) [
          | inl (d, dec) ↦ from_decoded d port dec
          | inr (e, dec) ↦ inl (unfold handle_uplink process_uplink ingest_reading in ground arith)
        ])
        (λ port. inl (unfold handle_uplink process_uplink handle_config_report in ground arith))

-- Whatever a message holds and whichever servers answer, it changes a row, a latest value or a
-- published event only if its envelope can be read, it is on the data port, its payload decodes and
-- reports both sensor groups, its row is sound (values in the contract's ranges), and the database
-- took it. So a partial or invalid reading never reaches the stores.
pub handle_uplink-IsAdmitted :
    (env : Env) (raw : String) (s : State)
    → IsUntouched s (handle_uplink env raw s)
      ⊎ ((u : ChirpStackUplink) × (d : DecodedPayload) × (env.parse_envelope raw ≡ some u)
          × IsAdmitted env u d)
handle_uplink-IsAdmitted env raw s = elim (Option-cases (env.parse_envelope raw)) [
  | inl unread ↦ inl (unfold handle_uplink process_uplink in ground arith)
  | inr (u, read) ↦ from_read env raw s u read
]
