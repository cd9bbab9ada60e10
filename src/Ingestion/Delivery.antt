-- ===== src/Ingestion/Delivery.antt =====
-- Single messages: partial readings, complete readings, config reports.
use air_quality_monitoring.Base.{
  ◌+◌, ◌*◌, ◌≡◌, ◌⊎◌, refl, ap, Bool, true, false, ◌&&◌, ◌||◌, Option, none, some, List, ◌∷◌, arith,
  if◌then◌else◌, any, ok, throw, by_cases, Option-cases, Result-cases, inl, inr,
}
use air_quality_monitoring.Base.Maps.{get, get-put}
use air_quality_monitoring.Base.Strings.{String, str_eq, eq_refl}
use air_quality_monitoring.Codec.ConfigReport.{
  ConfigReport, decode_config_report, config_report_fport,
}
use air_quality_monitoring.Codec.Uplink.{DecodedPayload, decode_uplink}
use air_quality_monitoring.Contracts.Events.{reading_created, ChirpStackUplink}
use air_quality_monitoring.Contracts.Reading.{SensorReading, is_sensor_reading}
use air_quality_monitoring.Ingestion.State.{
  Row, no_sensors, incomplete_sensors, error, readings_ingested, readings_dropped, State, Env,
  insert_row, same_key,
}
use air_quality_monitoring.Ingestion.Handler.{
  reading_of, row_of, payload_of, store_reading, ingest_reading, handle_config_report, config_of,
  process_uplink, settle, handle_uplink, latest_ttl_seconds, pm_present, env_present, port_is,
  data_fport,
}
use air_quality_monitoring.Ingestion.Effects.{
  index_of, with_row, with_latest, with_event, with_ingested,
}
use air_quality_monitoring.Ingestion.Stores.{insert_row_known, any-insert_row, any-insert_row_mono}
use air_quality_monitoring.Codec.Errors.{CodecError}

-- The insert of a row, if there is one.
abbrev pub insert_if : Option Row → List Row → List Row
insert_if none rows = rows
insert_if (some row) rows = insert_row row rows

pub any-insert_if :
    (test : Row → Bool) (o : Option Row) (rows : List Row)
    → any test rows ≡ true
    → any test (insert_if o rows) ≡ true
any-insert_if test none rows h = h
any-insert_if test (some row) rows h = any-insert_row_mono test row rows h

pub insert_if_known :
    (o : Option Row) (rows : List Row)
    → ((row : Row) → o ≡ some row → any (same_key row) rows ≡ true)
    → insert_if o rows ≡ rows
insert_if_known none rows known = refl
insert_if_known (some row) rows known = insert_row_known row rows (known row refl)

-- The row of a reading that has both sensor groups and passes the schema.
abbrev row_if_valid : Bool → SensorReading → Option Row
row_if_valid complete r =
    if complete && is_sensor_reading r then some (row_of r (index_of r)) else none

-- The row of an uplink, if it has one.
unfoldable pub row_of_uplink : Env → ChirpStackUplink → Option Row
row_of_uplink env u =
    if port_is u.f_port data_fport
    then (elim (decode_uplink (env.from_base64 u.data_base64)) [
      | ok d ↦
          row_if_valid (pm_present d.sensors_present && env_present d.sensors_present)
            (reading_of env u d)
      | throw e ↦ none
    ])
    else none

unfoldable pub planned : Env → String → Option Row
unfolding row_of_uplink
planned env raw = elim (env.parse_envelope raw) [ none ↦ none | some u ↦ row_of_uplink env u ]

-- The row that a message adds depends on the message and its environment alone.
abbrev pub RowPlan : Env → String → Type 0
RowPlan env raw =
    (o : Option Row) × ((s : State) → (handle_uplink env raw s).readings ≡ insert_if o s.readings)
    × (o ≡ (if env.database_answers then planned env raw else none))

-- The state after all of the writes.
stored_state :
    (env : Env) (r : SensorReading) (s : State)
    → env.database_answers ≡ true
    → env.set_answers ≡ true
    → env.publish_answers ≡ true
    → settle (store_reading env r (index_of r) s)
      ≡ with_ingested r (with_event r (with_latest env r (with_row r s)))
unfolding store_reading
stored_state env r s b c p = ground arith

module _ (env : Env) (raw : String) (u : ChirpStackUplink)
    (read : env.parse_envelope raw ≡ some u) where
  module _ (port : port_is u.f_port data_fport ≡ true) (d : DecodedPayload)
      (dec : decode_uplink (env.from_base64 u.data_base64) ≡ ok d) where
    other_port : port_is u.f_port config_report_fport ≡ false
    other_port = ground arith

    -- A message on the data port is handled by `ingest_reading`.
    handle-data : (s : State) → handle_uplink env raw s ≡ settle (ingest_reading env u s)
    unfolding handle_uplink process_uplink
    handle-data s = rw (read, other_port, port) refl

    -- A reading whose payload does not report both sensor groups changes nothing but the counter of
    -- dropped readings, where the reason is `no_sensors` if both are missing.
    pub handle_uplink_incomplete :
        (s : State)
        → (pm_present d.sensors_present && env_present d.sensors_present) ≡ false
        → handle_uplink env raw s ≡ record s {
          metrics =
              readings_dropped (
                if pm_present d.sensors_present || env_present d.sensors_present
                then incomplete_sensors
                else no_sensors)
              ∷ s.metrics;
        }
    handle_uplink_incomplete s h = rw (handle-data s) (unfold ingest_reading in ground arith)

    plan-incomplete :
        (pm_present d.sensors_present && env_present d.sensors_present) ≡ false → RowPlan env raw
    plan-incomplete h = (
      none,
      λ s. ap (λ t. t.readings) (handle_uplink_incomplete s h),
      unfold planned row_of_uplink in ground arith,
    )

    module _
        (complete : (pm_present d.sensors_present && env_present d.sensors_present) ≡ true) where
      plan-invalid : is_sensor_reading (reading_of env u d) ≡ false → RowPlan env raw
      plan-invalid v = (
        none,
        λ s. rw (handle-data s) (unfold ingest_reading in ground arith),
        unfold planned row_of_uplink in ground arith,
      )

      pub handle-valid :
          (s : State)
          → is_sensor_reading (reading_of env u d) ≡ true
          → handle_uplink env raw s
            ≡ settle (store_reading env (reading_of env u d) (index_of (reading_of env u d)) s)
      handle-valid s v = rw (handle-data s) (unfold ingest_reading reading_of in ground arith)

      plan-valid : is_sensor_reading (reading_of env u d) ≡ true → RowPlan env raw
      plan-valid v =
          by_cases env.database_answers
            (λ b. (
              some (row_of (reading_of env u d) (index_of (reading_of env u d))),
              λ s. rw (handle-valid s v) (unfold store_reading in ground arith),
              unfold planned row_of_uplink in ground arith,
            ))
            (λ b. (
              none,
              λ s. rw (handle-valid s v) (unfold store_reading in ground arith),
              unfold planned row_of_uplink in ground arith,
            ))

    plan-decoded : RowPlan env raw
    plan-decoded =
        by_cases (pm_present d.sensors_present && env_present d.sensors_present)
          (λ c. by_cases (is_sensor_reading (reading_of env u d)) (plan-valid c) (plan-invalid c))
          plan-incomplete

    -- A message whose payload decodes with both sensor groups present and whose reading passes the
    -- schema has, if every server answers, these effects: its sensor and time have a row, the latest
    -- value of its device is its reading with two hours to live, its event is published, and one
    -- ingested reading is counted under its category.
    pub handle_uplink_complete :
        (s : State)
        → (pm_present d.sensors_present && env_present d.sensors_present) ≡ true
        → is_sensor_reading (reading_of env u d) ≡ true
        → env.database_answers ≡ true
        → env.set_answers ≡ true
        → env.publish_answers ≡ true
        → let r = reading_of env u d in
          let s' = handle_uplink env raw s in
          (any (same_key (row_of r (index_of r))) s'.readings ≡ true)
          × (get r.device_id s'.latest
              ≡ some (record {
                value = payload_of r (index_of r);
                expires = env.redis_now + latest_ttl_seconds * 1000;
              }))
          × (s'.published ≡ reading_created (payload_of r (index_of r)) ∷ s.published)
          × (s'.metrics ≡ readings_ingested (index_of r).category ∷ s.metrics)
    handle_uplink_complete s c v b st p =
        let r = reading_of env u d in
        let row = row_of r (index_of r) in
        rw (handle-valid c s v, stored_state env r s b st p)
          (any-insert_row row s.readings, rw (get-put, eq_refl r.device_id) refl, refl, refl)

  plan-data : port_is u.f_port data_fport ≡ true → RowPlan env raw
  plan-data port = elim (Result-cases (decode_uplink (env.from_base64 u.data_base64))) [
    | inl (d, dec) ↦ plan-decoded port d dec
    | inr (e, dec) ↦ (
      none,
      λ s. unfold handle_uplink process_uplink ingest_reading in ground arith,
      unfold planned row_of_uplink in ground arith,
    )
  ]

  plan-other : port_is u.f_port data_fport ≡ false → RowPlan env raw
  plan-other port = (
    none,
    λ s. unfold handle_uplink process_uplink handle_config_report in ground arith,
    unfold planned row_of_uplink in ground arith,
  )

  plan-read : RowPlan env raw
  plan-read = by_cases (port_is u.f_port data_fport) plan-data plan-other

  -- A config report changes no row, no latest value and no event. If it decodes and Redis answers,
  -- the device's cached settings become the reported ones, other devices keep theirs, and nothing is
  -- counted; otherwise the settings stay and one dropped reading is counted, with reason `error`.
  pub handle_uplink_config :
      (s : State)
      → port_is u.f_port config_report_fport ≡ true
      → let s' = handle_uplink env raw s in
        (s'.readings ≡ s.readings)
        × (s'.latest ≡ s.latest)
        × (s'.published ≡ s.published)
        × ((r : ConfigReport)
            → decode_config_report (env.from_base64 u.data_base64) ≡ ok r
            → env.set_answers ≡ true
            → (s'.metrics ≡ s.metrics)
              × ((j : String)
                  → get j s'.configs ≡ (
                      if str_eq u.dev_eui j
                      then some (config_of env u.dev_eui u.time r)
                      else get j s.configs)))
        × (((e : CodecError) × (decode_config_report (env.from_base64 u.data_base64) ≡ throw e))
              ⊎ (env.set_answers ≡ false)
            → (s'.configs ≡ s.configs) × (s'.metrics ≡ readings_dropped error ∷ s.metrics))
  handle_uplink_config s port = (
    unfold handle_uplink process_uplink handle_config_report in ground arith,
    unfold handle_uplink process_uplink handle_config_report in ground arith,
    unfold handle_uplink process_uplink handle_config_report in ground arith,
    λ r dec ans. (
      unfold handle_uplink process_uplink handle_config_report in ground arith,
      λ j.
          unfold handle_uplink process_uplink handle_config_report in
          ground (arith, get-put u.dev_eui j (config_of env u.dev_eui u.time r) s.configs),
    ),
    λ h. unfold handle_uplink process_uplink handle_config_report in ground arith,
  )

pub row_plan : (env : Env) (raw : String) → RowPlan env raw
row_plan env raw = elim (Option-cases (env.parse_envelope raw)) [
  | inl unread ↦ (
    none,
    λ s. unfold handle_uplink process_uplink in ground arith,
    unfold planned row_of_uplink in ground arith,
  )
  | inr (u, read) ↦ plan-read env raw u read
]
