-- ===== src/Ingestion/Effects.antt =====
-- Everything that one message can do to the stores, by cases.
use air_quality_monitoring.Base.{
  ◌+◌, ◌*◌, ◌≡◌, ◌≢◌, true, some, ◌∷◌, arith, ok, by_cases, Option-cases, Result-cases, inl, inr,
}
use air_quality_monitoring.Base.Maps.{put}
use air_quality_monitoring.Base.Strings.{String}
use air_quality_monitoring.Codec.ConfigReport.{decode_config_report, config_report_fport}
use air_quality_monitoring.Codec.Uplink.{DecodedPayload, decode_uplink}
use air_quality_monitoring.Contracts.Events.{reading_created, ChirpStackUplink}
use air_quality_monitoring.Contracts.Reading.{SensorReading, is_sensor_reading}
use air_quality_monitoring.Domain.Aqi.{AqiResult, calculate_aqi}
use air_quality_monitoring.Ingestion.State.{
  NodeConfig, DropReason, no_sensors, incomplete_sensors, error, readings_ingested,
  readings_dropped, State, Env, insert_row,
}
use air_quality_monitoring.Ingestion.Handler.{
  reading_of, row_of, payload_of, store_reading, ingest_reading, handle_config_report, config_of,
  process_uplink, settle, handle_uplink, latest_ttl_seconds, pm_present, env_present, port_is,
  data_fport,
}

abbrev pub index_of : SensorReading → AqiResult
index_of r = calculate_aqi r.pm25 r.pm10

abbrev pub with_row : SensorReading → State → State
with_row r s = record s { readings = insert_row (row_of r (index_of r)) s.readings }

abbrev pub with_latest : Env → SensorReading → State → State
with_latest env r s = record s {
  latest =
      put r.device_id
        (record {
          value = payload_of r (index_of r);
          expires = env.redis_now + latest_ttl_seconds * 1000;
        })
        s.latest;
}

abbrev pub with_event : SensorReading → State → State
with_event r s = record s { published = reading_created (payload_of r (index_of r)) ∷ s.published }

abbrev pub with_ingested : SensorReading → State → State
with_ingested r s = record s { metrics = readings_ingested (index_of r).category ∷ s.metrics }

abbrev pub with_dropped : DropReason → State → State
with_dropped reason s = record s { metrics = readings_dropped reason ∷ s.metrics }

-- What a message does: nothing; a drop; a cached configuration; an error before the row, after the
-- row, or after the row and the cached value; or all of the steps.
pub data Effect (env : Env) (s s' : State) : Type 0 where
  ignored : s' ≡ s → Effect env s s'
  incomplete : (reason : DropReason) → reason ≢ error → s' ≡ with_dropped reason s → Effect env s s'
  configured :
      (device : String) (config : NodeConfig)
      → s' ≡ record s { configs = put device config s.configs }
      → Effect env s s'
  failed : s' ≡ with_dropped error s → Effect env s s'
  failed_at_cache :
      (r : SensorReading)
      → is_sensor_reading r ≡ true
      → s' ≡ with_dropped error (with_row r s)
      → Effect env s s'
  failed_at_channel :
      (r : SensorReading)
      → is_sensor_reading r ≡ true
      → s' ≡ with_dropped error (with_latest env r (with_row r s))
      → Effect env s s'
  ingested :
      (r : SensorReading)
      → is_sensor_reading r ≡ true
      → s' ≡ with_ingested r (with_event r (with_latest env r (with_row r s)))
      → Effect env s s'

no_sensors-ne-error : no_sensors ≢ error
no_sensors-ne-error = ground arith

incomplete-ne-error : incomplete_sensors ≢ error
incomplete-ne-error = ground arith

store-Effect :
    (env : Env) (r : SensorReading) (s : State)
    → is_sensor_reading r ≡ true
    → Effect env s (settle (store_reading env r (index_of r) s))
unfolding store_reading
store-Effect env r s v =
    by_cases env.database_answers
      (λ d.
        by_cases env.set_answers
          (λ c.
            by_cases env.publish_answers (λ p. ingested r v (ground arith))
              (λ p. failed_at_channel r v (ground arith)))
          (λ c. failed_at_cache r v (ground arith)))
      (λ d. failed (ground arith))

module _ (env : Env) (u : ChirpStackUplink) (s : State) where
  module _ (d : DecodedPayload) (dec : decode_uplink (env.from_base64 u.data_base64) ≡ ok d) where
    ingest_complete :
        pm_present d.sensors_present ≡ true
        → env_present d.sensors_present ≡ true
        → is_sensor_reading (reading_of env u d) ≡ true
        → ingest_reading env u s
          ≡ store_reading env (reading_of env u d) (index_of (reading_of env u d)) s
    unfolding ingest_reading reading_of
    ingest_complete p e v = ground arith

    complete-Effect :
        pm_present d.sensors_present ≡ true
        → env_present d.sensors_present ≡ true
        → Effect env s (settle (ingest_reading env u s))
    complete-Effect p e =
        by_cases (is_sensor_reading (reading_of env u d))
          (λ v. rw (ingest_complete p e v) (store-Effect env (reading_of env u d) s v))
          (λ v. failed (unfold ingest_reading in ground arith))

    decoded-Effect : Effect env s (settle (ingest_reading env u s))
    decoded-Effect =
        by_cases (pm_present d.sensors_present)
          (λ p.
            by_cases (env_present d.sensors_present) (λ e. complete-Effect p e)
              (λ e.
                incomplete incomplete_sensors incomplete-ne-error
                  (unfold ingest_reading in ground arith)))
          (λ p.
            by_cases (env_present d.sensors_present)
              (λ e.
                incomplete incomplete_sensors incomplete-ne-error
                  (unfold ingest_reading in ground arith))
              (λ e.
                incomplete no_sensors no_sensors-ne-error (unfold ingest_reading in ground arith)))

  ingest-Effect : Effect env s (settle (ingest_reading env u s))
  ingest-Effect = elim (Result-cases (decode_uplink (env.from_base64 u.data_base64))) [
    | inl (d, dec) ↦ decoded-Effect d dec
    | inr (e, dec) ↦ failed (unfold ingest_reading in ground arith)
  ]

  report-Effect : Effect env s (settle (handle_config_report env u.dev_eui u.data_base64 u.time s))
  report-Effect = elim (Result-cases (decode_config_report (env.from_base64 u.data_base64))) [
    | inl (r, dec) ↦
        by_cases env.set_answers
          (λ c.
            configured u.dev_eui (config_of env u.dev_eui u.time r)
              (unfold handle_config_report in ground arith))
          (λ c. failed (unfold handle_config_report in ground arith))
    | inr (e, dec) ↦ failed (unfold handle_config_report in ground arith)
  ]

  dispatch-Effect :
      (raw : String) → env.parse_envelope raw ≡ some u → Effect env s (handle_uplink env raw s)
  unfolding handle_uplink process_uplink
  dispatch-Effect raw e =
      by_cases (port_is u.f_port config_report_fport) (λ p. rw (e, p) report-Effect)
        (λ p.
          by_cases (port_is u.f_port data_fport) (λ q. rw (e, p, q) ingest-Effect)
            (λ q. ignored (ground arith)))

pub handle_uplink-Effect :
    (env : Env) (raw : String) (s : State) → Effect env s (handle_uplink env raw s)
handle_uplink-Effect env raw s = elim (Option-cases (env.parse_envelope raw)) [
  | inl none_read ↦ failed (unfold handle_uplink process_uplink in ground arith)
  | inr (u, e) ↦ dispatch-Effect env u s raw e
]
