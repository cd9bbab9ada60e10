-- ===== src/Ingestion/Examples.antt =====
-- The ingestion theorems at concrete messages.
use air_quality_monitoring.Base.{
  ℕ, ◌+◌, ◌*◌, ◌≡◌, refl, true, false, Option, subst, ◌⊎◌, none, some, [], ◌∷◌, any,
}
use air_quality_monitoring.Base.Maps.{get}
use air_quality_monitoring.Base.Int.{pos, negsuc}
use air_quality_monitoring.Codec.Words.{Bytes}
use air_quality_monitoring.Codec.Uplink.{decode_uplink, read_payload, presence}
use air_quality_monitoring.Contracts.Events.{ChirpStackUplink, reading_created}
use air_quality_monitoring.Contracts.Reading.{SensorReading, is_sensor_reading}
use air_quality_monitoring.Ingestion.State.{
  State, Env, incomplete_sensors, readings_dropped, readings_ingested, same_key,
}
use air_quality_monitoring.Ingestion.Handler.{
  handle_uplink, reading_of, row_of, payload_of, time_or_now, rounded_rssi,
}
use air_quality_monitoring.Ingestion.Effects.{index_of}
use air_quality_monitoring.Ingestion.Invariant.{IsConsistent, handle_all, handle_all-IsConsistent}
use air_quality_monitoring.Ingestion.Delivery.{handle_uplink_incomplete, handle_uplink_complete}
use air_quality_monitoring.Ingestion.Redelivery.{
  Moment, at_moment, HasTime, handle_uplink_redelivered,
}
use air_quality_monitoring.Ingestion.Admission.{IsUntouched, IsAdmitted, handle_uplink-IsAdmitted}
use air_quality_monitoring.Base.Strings.{String}
use air_quality_monitoring.Codec.Uplink.{DecodedPayload}

abbrev pub empty : State
empty = record { readings = []; latest = []; configs = []; published = []; metrics = [] }

abbrev pub uplink_on : ℕ → ChirpStackUplink
uplink_on port = record {
  dev_eui = "0011223344556677";
  device_name = none;
  application_id = none;
  f_port = some (pos port);
  f_cnt = some (pos 1);
  data_base64 = "ewDIAW0IrhX1A3QOMQ==";
  time = some "2026-01-01T00:00:00Z";
  rx_info = some (record { gateway_id = none; rssi = some (negsuc 9549); snr = none } ∷ []);
}

-- The time of an envelope that can be read.
abbrev time_of : Option ChirpStackUplink → Option String
time_of none = none
time_of (some u) = u.time

abbrev pub message : Bytes
message = 123 ∷ 0 ∷ 200 ∷ 1 ∷ 109 ∷ 8 ∷ 174 ∷ 21 ∷ 245 ∷ 3 ∷ 116 ∷ 14 ∷ 0x31 ∷ []

-- The same node with a dead particle sensor.
abbrev partial_message : Bytes
partial_message = 0 ∷ 0 ∷ 0 ∷ 0 ∷ 109 ∷ 8 ∷ 174 ∷ 21 ∷ 245 ∷ 3 ∷ 116 ∷ 14 ∷ 0x21 ∷ []

abbrev report_message : Bytes
report_message = 1 ∷ 1 ∷ 1 ∷ 88 ∷ 2 ∷ 0 ∷ 0 ∷ 0 ∷ 0 ∷ []

-- An environment in which each message is on `port` and holds `bytes`.
abbrev pub serving : ℕ → Bytes → Env
serving port bytes = record {
  parse_envelope = λ raw. some (uplink_on port);
  from_base64 = λ text. bytes;
  parse_date = λ text. some 1767225600000;
  now = 1767225601000;
  redis_now = 1767225601500;
  database_answers = true;
  set_answers = true;
  publish_answers = true;
}

pub empty-IsConsistent : IsConsistent empty
empty-IsConsistent = record { sound = tt; unique = tt; stored = tt; counted = refl }

handle_all-IsConsistent_example : IsConsistent (
    handle_all
      ((serving 2 message, "a") ∷ (serving 2 partial_message, "b") ∷ (serving 2 message, "a") ∷ [])
      empty)
handle_all-IsConsistent_example =
    handle_all-IsConsistent
      ((serving 2 message, "a") ∷ (serving 2 partial_message, "b") ∷ (serving 2 message, "a") ∷ [])
      empty empty-IsConsistent

-- An hour later, when Redis does not answer.
abbrev an_hour_later : Moment
an_hour_later = record {
  now = 1767229201000;
  redis_now = 1767229201500;
  database_answers = true;
  set_answers = false;
  publish_answers = true;
}

uplink-HasTime : HasTime (serving 2 message) "a"
uplink-HasTime u e = (
  "2026-01-01T00:00:00Z",
  1767225600000,
  subst (λ o. time_of o ≡ some "2026-01-01T00:00:00Z") e refl,
  refl,
  refl,
)

handle_uplink_redelivered_example :
    let t =
      handle_all
        ((serving 11 report_message, "c") ∷ [])
        (handle_uplink (serving 2 message) "a" empty) in
    (handle_uplink (at_moment an_hour_later (serving 2 message)) "a" t).readings ≡ t.readings
handle_uplink_redelivered_example =
    handle_uplink_redelivered (serving 2 message) "a" ((serving 11 report_message, "c") ∷ [])
      an_hour_later empty uplink-HasTime refl

handle_uplink-IsAdmitted_example :
    IsUntouched empty (handle_uplink (serving 2 partial_message) "a" empty)
    ⊎ ((u : ChirpStackUplink) × (d : DecodedPayload) × ((serving 2 partial_message).parse_envelope
            "a"
          ≡ some u)
        × IsAdmitted (serving 2 partial_message) u d)
handle_uplink-IsAdmitted_example = handle_uplink-IsAdmitted (serving 2 partial_message) "a" empty

-- A partial reading is only counted.
partial_dropped :
    handle_uplink (serving 2 partial_message) "a" empty
    ≡ record empty { metrics = readings_dropped incomplete_sensors ∷ [] }
unfolding decode_uplink presence
partial_dropped =
    handle_uplink_incomplete (serving 2 partial_message) "a" (uplink_on 2) refl refl
      (read_payload partial_message) refl empty refl

abbrev pub sent : SensorReading
sent = reading_of (serving 2 message) (uplink_on 2) (read_payload message)

handle_uplink_complete_example :
    let s' = handle_uplink (serving 2 message) "a" empty in
    (any (same_key (row_of sent (index_of sent))) s'.readings ≡ true)
    × (get sent.device_id s'.latest
        ≡ some (record {
          value = payload_of sent (index_of sent);
          expires = 1767225601500 + 7200 * 1000;
        }))
    × (s'.published ≡ reading_created (payload_of sent (index_of sent)) ∷ [])
    × (s'.metrics ≡ readings_ingested (index_of sent).category ∷ [])
unfolding decode_uplink presence is_sensor_reading reading_of time_or_now rounded_rssi
handle_uplink_complete_example =
    handle_uplink_complete (serving 2 message) "a" (uplink_on 2) refl refl (read_payload message)
      refl empty refl refl refl refl refl
