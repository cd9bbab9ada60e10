-- ===== src/Api/Readings/EndToEnd.antt =====
-- From the radio to the dashboard: ingestion, the API and the dashboard's service together.
use air_quality_monitoring.Base.{
  ℕ, ◌+◌, ◌*◌, ◌<◌, ◌≡◌, refl, subst, true, ◌&&◌, Option, none, some, List, [], ◌∷◌, map, arith,
  All, ok,
}
use air_quality_monitoring.Base.Int.{ℤ}
use air_quality_monitoring.Base.Rounding.{Hundredths}
use air_quality_monitoring.Base.Maps.{get}
use air_quality_monitoring.Base.Strings.{String}
use air_quality_monitoring.Codec.Uplink.{DecodedPayload, decode_uplink}
use air_quality_monitoring.Contracts.Events.{AppEvent, reading_created, ChirpStackUplink}
use air_quality_monitoring.Contracts.Reading.{ReadingResponse, is_sensor_reading}
use air_quality_monitoring.Ingestion.State.{Row, Cached, State, Env}
use air_quality_monitoring.Ingestion.Handler.{
  reading_of, payload_of, handle_uplink, latest_ttl_seconds, pm_present, env_present, port_is,
  data_fport,
}
use air_quality_monitoring.Ingestion.Effects.{index_of}
use air_quality_monitoring.Ingestion.Invariant.{IsConsistent, handle_all, handle_all-IsConsistent}
use air_quality_monitoring.Ingestion.Delivery.{handle_uplink_complete}
use air_quality_monitoring.Api.Readings.{readings, redis_get, latest, relay}
use air_quality_monitoring.Api.Readings.Chronology.{Falling, readings_window}
use air_quality_monitoring.Dashboard.Store.Window.{Sorted}
use air_quality_monitoring.Dashboard.Services.{ApiReading, Platform, get_readings}
use air_quality_monitoring.Dashboard.Services.Order.{IsBefore, IsNewestFirst, get_readings-Sorted}

-- How a row is written in JSON: `toISOString` for its time, and the whole numbers.
pub record Json : Type 0 where
  pub to_iso : ℕ → String
  pub whole : Hundredths → ℤ

abbrev whole_of : (Hundredths → ℤ) → Option Hundredths → Option ℤ
whole_of whole none = none
whole_of whole (some x) = some (whole x)

-- A row as the dashboard receives it.
abbrev pub to_api : Json → Row → ApiReading
to_api json row = record {
  time = some (json.to_iso row.time);
  timestamp = none;
  sensor_id = some row.sensor_id;
  device_id = none;
  pm25 = row.pm25;
  pm10 = row.pm10;
  temperature = row.temperature;
  humidity = row.humidity;
  pressure = row.pressure;
  aqi = row.aqi;
  battery_mv = whole_of json.whole row.battery_mv;
  signal_strength = whole_of json.whole row.signal_strength;
}

module _ (json : Json) (platform : Platform)
    (parse_iso : (t : ℕ) → platform.parse_date (json.to_iso t) ≡ some t) where
  to_api-IsBefore :
      (t : ℕ) (rows : List Row)
      → All (λ q. q.time < t) rows
      → All (IsBefore platform t) (map (to_api json) rows)
  to_api-IsBefore t [] h = tt
  to_api-IsBefore t (r ∷ rows) (h, hs) =
      (λ u e. ground (arith, parse_iso r.time), to_api-IsBefore t rows hs)

  to_api-IsNewestFirst :
      (rows : List Row) → Falling rows → IsNewestFirst platform (map (to_api json) rows)
  to_api-IsNewestFirst [] f = tt
  to_api-IsNewestFirst (r ∷ rows) (f, fs) = (
    λ t e.
        to_api-IsBefore t rows
          (subst (λ t. All (λ q. q.time < t) rows) (ground (arith, parse_iso r.time, e)) f),
    to_api-IsNewestFirst rows fs,
  )

  -- Take the dashboard's readings of a device from the API, after any sequence of messages to the
  -- ingestion service from consistent stores. They are in order of time, as the dashboard wants them.
  pub served-Sorted :
      (messages : List (Env × String)) (s : State) (now : ℕ) (device : String)
      (hours : Option Hundredths)
      → IsConsistent s
      → Sorted (
          get_readings platform
            (map (to_api json) (readings now device hours (handle_all messages s).readings)))
  served-Sorted messages s now device hours w =
      let w' = handle_all-IsConsistent messages s w in
      let (in_window, falling, n) =
        readings_window now device hours (handle_all messages s).readings w'.unique in
      get_readings-Sorted platform _ (to_api-IsNewestFirst _ falling)

latest-eq :
    (now : ℕ) (device : String) (value : ReadingResponse) (expires : ℕ)
    (cache : List (String × Cached))
    → get device cache ≡ some (record { value = value; expires = expires })
    → now < expires
    → latest now cache device ≡ ok value
unfolding latest redis_get
latest-eq now device value expires cache at l = ground (arith, at)

-- A message whose payload decodes with both sensor groups present and whose reading passes the schema
-- is, if every server answers, the latest reading that the API serves for its device, until it expires
-- after two hours; and it is the reading that the clients are sent on the event that is published,
-- where the text of that event is read back.
pub handle_uplink-served :
    (env : Env) (raw : String) (u : ChirpStackUplink) (d : DecodedPayload) (s : State)
    → env.parse_envelope raw ≡ some u
    → port_is u.f_port data_fport ≡ true
    → decode_uplink (env.from_base64 u.data_base64) ≡ ok d
    → (pm_present d.sensors_present && env_present d.sensors_present) ≡ true
    → is_sensor_reading (reading_of env u d) ≡ true
    → env.database_answers ≡ true
    → env.set_answers ≡ true
    → env.publish_answers ≡ true
    → (to_json : AppEvent → String) (parse : String → Option AppEvent)
    → (let e = reading_created (payload_of (reading_of env u d) (index_of (reading_of env u d))) in
        parse (to_json e) ≡ some e)
    → let r = reading_of env u d in
      let s' = handle_uplink env raw s in
      ((now : ℕ)
        → now < env.redis_now + latest_ttl_seconds * 1000
        → latest now s'.latest r.device_id ≡ ok (payload_of r (index_of r)))
      × ((event : AppEvent) × (before : List AppEvent) × (s'.published ≡ event ∷ before)
          × (relay (parse (to_json event)) [] ≡ payload_of r (index_of r) ∷ []))
unfolding relay
handle_uplink-served env raw u d s read port dec both valid base cache channel to_json parse back =
    let r = reading_of env u d in
    let (row, at, event, counted) =
      handle_uplink_complete env raw u read port d dec s both valid base cache channel in
    (
      λ now l. latest-eq now r.device_id (payload_of r (index_of r)) _ _ at l,
      (reading_created (payload_of r (index_of r)), s.published, event, rw back refl),
    )
