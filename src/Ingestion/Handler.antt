-- ===== src/Ingestion/Handler.antt =====
-- `handleUplink` and `handleConfigReport`.
use air_quality_monitoring.Base.{
  ℕ, ◌+◌, ◌*◌, Bool, false, not, ◌&&◌, ◌||◌, Option, none, some, List, [], ◌∷◌, ◌==◌, if◌then◌else◌,
  Result, ok, throw,
}
use air_quality_monitoring.Base.Actions.{pure, lift, ◌>>=◌, ◌>>◌}
use air_quality_monitoring.Base.Maps.{put}
use air_quality_monitoring.Base.Int.{ℤ, pos, negsuc, ◌*ℤ◌}
use air_quality_monitoring.Base.Rounding.{Hundredths, round_div}
use air_quality_monitoring.Base.Strings.{String, str_eq}
use air_quality_monitoring.Codec.Errors.{CodecError}
use air_quality_monitoring.Codec.ConfigReport.{
  ConfigReport, decode_config_report, config_report_fport,
}
use air_quality_monitoring.Codec.Uplink.{DecodedPayload, SensorsPresent, decode_uplink}
use air_quality_monitoring.Contracts.Events.{reading_created, RxInfo, ChirpStackUplink}
use air_quality_monitoring.Contracts.Reading.{SensorReading, ReadingResponse, is_sensor_reading}
use air_quality_monitoring.Domain.Aqi.{AqiResult, calculate_aqi}
use air_quality_monitoring.Ingestion.State.{
  Row, NodeConfig, no_sensors, incomplete_sensors, error, readings_ingested, readings_dropped,
  State, IngestError, envelope_error, codec_error, contract_error, database_error, redis_error, Env,
  Ingest, insert_row, write, count_metric,
}

abbrev pub data_fport : ℕ
data_fport = 2

abbrev pub latest_ttl_seconds : ℕ
latest_ttl_seconds = 7200

-- `RESULT_NAMES`
abbrev pub result_name : ℕ → String
result_name r =
    if r == 0
    then "none"
    else if r == 1
    then "applied"
    else if r == 2
    then "out_of_range"
    else "malformed"

-- `port === k`
abbrev pub port_is : Option ℤ → ℕ → Bool
port_is none k = false
port_is (some (pos p)) k = p == k
port_is (some (negsuc p)) k = false

-- The time that the envelope gives, if it is a date, else the clock.
unfoldable pub time_or_now : Env → Option String → ℕ
time_or_now env none = env.now
time_or_now env (some t) =
    if str_eq t "" then env.now else elim (env.parse_date t) [ none ↦ env.now | some ms ↦ ms ]

abbrev pub decoded_ok : {A : Type 0} → Result CodecError A → Result IngestError A
decoded_ok (ok a) = ok a
decoded_ok (throw e) = throw (codec_error e)

abbrev pub parsed_envelope : Option ChirpStackUplink → Result IngestError ChirpStackUplink
parsed_envelope none = throw envelope_error
parsed_envelope (some u) = ok u

-- `decoded.sensorsPresent?.pm`
abbrev pub pm_present : Option SensorsPresent → Bool
pm_present none = false
pm_present (some s) = s.pm

abbrev pub env_present : Option SensorsPresent → Bool
env_present none = false
env_present (some s) = s.env

-- `uplink.rxInfo?.[0]?.rssi`
abbrev pub first_rssi : Option (List RxInfo) → Option Hundredths
first_rssi none = none
first_rssi (some []) = none
first_rssi (some (info ∷ more)) = info.rssi

unfoldable pub rounded_rssi : Option Hundredths → Option Hundredths
unfolding round_div ◌*ℤ◌
rounded_rssi none = none
rounded_rssi (some rssi) = some (round_div rssi 100 *ℤ 100)

-- The object that is validated.
unfoldable pub reading_of : Env → ChirpStackUplink → DecodedPayload → SensorReading
reading_of env uplink decoded = record {
  device_id = uplink.dev_eui;
  timestamp = time_or_now env uplink.time;
  pm25 = decoded.pm25;
  pm10 = decoded.pm10;
  pm1 = none;
  temperature = decoded.temperature;
  humidity = decoded.humidity;
  pressure = some decoded.pressure;
  battery_mv = some decoded.battery_mv;
  signal_strength = rounded_rssi (first_rssi uplink.rx_info);
}

-- `SensorReadingSchema.parse`
abbrev pub parse_reading : SensorReading → Result IngestError SensorReading
parse_reading r = if is_sensor_reading r then ok r else throw contract_error

unfoldable pub row_of : SensorReading → AqiResult → Row
row_of r a = record {
  time = r.timestamp;
  sensor_id = r.device_id;
  pm25 = r.pm25;
  pm10 = r.pm10;
  temperature = r.temperature;
  humidity = r.humidity;
  pressure = r.pressure;
  aqi = a.aqi;
  aqi_category = a.category;
  battery_mv = r.battery_mv;
  signal_strength = r.signal_strength;
}

unfoldable pub payload_of : SensorReading → AqiResult → ReadingResponse
payload_of r a = record {
  reading = r;
  id = record { device = r.device_id; at = r.timestamp };
  sensor_id = r.device_id;
  aqi = a.aqi;
  aqi_category = a.category;
}

-- Steps 4 and 5: the row, the latest value, the event, the counter.
unfoldable pub store_reading : Env → SensorReading → AqiResult → Ingest (Unit {0})
store_reading env r a = do
  write env.database_answers database_error
      (λ s. record s { readings = insert_row (row_of r a) s.readings })
  write env.set_answers redis_error (λ s. record s {
    latest =
        put r.device_id
          (record { value = payload_of r a; expires = env.redis_now + latest_ttl_seconds * 1000 })
          s.latest;
  })
  write env.publish_answers redis_error
      (λ s. record s { published = reading_created (payload_of r a) ∷ s.published })
  count_metric (readings_ingested a.category)

-- From step 2 on: an uplink on the data port.
unfoldable pub ingest_reading : Env → ChirpStackUplink → Ingest (Unit {0})
ingest_reading env uplink = do
  decoded ← lift (decoded_ok (decode_uplink (env.from_base64 uplink.data_base64)))
  let pm = pm_present decoded.sensors_present
  let climate = env_present decoded.sensors_present
  if not pm && not climate
      then count_metric (readings_dropped no_sensors)
      else if not pm || not climate
      then count_metric (readings_dropped incomplete_sensors)
      else (do
        reading ← lift (parse_reading (reading_of env uplink decoded))
        store_reading env reading (calculate_aqi decoded.pm25 decoded.pm10))

-- `pmOffsetX10 / 10` and `tempOffsetX100 / 100`, in hundredths.
unfoldable pub config_of : Env → String → Option String → ConfigReport → NodeConfig
config_of env device time report = record {
  device_id = device;
  interval_s = report.interval_s;
  pm_offset = report.pm_offset_x10 *ℤ 10;
  temperature_offset = report.temp_offset_x100;
  last_command = report.last_command;
  last_result = result_name report.last_result;
  reported_at = time_or_now env time;
}

unfoldable pub handle_config_report : Env → String → String → Option String → Ingest (Unit {0})
handle_config_report env device data_base64 time = do
  report ← lift (decoded_ok (decode_config_report (env.from_base64 data_base64)))
  write env.set_answers redis_error
      (λ s. record s { configs = put device (config_of env device time report) s.configs })

-- The body of the `try`.
unfoldable pub process_uplink : Env → String → Ingest (Unit {0})
process_uplink env raw = do
  uplink ← lift (parsed_envelope (env.parse_envelope raw))
  if port_is uplink.f_port config_report_fport
      then handle_config_report env uplink.dev_eui uplink.data_base64 uplink.time
      else if not (port_is uplink.f_port data_fport)
      then pure tt
      else ingest_reading env uplink

-- The `catch`.
abbrev pub settle : Result IngestError (Unit {0}) × State → State
settle (ok _, s) = s
settle (throw e, s) = record s { metrics = readings_dropped error ∷ s.metrics }

unfoldable pub handle_uplink : Env → String → State → State
handle_uplink env raw s = settle (process_uplink env raw s)
