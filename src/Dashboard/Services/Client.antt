-- ===== src/Dashboard/Services/Client.antt =====
-- apps/dashboard/src/services/http-sensor-service.ts: its requests and their errors, sensors and hourly
-- buckets, the server's time and the events of the socket; and the choice of services/index.ts. What
-- fetch and the socket report is an argument.
use air_quality_monitoring.Base.{
  ℕ, Bool, true, false, Option, none, some, List, [], ◌∷◌, map, if◌then◌else◌, Result, ok, throw,
  ◌>>=◌,
}
use air_quality_monitoring.Base.Int.{ℤ}
use air_quality_monitoring.Base.Rounding.{Hundredths}
use air_quality_monitoring.Base.Strings.{String, append, str_eq}
use air_quality_monitoring.Dashboard.Config.{DataSourceKind, api, mock}
use air_quality_monitoring.Dashboard.Model.{Sensor, Reading, HourlyPoint, NetworkHourlyPoint}
use air_quality_monitoring.Dashboard.Places.{TextPlatform, slugify, arabic_place_name}
use air_quality_monitoring.Dashboard.Services.{
  ApiReading, Platform, to_reading, get_latest, get_readings,
}

pub record ApiSensor : Type 0 where
  pub id : String
  pub device_id : String
  pub name : String
  pub latitude : ℤ
  pub longitude : ℤ
  pub neighborhood : Option String
  pub is_active : Bool
  pub install_date : Option String

pub record ApiHourlyBucket : Type 0 where
  pub sensor_id : String
  pub bucket : String
  pub avg_pm25 : Hundredths
  pub avg_pm10 : Hundredths
  pub avg_temperature : Hundredths
  pub avg_humidity : Hundredths
  pub max_aqi : ℕ
  pub sample_count : ℕ

pub record ApiNetworkBucket : Type 0 where
  pub bucket : String
  pub avg_pm25 : Hundredths
  pub avg_pm10 : Hundredths
  pub avg_temperature : Hundredths
  pub avg_humidity : Hundredths
  pub max_aqi : ℕ
  pub sensor_count : ℕ

-- An ApiError with its message and status, or the error of a body that is no JSON.
pub data RequestError : Type 0 where
  api_error : String → Option ℕ → RequestError
  bad_json : RequestError

-- How a request ends: fetch rejects, with an Error's message or with another value; or a response
-- comes, with its status, and its body where that is JSON.
pub data Fetched {ℓ} (A : Type ℓ) : Type ℓ where
  rejected : Option String → Fetched A
  answered : ℕ → String → Option A → Fetched A

-- `response.ok` by the status, and the status as a text.
pub record Statuses : Type 0 where
  pub is_ok : ℕ → Bool
  pub to_string : ℕ → String

abbrev pub json_or_throw {ℓ} : {A : Type ℓ} → Option A → Result RequestError A
json_or_throw none = throw bad_json
json_or_throw (some body) = ok body

unfoldable pub request {ℓ} : {A : Type ℓ} → Statuses → Fetched A → Result RequestError A
request statuses (rejected none) = throw (api_error "Network request failed" none)
request statuses (rejected (some message)) = throw (api_error message none)
request statuses (answered status text body) =
    if statuses.is_ok status
    then json_or_throw body
    else throw (api_error (append (statuses.to_string status) (append " " text)) (some status))

-- `text?.trim() || null`
abbrev pub trimmed_or_null : (String → String) → Option String → Option String
trimmed_or_null trim none = none
trimmed_or_null trim (some text) = if str_eq (trim text) "" then none else some (trim text)

abbrev pub text_or_empty : Option String → String
text_or_empty none = ""
text_or_empty (some text) = text

module _ (platform : TextPlatform) where
  unfoldable pub to_sensor : ApiSensor → Sensor
  to_sensor s =
      let neighborhood = trimmed_or_null platform.trim s.neighborhood in
      record {
        id = platform.to_lower_case s.device_id;
        name = s.name;
        name_ar = none;
        neighborhood = neighborhood;
        neighborhood_ar = elim neighborhood [
          | none ↦ none
          | some name ↦ arabic_place_name platform name
        ];
        neighborhood_id = slugify platform (text_or_empty neighborhood);
        latitude = s.latitude;
        longitude = s.longitude;
        is_active = s.is_active;
        install_date = s.install_date;
      }

  unfoldable pub get_sensors :
      Statuses → Fetched (List ApiSensor) → Result RequestError (List Sensor)
  unfolding request
  get_sensors statuses fetched = do rows ← request statuses fetched; ok (map to_sensor rows)

module _ (platform : Platform) (statuses : Statuses) where
  unfoldable pub fetch_latest : Fetched (List ApiReading) → Result RequestError (List Reading)
  unfolding request
  fetch_latest fetched = do rows ← request statuses fetched; ok (get_latest platform rows)

  unfoldable pub fetch_readings : Fetched (List ApiReading) → Result RequestError (List Reading)
  unfolding request
  fetch_readings fetched = do rows ← request statuses fetched; ok (get_readings platform rows)

  -- `updatedAt`, where a text that is no date is an error.
  unfoldable pub get_server_time : Fetched String → Result RequestError ℕ
  unfolding request
  get_server_time fetched = do
    updated_at ← request statuses fetched
    elim (platform.parse_date updated_at) [
      | none ↦ throw (api_error "The server did not report its time" none)
      | some time ↦ ok time
    ]

-- The buckets' times are texts of toISOString, which Date.parse reads: `instant`.
module _ (to_lower_case : String → String) (instant : String → ℕ) (statuses : Statuses) where
  unfoldable pub to_hourly : ApiHourlyBucket → HourlyPoint
  to_hourly b = record {
    sensor_id = to_lower_case b.sensor_id;
    time = instant b.bucket;
    pm25 = b.avg_pm25;
    pm10 = b.avg_pm10;
    temperature = b.avg_temperature;
    humidity = b.avg_humidity;
    max_aqi = b.max_aqi;
    samples = b.sample_count;
  }

  unfoldable pub get_hourly :
      Fetched (List ApiHourlyBucket) → Result RequestError (List HourlyPoint)
  unfolding request
  get_hourly fetched = do rows ← request statuses fetched; ok (map to_hourly rows)

module _ (instant : String → ℕ) (statuses : Statuses) where
  unfoldable pub to_network_point : ApiNetworkBucket → NetworkHourlyPoint
  to_network_point b = record {
    time = instant b.bucket;
    pm25 = b.avg_pm25;
    pm10 = b.avg_pm10;
    temperature = b.avg_temperature;
    humidity = b.avg_humidity;
    max_aqi = b.max_aqi;
    sensors = b.sensor_count;
  }

  unfoldable pub get_network_hourly :
      Fetched (List ApiNetworkBucket) → Result RequestError (List NetworkHourlyPoint)
  unfolding request
  get_network_hourly fetched = do rows ← request statuses fetched; ok (map to_network_point rows)

-- What the socket reports, and the calls of the handlers that follow.
pub data SocketEvent : Type 0 where
  connect disconnect connect_error : SocketEvent
  incoming : ApiReading → SocketEvent

pub data HandlerCall : Type 0 where
  on_reading : Reading → HandlerCall
  on_connection : Bool → HandlerCall

unfoldable pub on_event : Platform → SocketEvent → List HandlerCall
on_event platform connect = on_connection true ∷ []
on_event platform disconnect = on_connection false ∷ []
on_event platform connect_error = on_connection false ∷ []
on_event platform (incoming payload) = elim (to_reading platform payload) [
  | none ↦ []
  | some reading ↦ on_reading reading ∷ []
]

-- createSensorService: the mock only in development.
unfoldable pub service_kind : Bool → DataSourceKind → DataSourceKind
service_kind dev mock = if dev then mock else api
service_kind dev api = api
