-- ===== src/Ingestion/State.antt =====
-- The stores that the ingestion service writes, and its single writes. A write fails if its server
-- does not answer, and then changes nothing. Tables and logs are lists, newest first.
use air_quality_monitoring.Base.{
  ℕ, Bool, true, false, ◌&&◌, Option, List, ◌∷◌, ◌==◌, if◌then◌else◌, any, throw,
}
use air_quality_monitoring.Base.Actions.{Action, modify, lift}
use air_quality_monitoring.Base.Int.{ℤ}
use air_quality_monitoring.Base.Rounding.{Hundredths}
use air_quality_monitoring.Base.Strings.{String, str_eq}
use air_quality_monitoring.Codec.Errors.{CodecError}
use air_quality_monitoring.Codec.Words.{Bytes}
use air_quality_monitoring.Contracts.Events.{AppEvent, ChirpStackUplink}
use air_quality_monitoring.Contracts.Reading.{ReadingResponse}
use air_quality_monitoring.Domain.Aqi.{AqiCategory}

-- A row of the hypertable `readings`.
pub record Row : Type 0 where
  pub time : ℕ
  pub sensor_id : String
  pub pm25 : Hundredths
  pub pm10 : Hundredths
  pub temperature : Hundredths
  pub humidity : Hundredths
  pub pressure : Option Hundredths
  pub aqi : ℕ
  pub aqi_category : AqiCategory
  pub battery_mv : Option Hundredths
  pub signal_strength : Option Hundredths

-- The settings that a node reported, as they are cached.
pub record NodeConfig : Type 0 where
  pub device_id : String
  pub interval_s : ℤ
  pub pm_offset : Hundredths
  pub temperature_offset : Hundredths
  pub last_command : ℕ
  pub last_result : String
  pub reported_at : ℕ

pub data DropReason : Type 0 where
  no_sensors incomplete_sensors error : DropReason

-- One `add(1, …)` of the two counters.
pub data Metric : Type 0 where
  readings_ingested : AqiCategory → Metric
  readings_dropped : DropReason → Metric

-- A cached value with the time at which Redis forgets it.
pub record Cached : Type 0 where
  pub value : ReadingResponse
  pub expires : ℕ

pub record State : Type 0 where
  pub readings : List Row
  pub latest : List (String × Cached)
  pub configs : List (String × NodeConfig)
  pub published : List AppEvent
  pub metrics : List Metric

pub data IngestError : Type 0 where
  envelope_error : IngestError
  codec_error : CodecError → IngestError
  contract_error : IngestError
  database_error : IngestError
  redis_error : IngestError

-- What is not the service's own: JSON and the envelope's schema, base64, dates, the clocks, and
-- whether each server answers. `parse_date` is `none` where `Date.parse` is NaN.
pub record Env : Type 0 where
  pub parse_envelope : String → Option ChirpStackUplink
  pub from_base64 : String → Bytes
  pub parse_date : String → Option ℕ
  pub now : ℕ
  pub redis_now : ℕ
  pub database_answers : Bool
  pub set_answers : Bool
  pub publish_answers : Bool

abbrev pub Ingest : Type 0 → Type 0
Ingest = Action State IngestError

-- The primary key of `readings`.
abbrev pub same_key : Row → Row → Bool
same_key a b = str_eq a.sensor_id b.sensor_id && (a.time == b.time)

-- `insert … onConflictDoNothing`
unfoldable pub insert_row : Row → List Row → List Row
insert_row row rows = if any (same_key row) rows then rows else row ∷ rows

-- `f` if the server answers, else an error and no change.
abbrev pub write : Bool → IngestError → (State → State) → Ingest (Unit {0})
write true e f = modify f
write false e f = lift (throw e)

abbrev pub count_metric : Metric → Ingest (Unit {0})
count_metric m = modify (λ s. record s { metrics = m ∷ s.metrics })
