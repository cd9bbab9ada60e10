-- ===== src/Contracts/Events.antt =====
-- packages/contracts/src/events.ts: the realtime event and the uplink envelope of ChirpStack.
use air_quality_monitoring.Base.{ℕ, Bool, Option, List}
use air_quality_monitoring.Base.Int.{ℤ}
use air_quality_monitoring.Base.Rounding.{Hundredths}
use air_quality_monitoring.Base.Strings.{String}
use air_quality_monitoring.Contracts.Reading.{ReadingResponse}

-- `reading.created` and `device.status`.
pub data AppEvent : Type 0 where
  reading_created : ReadingResponse → AppEvent
  device_status : String → Bool → ℕ → AppEvent

pub record RxInfo : Type 0 where
  pub gateway_id : Option String
  pub rssi : Option Hundredths
  pub snr : Option Hundredths

pub record ChirpStackUplink : Type 0 where
  pub dev_eui : String
  pub device_name : Option String
  pub application_id : Option String
  pub f_port : Option ℤ
  pub f_cnt : Option ℤ
  pub data_base64 : String
  pub time : Option String
  pub rx_info : Option (List RxInfo)
