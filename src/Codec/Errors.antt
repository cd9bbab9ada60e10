-- ===== src/Codec/Errors.antt =====
-- The errors that the codec throws, with the numbers that their messages show.
use air_quality_monitoring.Base.{ℕ}
use air_quality_monitoring.Base.Int.{ℤ}

pub data CodecError : Type 0 where
  payload_too_short : ℕ → CodecError
  unsupported_version : ℕ → CodecError
  range_error : ℤ → CodecError
  downlink_too_short : ℕ → CodecError
  unknown_command : ℕ → CodecError
  report_too_short : ℕ → CodecError
  unsupported_report_version : ℕ → CodecError
  unknown_result : ℕ → CodecError
