-- ===== src/Codec/ConfigReport.antt =====
-- The config report of packages/telemetry-codec/src/index.ts: `decodeConfigReport` and
-- `encodeConfigReport`, 9 bytes, little-endian. A `ConfigResult` is a number, as in the source.
pub mod Laws
use air_quality_monitoring.Base.{
  ℕ, not, ltb, ◌==◌, if◌then◌else◌, length, replicate, Result, ok, throw,
}
use air_quality_monitoring.Base.Int.{ℤ, pos}
use air_quality_monitoring.Codec.Errors.{
  CodecError, report_too_short, unsupported_report_version, unknown_result,
}
use air_quality_monitoring.Codec.Words.{
  Bytes, get_uint8, get_uint16, get_int16, set_uint8, set_uint16, set_int16,
}

abbrev pub config_report_fport : ℕ
config_report_fport = 11

abbrev pub config_report_length : ℕ
config_report_length = 9

abbrev pub config_report_version : ℕ
config_report_version = 1

-- `ConfigResult.None`, `.Applied`, `.OutOfRange` and `.Malformed`.
abbrev pub result_none : ℕ
result_none = 0

abbrev pub result_applied : ℕ
result_applied = 1

abbrev pub result_out_of_range : ℕ
result_out_of_range = 2

abbrev pub result_malformed : ℕ
result_malformed = 3

pub record ConfigReport : Type 0 where
  pub version : ℕ
  pub last_result : ℕ
  pub last_command : ℕ
  pub interval_s : ℤ
  pub pm_offset_x10 : ℤ
  pub temp_offset_x100 : ℤ

unfoldable pub decode_config_report : Bytes → Result CodecError ConfigReport
decode_config_report bytes =
    if ltb (length bytes) config_report_length
    then throw (report_too_short (length bytes))
    else if not (get_uint8 bytes 0 == config_report_version)
    then throw (unsupported_report_version (get_uint8 bytes 0))
    else if ltb result_malformed (get_uint8 bytes 1)
    then throw (unknown_result (get_uint8 bytes 1))
    else ok (record {
      version = get_uint8 bytes 0;
      last_result = get_uint8 bytes 1;
      last_command = get_uint8 bytes 2;
      interval_s = pos (get_uint16 bytes 3);
      pm_offset_x10 = get_int16 bytes 5;
      temp_offset_x100 = get_int16 bytes 7;
    })

-- The version field of the argument is not read.
unfoldable pub encode_config_report : ConfigReport → Bytes
encode_config_report r =
    let b0 = set_uint8 (replicate config_report_length 0) 0 config_report_version in
    let b1 = set_uint8 b0 1 r.last_result in
    let b2 = set_uint8 b1 2 r.last_command in
    let b3 = set_uint16 b2 3 r.interval_s in
    let b4 = set_int16 b3 5 r.pm_offset_x10 in set_int16 b4 7 r.temp_offset_x100
