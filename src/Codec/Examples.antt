-- ===== src/Codec/Examples.antt =====
-- Runs of the codec, and its theorems at concrete messages. The 13-byte message is a reading of
-- 12.3 and 45.6 micrograms, 21.57 degrees, 55.5 %, 1013 hPa and 3700 mV.
use air_quality_monitoring.Base.{ℕ, ◌≡◌, ◌↔◌, refl, some, none, [], ◌∷◌, ◌++◌, arith, ok, throw}
use air_quality_monitoring.Base.Int.{pos, negsuc}
use air_quality_monitoring.Codec.Errors.{payload_too_short, unsupported_version, range_error}
use air_quality_monitoring.Codec.Words.{Bytes}
use air_quality_monitoring.Codec.Uplink.{
  DecodedPayload, decode_uplink, encode_uplink, presence, all_present,
}
use air_quality_monitoring.Codec.Uplink.RoundTrip
use air_quality_monitoring.Codec.Uplink.Decoding
use air_quality_monitoring.Codec.Downlink.{
  DownlinkCommand, set_interval, set_pm_offset, encode_downlink, decode_downlink,
}
use air_quality_monitoring.Codec.Downlink.Laws
use air_quality_monitoring.Codec.ConfigReport.{ConfigReport, decode_config_report}

abbrev message : Bytes
message = 123 ∷ 0 ∷ 200 ∷ 1 ∷ 109 ∷ 8 ∷ 174 ∷ 21 ∷ 245 ∷ 3 ∷ 116 ∷ 14 ∷ 0x31 ∷ []

abbrev reading : DecodedPayload
reading = record {
  pm25 = pos 1230;
  pm10 = pos 4560;
  temperature = pos 2157;
  humidity = pos 5550;
  pressure = pos 101300;
  battery_mv = pos 370000;
  version = some 1;
  sensors_present = some all_present;
}

decode_message : decode_uplink message ≡ ok reading
unfolding decode_uplink presence
decode_message = refl

-- A frost reading with a calibration offset that makes the PM2.5 level negative.
abbrev frost : DecodedPayload
frost = record reading { pm25 = negsuc 41; temperature = negsuc 1234; sensors_present = none }

encode_reading : encode_uplink reading ≡ message
unfolding encode_uplink
encode_reading = refl

decode_short : decode_uplink (1 ∷ 2 ∷ []) ≡ throw (payload_too_short 2)
unfolding decode_uplink presence
decode_short = refl

decode_future :
    decode_uplink (0 ∷ 0 ∷ 0 ∷ 0 ∷ 0 ∷ 0 ∷ 0 ∷ 0 ∷ 0 ∷ 0 ∷ 0 ∷ 0 ∷ 0x32 ∷ [])
    ≡ throw (unsupported_version 2)
unfolding decode_uplink presence
decode_future = refl

decode-encode_nearest_example :
    (d : DecodedPayload) × (decode_uplink (encode_uplink reading) ≡ ok d)
    × RoundTrip.IsNear 5 d.pm25 (pos 1230)
    × RoundTrip.IsNear 5 d.pm10 (pos 4560)
    × (d.temperature ≡ pos 2157)
    × (d.humidity ≡ pos 5550)
    × RoundTrip.IsNear 50 d.pressure (pos 101300)
    × RoundTrip.IsNear 50 d.battery_mv (pos 370000)
    × (d.version ≡ some 1)
    × (d.sensors_present ≡ some all_present)
decode-encode_nearest_example = RoundTrip.decode-encode_nearest reading (omega arith)

decode-encode-Saturates_example :
    (d : DecodedPayload) × (decode_uplink (encode_uplink frost) ≡ ok d)
    × RoundTrip.Saturates (pos 0) (pos 655350) d.pm25 frost.pm25
    × RoundTrip.Saturates (pos 0) (pos 655350) d.pm10 frost.pm10
    × RoundTrip.Saturates (negsuc 32767) (pos 32767) d.temperature frost.temperature
    × RoundTrip.Saturates (pos 0) (pos 65535) d.humidity frost.humidity
    × RoundTrip.Saturates (pos 0) (pos 6553500) d.pressure frost.pressure
    × RoundTrip.Saturates (pos 0) (pos 6553500) d.battery_mv frost.battery_mv
decode-encode-Saturates_example = RoundTrip.decode-encode-Saturates frost

decode-append_example : decode_uplink (message ++ 7 ∷ 7 ∷ []) ≡ decode_uplink message
decode-append_example = Decoding.decode-append message (7 ∷ 7 ∷ []) (omega arith)

abbrev ten_minutes : DownlinkCommand
ten_minutes = set_interval (pos 60000)

encode_ten_minutes : encode_downlink ten_minutes ≡ ok (1 ∷ 88 ∷ 2 ∷ [])
unfolding encode_downlink
encode_ten_minutes = refl

encode_half_second : encode_downlink (set_interval (pos 60050)) ≡ throw (range_error (pos 60050))
unfolding encode_downlink
encode_half_second = refl

decode_negative_offset : decode_downlink (2 ∷ 0xff ∷ 0xff ∷ []) ≡ ok (set_pm_offset (negsuc 99))
unfolding decode_downlink
decode_negative_offset = refl

encode-eq-ok_iff_example :
    ((bytes : Bytes) × (encode_downlink ten_minutes ≡ ok bytes)) ↔ Laws.IsApplied ten_minutes
encode-eq-ok_iff_example = Laws.encode-eq-ok_iff ten_minutes

decode-encode_downlink_example :
    (◌≡◌ {A = ℕ} 3 3) × (decode_downlink (1 ∷ 88 ∷ 2 ∷ 9 ∷ []) ≡ ok ten_minutes)
decode-encode_downlink_example =
    Laws.decode-encode_downlink ten_minutes (1 ∷ 88 ∷ 2 ∷ []) (9 ∷ []) encode_ten_minutes

abbrev report : ConfigReport
report = record {
  version = 1;
  last_result = 2;
  last_command = 3;
  interval_s = pos 600;
  pm_offset_x10 = negsuc 24;
  temp_offset_x100 = pos 150;
}

abbrev report_bytes : Bytes
report_bytes = 1 ∷ 2 ∷ 3 ∷ 88 ∷ 2 ∷ 231 ∷ 255 ∷ 150 ∷ 0 ∷ []

decode_report : decode_config_report report_bytes ≡ ok report
unfolding decode_config_report
decode_report = refl
