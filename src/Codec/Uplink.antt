-- ===== src/Codec/Uplink.antt =====
-- `decodeUplink` and `encodeUplink` of packages/telemetry-codec/src/index.ts: 13 bytes,
-- little-endian, with the version in the low nibble of byte 12 and two presence bits in the high.
pub mod RoundTrip
pub mod Decoding
use Prim.Native.Nat.{bit_and, bit_or}
use air_quality_monitoring.Base.{
  ℕ, ◌+◌, ◌*◌, Bool, true, false, not, Option, none, some, List, ltb, ◌==◌, if◌then◌else◌, length,
  replicate, Result, ok, throw,
}
use air_quality_monitoring.Base.Int.{ℤ, pos, negsuc, ◌*ℤ◌, max_ℤ, min_ℤ}
use air_quality_monitoring.Base.Rounding.{Hundredths, round_div}
use air_quality_monitoring.Codec.Errors.{CodecError, payload_too_short, unsupported_version}
use air_quality_monitoring.Codec.Words.{
  Bytes, get_uint8, get_uint16, get_int16, set_uint8, set_uint16, set_int16,
}

abbrev pub payload_length : ℕ
payload_length = 13

abbrev pub payload_version : ℕ
payload_version = 1

abbrev pub present_pm : ℕ
present_pm = 0x10

abbrev pub present_env : ℕ
present_env = 0x20

pub record SensorsPresent : Type 0 where
  pub pm : Bool
  pub env : Bool

abbrev pub all_present : SensorsPresent
all_present = record { pm = true; env = true }

pub record DecodedPayload : Type 0 where
  pub pm25 : Hundredths
  pub pm10 : Hundredths
  pub temperature : Hundredths
  pub humidity : Hundredths
  pub pressure : Hundredths
  pub battery_mv : Hundredths
  pub version : Option ℕ
  pub sensors_present : Option SensorsPresent

-- Version 0 predates the presence bits.
unfoldable pub presence : ℕ → SensorsPresent
presence flags = if bit_and flags 0x0f == 0 then all_present else record {
  pm = not (bit_and flags present_pm == 0);
  env = not (bit_and flags present_env == 0);
}

-- The object that `decodeUplink` returns, once its two tests have passed.
unfoldable pub read_payload : Bytes → DecodedPayload
read_payload bytes = record {
  pm25 = pos (get_uint16 bytes 0 * 10);
  pm10 = pos (get_uint16 bytes 2 * 10);
  temperature = get_int16 bytes 4;
  humidity = pos (get_uint16 bytes 6);
  pressure = pos (get_uint16 bytes 8 * 100);
  battery_mv = pos (get_uint16 bytes 10 * 100);
  version = some (bit_and (get_uint8 bytes 12) 0x0f);
  sensors_present = some (presence (get_uint8 bytes 12));
}

unfoldable pub decode_uplink : Bytes → Result CodecError DecodedPayload
unfolding read_payload
decode_uplink bytes =
    let version = bit_and (get_uint8 bytes 12) 0x0f in
    if ltb (length bytes) payload_length
    then throw (payload_too_short (length bytes))
    else if ltb payload_version version
    then throw (unsupported_version version)
    else ok (read_payload bytes)

-- `u16` and `i16` of the source, at the number `n / d`.
unfoldable pub u16 : ℤ → ℕ → ℤ
unfolding round_div
u16 n d = max_ℤ (pos 0) (min_ℤ (pos 65535) (round_div n d))

unfoldable pub i16 : ℤ → ℕ → ℤ
unfolding round_div
i16 n d = max_ℤ (negsuc 32767) (min_ℤ (pos 32767) (round_div n d))

-- `present ?? { pm: true, env: true }`
abbrev pub present_or_all : Option SensorsPresent → SensorsPresent
present_or_all none = all_present
present_or_all (some s) = s

unfoldable pub flag_byte : SensorsPresent → ℕ
flag_byte s =
    bit_or (bit_or payload_version (if s.pm then present_pm else 0))
      (if s.env then present_env else 0)

-- A field in hundredths times 10 is a count of tenths: `p.pm25 * 10` is `p.pm25 / 10` in hundredths.
unfoldable pub encode_uplink : DecodedPayload → Bytes
unfolding u16 i16 flag_byte
encode_uplink p =
    let b0 = set_uint16 (replicate payload_length 0) 0 (u16 p.pm25 10) in
    let b1 = set_uint16 b0 2 (u16 p.pm10 10) in
    let b2 = set_int16 b1 4 (i16 p.temperature 1) in
    let b3 = set_uint16 b2 6 (u16 p.humidity 1) in
    let b4 = set_uint16 b3 8 (u16 p.pressure 100) in
    let b5 = set_uint16 b4 10 (u16 p.battery_mv 100) in
    set_uint8 b5 12 (flag_byte (present_or_all p.sensors_present))
