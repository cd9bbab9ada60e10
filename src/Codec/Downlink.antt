-- ===== src/Codec/Downlink.antt =====
-- The downlink commands of packages/telemetry-codec/src/index.ts: `assertDownlinkInRange`,
-- `encodeDownlink` and `decodeDownlink`. A command's number is any JavaScript number, in hundredths.
pub mod Laws
use air_quality_monitoring.Base.{
  ℕ, suc, ◌*◌, ◌/◌, Bool, not, ◌||◌, ltb, ◌==◌, if◌then◌else◌, length, replicate, Result, ok, throw,
  ◌>>=◌, ◌>>◌,
}
use air_quality_monitoring.Base.Int.{ℤ, pos, negsuc, ltb_ℤ, ◌*ℤ◌, ◌-ℤ◌}
use air_quality_monitoring.Base.Rounding.{Hundredths, is_integer}
use air_quality_monitoring.Codec.Errors.{
  CodecError, range_error, downlink_too_short, unknown_command,
}
use air_quality_monitoring.Codec.Words.{
  Bytes, get_uint8, get_uint16, get_int16, set_uint8, set_uint16, set_int16,
}

abbrev pub downlink_fport : ℕ
downlink_fport = 10

abbrev pub opcode_set_interval : ℕ
opcode_set_interval = 0x01

abbrev pub opcode_set_pm_offset : ℕ
opcode_set_pm_offset = 0x02

abbrev pub opcode_set_temp_offset : ℕ
opcode_set_temp_offset = 0x03

pub data DownlinkCommand : Type 0 where
  set_interval : Hundredths → DownlinkCommand
  set_pm_offset : Hundredths → DownlinkCommand
  set_temp_offset : Hundredths → DownlinkCommand

-- `DOWNLINK_LIMITS`
abbrev pub interval_min_s : ℤ
interval_min_s = pos 120

abbrev pub interval_max_s : ℤ
interval_max_s = pos 21600

abbrev pub pm_offset_max_x10 : ℕ
pm_offset_max_x10 = 500

abbrev pub temp_offset_max_x100 : ℕ
temp_offset_max_x100 = 1000

-- -n
abbrev pub minus : ℕ → ℤ
minus n = pos 0 -ℤ pos n

-- The limits are whole numbers; they are compared with the value in hundredths.
unfoldable pub check_range : Hundredths → ℤ → ℤ → Result CodecError (Unit {0})
unfolding is_integer ◌*ℤ◌
check_range value lo hi =
    if not (is_integer value) || ltb_ℤ value (lo *ℤ 100) || ltb_ℤ (hi *ℤ 100) value
    then throw (range_error value)
    else ok tt

unfoldable pub assert_downlink_in_range : DownlinkCommand → Result CodecError (Unit {0})
unfolding check_range ◌-ℤ◌
assert_downlink_in_range (set_interval s) = check_range s interval_min_s interval_max_s
assert_downlink_in_range (set_pm_offset o) =
    check_range o (minus pm_offset_max_x10) (pos pm_offset_max_x10)
assert_downlink_in_range (set_temp_offset o) =
    check_range o (minus temp_offset_max_x100) (pos temp_offset_max_x100)

-- The whole number of a number, which is what `DataView` stores of it: the part after the point is
-- dropped.
unfoldable pub whole : Hundredths → ℤ
whole (pos n) = pos (n / 100)
whole (negsuc n) = minus (suc n / 100)

write_command : DownlinkCommand → Bytes
unfolding whole ◌-ℤ◌
write_command (set_interval s) =
    set_uint16 (set_uint8 (replicate 3 0) 0 opcode_set_interval) 1 (whole s)
write_command (set_pm_offset o) =
    set_int16 (set_uint8 (replicate 3 0) 0 opcode_set_pm_offset) 1 (whole o)
write_command (set_temp_offset o) =
    set_int16 (set_uint8 (replicate 3 0) 0 opcode_set_temp_offset) 1 (whole o)

unfoldable pub encode_downlink : DownlinkCommand → Result CodecError Bytes
unfolding assert_downlink_in_range write_command
encode_downlink cmd = do assert_downlink_in_range cmd; ok (write_command cmd)

unfoldable pub decode_downlink : Bytes → Result CodecError DownlinkCommand
unfolding ◌*ℤ◌
decode_downlink bytes =
    if ltb (length bytes) 3
    then throw (downlink_too_short (length bytes))
    else if get_uint8 bytes 0 == opcode_set_interval
    then ok (set_interval (pos (get_uint16 bytes 1) *ℤ 100))
    else if get_uint8 bytes 0 == opcode_set_pm_offset
    then ok (set_pm_offset (get_int16 bytes 1 *ℤ 100))
    else if get_uint8 bytes 0 == opcode_set_temp_offset
    then ok (set_temp_offset (get_int16 bytes 1 *ℤ 100))
    else throw (unknown_command (get_uint8 bytes 0))
