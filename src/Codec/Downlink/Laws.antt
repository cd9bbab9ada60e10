-- ===== src/Codec/Downlink/Laws.antt =====
-- A command that the encoder accepts comes back from the decoder, and the encoder accepts just the
-- commands that a node applies.
use air_quality_monitoring.Base.{ℕ, ◌+◌, ◌*◌, ◌%◌, ◌≤◌, ◌≡◌, ◌↔◌, refl, arith, ok, length, ◌++◌}
use air_quality_monitoring.Base.Int.{pos_part, neg_part}
use air_quality_monitoring.Base.Rounding.{Hundredths}
use air_quality_monitoring.Codec.Words.{Bytes}
use air_quality_monitoring.Codec.Downlink.{
  DownlinkCommand, set_interval, set_pm_offset, set_temp_offset, assert_downlink_in_range,
  write_command, encode_downlink, decode_downlink,
}

-- A whole number from `lo` to `hi`, given in hundredths.
abbrev pub IsWholeIn : ℕ → ℕ → ℕ → ℕ → Hundredths → Type 0
IsWholeIn lo_neg lo hi_neg hi v =
    ((pos_part v + neg_part v) % 100 ≡ 0)
    × (lo * 100 + neg_part v ≤ pos_part v + lo_neg * 100)
    × (pos_part v ≤ hi * 100 + neg_part v)

-- The settings that a node applies.
abbrev pub IsApplied : DownlinkCommand → Type 0
IsApplied (set_interval s) = IsWholeIn 0 120 0 21600 s
IsApplied (set_pm_offset o) = IsWholeIn 500 0 0 500 o
IsApplied (set_temp_offset o) = IsWholeIn 1000 0 0 1000 o

assert_iff : (cmd : DownlinkCommand) → (assert_downlink_in_range cmd ≡ ok tt) ↔ IsApplied cmd
unfolding assert_downlink_in_range
assert_iff (set_interval s) = ground arith
assert_iff (set_pm_offset s) = ground arith
assert_iff (set_temp_offset s) = ground arith

decode-write :
    (cmd : DownlinkCommand) (rest : Bytes)
    → IsApplied cmd
    → decode_downlink (write_command cmd ++ rest) ≡ ok cmd
unfolding write_command decode_downlink
decode-write (set_interval s) rest h = ground arith
decode-write (set_pm_offset s) rest h = ground arith
decode-write (set_temp_offset s) rest h = ground arith

length-write : (cmd : DownlinkCommand) → length (write_command cmd) ≡ 3
unfolding write_command
length-write (set_interval s) = refl
length-write (set_pm_offset o) = refl
length-write (set_temp_offset o) = refl

encode_cases :
    (cmd : DownlinkCommand) (bytes : Bytes)
    → encode_downlink cmd ≡ ok bytes
    → (assert_downlink_in_range cmd ≡ ok tt) × (write_command cmd ≡ bytes)
unfolding encode_downlink
encode_cases cmd bytes e = ground arith

-- The encoder returns bytes for a command exactly if a node applies it: a whole number of seconds
-- from 120 to 21600, a PM offset from -500 to 500, or a temperature offset from -1000 to 1000.
pub encode-eq-ok_iff :
    (cmd : DownlinkCommand) → ((bytes : Bytes) × (encode_downlink cmd ≡ ok bytes)) ↔ IsApplied cmd
unfolding encode_downlink
encode-eq-ok_iff cmd = (
  λ (bytes, e). (assert_iff cmd).0 (encode_cases cmd bytes e).0,
  λ h. (write_command cmd, rw ((assert_iff cmd).1 h)),
)

-- The bytes of an encoded command are three, and the decoder returns the command from them, also
-- where more bytes follow.
pub decode-encode_downlink :
    (cmd : DownlinkCommand) (bytes rest : Bytes)
    → encode_downlink cmd ≡ ok bytes
    → (length bytes ≡ 3) × (decode_downlink (bytes ++ rest) ≡ ok cmd)
decode-encode_downlink cmd bytes rest e =
    let (passed, same) = encode_cases cmd bytes e in
    rw (← same) (length-write cmd, decode-write cmd rest ((assert_iff cmd).0 passed))
