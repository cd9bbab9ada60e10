-- ===== src/Codec/Uplink/RoundTrip.antt =====
-- What is left of a payload after encoding and decoding.
use Prim.Native.Nat.{bit_and}
use air_quality_monitoring.Base.{
  ℕ, ◌+◌, ◌*◌, ◌/◌, ◌%◌, ◌≤◌, ◌≡◌, refl, Bool, true, false, some, arith, ok,
}
use air_quality_monitoring.Base.Int.{ℤ, pos, negsuc, ◌≤ℤ◌, pos_part, neg_part}
use air_quality_monitoring.Codec.Words.{to_uint16, word_of_bytes, signed16, signed16-to_uint16}
use air_quality_monitoring.Codec.Uplink.{
  SensorsPresent, DecodedPayload, decode_uplink, encode_uplink, u16, i16, flag_byte, presence,
  present_or_all, payload_version,
}

-- The payload that a receiver sees: each field rounded to the wire's resolution and saturated.
unfoldable pub quantised : DecodedPayload → DecodedPayload
quantised p = record {
  pm25 = pos (pos_part (u16 p.pm25 10) * 10);
  pm10 = pos (pos_part (u16 p.pm10 10) * 10);
  temperature = i16 p.temperature 1;
  humidity = u16 p.humidity 1;
  pressure = pos (pos_part (u16 p.pressure 100) * 100);
  battery_mv = pos (pos_part (u16 p.battery_mv 100) * 100);
  version = some payload_version;
  sensors_present = some (present_or_all p.sensors_present);
}

u16_range : (n : ℤ) (d : ℕ) → (pos 0 ≤ℤ u16 n d) × (u16 n d ≤ℤ pos 65535)
unfolding u16
u16_range n d = ground arith

i16_range : (n : ℤ) (d : ℕ) → (negsuc 32767 ≤ℤ i16 n d) × (i16 n d ≤ℤ pos 32767)
unfolding i16
i16_range n d = ground arith

-- The bytes of a clamped field, read back.
get_u16 :
    (n : ℤ) (d : ℕ) → pos (to_uint16 (u16 n d) % 256 + 256 * (to_uint16 (u16 n d) / 256)) ≡ u16 n d
get_u16 n d = ground (arith, u16_range n d)

get_u16_part :
    (n : ℤ) (d : ℕ)
    → to_uint16 (u16 n d) % 256 + 256 * (to_uint16 (u16 n d) / 256) ≡ pos_part (u16 n d)
get_u16_part n d = ground (arith, u16_range n d)

get_i16 :
    (n : ℤ) (d : ℕ)
    → signed16 (to_uint16 (i16 n d) % 256 + 256 * (to_uint16 (i16 n d) / 256)) ≡ i16 n d
get_i16 n d =
    rw (word_of_bytes (to_uint16 (i16 n d)))
      (signed16-to_uint16 (i16 n d) (i16_range n d).0 (i16_range n d).1)

flag_version_of : (a b : Bool) → bit_and (flag_byte (record { pm = a; env = b }) % 256) 15 ≡ 1
unfolding flag_byte
flag_version_of true true = refl
flag_version_of true false = refl
flag_version_of false true = refl
flag_version_of false false = refl

presence_of :
    (a b : Bool)
    → presence (flag_byte (record { pm = a; env = b }) % 256) ≡ record { pm = a; env = b }
unfolding presence flag_byte
presence_of true true = refl
presence_of true false = refl
presence_of false true = refl
presence_of false false = refl

flag_version : (s : SensorsPresent) → bit_and (flag_byte s % 256) 15 ≡ payload_version
flag_version s = flag_version_of s.pm s.env

presence-flag_byte : (s : SensorsPresent) → presence (flag_byte s % 256) ≡ s
presence-flag_byte s = presence_of s.pm s.env

-- A decoder reads back every payload that the encoder wrote, each field quantised.
pub decode-encode : (p : DecodedPayload) → decode_uplink (encode_uplink p) ≡ ok (quantised p)
unfolding decode_uplink encode_uplink quantised
decode-encode p =
    rw
      (
        flag_version (present_or_all p.sensors_present),
        presence-flag_byte (present_or_all p.sensors_present),
        get_u16_part p.pm25 10,
        get_u16_part p.pm10 10,
        get_i16 p.temperature 1,
        get_u16 p.humidity 1,
        get_u16_part p.pressure 100,
        get_u16_part p.battery_mv 100,
      )
      refl

-- Two numbers that differ by at most `k`.
abbrev pub IsNear : ℕ → ℤ → ℤ → Type 0
IsNear k a b =
    (pos_part a + neg_part b ≤ pos_part b + neg_part a + k)
    × (pos_part b + neg_part a ≤ pos_part a + neg_part b + k)

-- Every field fits its place on the wire.
pub record IsOnWire (p : DecodedPayload) : Type 0 where
  pub pm25_range : (pos 0 ≤ℤ p.pm25) × (p.pm25 ≤ℤ pos 655350)
  pub pm10_range : (pos 0 ≤ℤ p.pm10) × (p.pm10 ≤ℤ pos 655350)
  pub temperature_range : (negsuc 32767 ≤ℤ p.temperature) × (p.temperature ≤ℤ pos 32767)
  pub humidity_range : (pos 0 ≤ℤ p.humidity) × (p.humidity ≤ℤ pos 65535)
  pub pressure_range : (pos 0 ≤ℤ p.pressure) × (p.pressure ≤ℤ pos 6553500)
  pub battery_range : (pos 0 ≤ℤ p.battery_mv) × (p.battery_mv ≤ℤ pos 6553500)

u16_tenths : (v : ℤ) → pos 0 ≤ℤ v → v ≤ℤ pos 655350 → IsNear 5 (pos (pos_part (u16 v 10) * 10)) v
unfolding u16
u16_tenths v lo hi = ground arith

u16_hundredths : (v : ℤ) → pos 0 ≤ℤ v → v ≤ℤ pos 65535 → u16 v 1 ≡ v
unfolding u16
u16_hundredths v lo hi = ground arith

u16_units : (v : ℤ) → pos 0 ≤ℤ v → v ≤ℤ pos 6553500 → IsNear 50 (pos (pos_part (u16 v 100) * 100)) v
unfolding u16
u16_units v lo hi = ground arith

i16_hundredths : (v : ℤ) → negsuc 32767 ≤ℤ v → v ≤ℤ pos 32767 → i16 v 1 ≡ v
unfolding i16
i16_hundredths v lo hi = ground arith

-- If every field of `p` fits its place on the wire, decoding its encoding returns a payload whose
-- particle levels are within 0.05 of those of `p`, whose temperature and humidity are those of `p`,
-- whose pressure and battery are within 0.5, whose version is 1, and whose presence flags are those
-- of `p`, or all set where `p` has none.
pub decode-encode_nearest :
    (p : DecodedPayload)
    → IsOnWire p
    → (d : DecodedPayload) × (decode_uplink (encode_uplink p) ≡ ok d)
      × IsNear 5 d.pm25 p.pm25
      × IsNear 5 d.pm10 p.pm10
      × (d.temperature ≡ p.temperature)
      × (d.humidity ≡ p.humidity)
      × IsNear 50 d.pressure p.pressure
      × IsNear 50 d.battery_mv p.battery_mv
      × (d.version ≡ some 1)
      × (d.sensors_present ≡ some (present_or_all p.sensors_present))
unfolding quantised
decode-encode_nearest p w = (
  quantised p,
  decode-encode p,
  u16_tenths p.pm25 w.pm25_range.0 w.pm25_range.1,
  u16_tenths p.pm10 w.pm10_range.0 w.pm10_range.1,
  i16_hundredths p.temperature w.temperature_range.0 w.temperature_range.1,
  u16_hundredths p.humidity w.humidity_range.0 w.humidity_range.1,
  u16_units p.pressure w.pressure_range.0 w.pressure_range.1,
  u16_units p.battery_mv w.battery_range.0 w.battery_range.1,
  refl,
  refl,
)

u16_low_tenths : (v : ℤ) → v ≤ℤ pos 0 → u16 v 10 ≡ pos 0
unfolding u16
u16_low_tenths v lo = ground arith

u16_low_hundredths : (v : ℤ) → v ≤ℤ pos 0 → u16 v 1 ≡ pos 0
unfolding u16
u16_low_hundredths v lo = ground arith

u16_low_units : (v : ℤ) → v ≤ℤ pos 0 → u16 v 100 ≡ pos 0
unfolding u16
u16_low_units v lo = ground arith

u16_high_tenths : (v : ℤ) → pos 655350 ≤ℤ v → u16 v 10 ≡ pos 65535
unfolding u16
u16_high_tenths v hi = ground arith

u16_high_hundredths : (v : ℤ) → pos 65535 ≤ℤ v → u16 v 1 ≡ pos 65535
unfolding u16
u16_high_hundredths v hi = ground arith

u16_high_units : (v : ℤ) → pos 6553500 ≤ℤ v → u16 v 100 ≡ pos 65535
unfolding u16
u16_high_units v hi = ground arith

i16_high : (v : ℤ) → pos 32767 ≤ℤ v → i16 v 1 ≡ pos 32767
unfolding i16
i16_high v hi = ground arith

i16_low : (v : ℤ) → v ≤ℤ negsuc 32767 → i16 v 1 ≡ negsuc 32767
unfolding i16
i16_low v hi = ground arith

-- A field at or below `lo` becomes `lo`, and one at or above `hi` becomes `hi`.
abbrev pub Saturates : ℤ → ℤ → ℤ → ℤ → Type 0
Saturates lo hi read written = (written ≤ℤ lo → read ≡ lo) × (hi ≤ℤ written → read ≡ hi)

-- Fields outside the wire's range saturate instead of wrapping. Decoding the encoding of `p`
-- returns a payload in which each field that is at most the least, or at least the greatest, value
-- of its place on the wire has become that value: 0 and 6553.5 for PM2.5 and PM10, -327.68 and
-- 327.67 for the temperature, 0 and 655.35 for the humidity, 0 and 65535 for the pressure and the
-- battery.
pub decode-encode-Saturates :
    (p : DecodedPayload)
    → (d : DecodedPayload) × (decode_uplink (encode_uplink p) ≡ ok d)
      × Saturates (pos 0) (pos 655350) d.pm25 p.pm25
      × Saturates (pos 0) (pos 655350) d.pm10 p.pm10
      × Saturates (negsuc 32767) (pos 32767) d.temperature p.temperature
      × Saturates (pos 0) (pos 65535) d.humidity p.humidity
      × Saturates (pos 0) (pos 6553500) d.pressure p.pressure
      × Saturates (pos 0) (pos 6553500) d.battery_mv p.battery_mv
unfolding quantised
decode-encode-Saturates p = (
  quantised p,
  decode-encode p,
  (λ h. rw (u16_low_tenths p.pm25 h), λ h. rw (u16_high_tenths p.pm25 h)),
  (λ h. rw (u16_low_tenths p.pm10 h), λ h. rw (u16_high_tenths p.pm10 h)),
  (i16_low p.temperature, i16_high p.temperature),
  (u16_low_hundredths p.humidity, u16_high_hundredths p.humidity),
  (λ h. rw (u16_low_units p.pressure h), λ h. rw (u16_high_units p.pressure h)),
  (λ h. rw (u16_low_units p.battery_mv h), λ h. rw (u16_high_units p.battery_mv h)),
)
