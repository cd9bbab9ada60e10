-- ===== src/Codec/Words.antt =====
-- `Uint8Array` and the little-endian accesses of `DataView` that the codec makes. A byte array is a
-- list of numbers below 256. Each decoder checks the length before it reads, so the 0 that stands
-- for a byte past the end is never seen.
use air_quality_monitoring.Base.{
  ℕ, suc, ◌+◌, ◌-◌, ◌*◌, ◌/◌, ◌%◌, ◌<◌, ◌≡◌, List, arith, ltb, if◌then◌else◌, get_or, set, All,
}
use air_quality_monitoring.Base.Int.{ℤ, pos, negsuc, ◌≤ℤ◌}

abbrev pub Bytes : Type 0
Bytes = List ℕ

-- Every element is a byte.
abbrev pub IsBytes : Bytes → Type 0
IsBytes = All (λ b. b < 256)

abbrev pub get_uint8 : Bytes → ℕ → ℕ
get_uint8 bytes i = get_or bytes i 0

abbrev pub get_uint16 : Bytes → ℕ → ℕ
get_uint16 bytes i = get_uint8 bytes i + 256 * get_uint8 bytes (suc i)

-- The integer of a 16-bit two's-complement pattern.
abbrev pub signed16 : ℕ → ℤ
signed16 w = if ltb w 32768 then pos w else negsuc (65535 - w)

abbrev pub get_int16 : Bytes → ℕ → ℤ
get_int16 bytes i = signed16 (get_uint16 bytes i)

-- The 16-bit pattern of an integer, modulo 2^16: what `setUint16` and `setInt16` store.
abbrev pub to_uint16 : ℤ → ℕ
to_uint16 (pos n) = n % 65536
to_uint16 (negsuc n) = 65535 - n % 65536

abbrev pub set_uint8 : Bytes → ℕ → ℕ → Bytes
set_uint8 bytes i v = set bytes i (v % 256)

abbrev pub set_uint16 : Bytes → ℕ → ℤ → Bytes
set_uint16 bytes i v = let w = to_uint16 v in set (set bytes i (w % 256)) (suc i) (w / 256)

abbrev pub set_int16 : Bytes → ℕ → ℤ → Bytes
set_int16 = set_uint16

-- The two bytes of a pattern give it back.
pub word_of_bytes : (w : ℕ) → w % 256 + 256 * (w / 256) ≡ w
word_of_bytes w = omega arith

pub to_uint16-lt : (v : ℤ) → to_uint16 v < 65536
to_uint16-lt v = ground arith

-- A pattern read as a signed integer gives the integer back, if it fits 16 bits.
pub signed16-to_uint16 : (v : ℤ) → negsuc 32767 ≤ℤ v → v ≤ℤ pos 32767 → signed16 (to_uint16 v) ≡ v
signed16-to_uint16 v lo hi = ground arith

pub to_uint16-signed16 : (w : ℕ) → w < 65536 → to_uint16 (signed16 w) ≡ w
to_uint16-signed16 w h = ground arith
