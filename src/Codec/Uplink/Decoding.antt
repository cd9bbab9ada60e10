-- ===== src/Codec/Uplink/Decoding.antt =====
-- What the decoder accepts, and the encoder as its inverse.
use Prim.Native.Nat.{bit_and}
use air_quality_monitoring.Base.{
  ℕ, zero, suc, ◌+◌, ◌*◌, ◌/◌, ◌%◌, ◌≤◌, ◌<◌, ◌≡◌, ◌↔◌, refl, ap, Bool, true, ◌||◌, not, false,
  some, [], ◌∷◌, ◌++◌, arith, ok, ok-injective, subst, if◌then◌else◌, length, ◌==◌,
}
use air_quality_monitoring.Base.Int.{pos, negsuc, ◌≤ℤ◌}
use air_quality_monitoring.Codec.Words.{
  Bytes, IsBytes, get_uint8, get_uint16, signed16, to_uint16, to_uint16-signed16,
}
use air_quality_monitoring.Codec.Uplink.RoundTrip.{IsOnWire}
use air_quality_monitoring.Codec.Uplink.{
  DecodedPayload, read_payload, decode_uplink, encode_uplink, u16, i16, flag_byte, presence,
  all_present,
}

-- Bytes after the thirteenth do not change the result.
pub decode-append :
    (bytes rest : Bytes) → 13 ≤ length bytes → decode_uplink (bytes ++ rest) ≡ decode_uplink bytes
unfolding decode_uplink
decode-append (b0 ∷ b1 ∷ b2 ∷ b3 ∷ b4 ∷ b5 ∷ b6 ∷ b7 ∷ b8 ∷ b9 ∷ b10 ∷ b11 ∷ b12 ∷ more) rest h =
    ground arith
decode-append _ rest h = absurd (omega arith)

-- `good` passes at each of the `n` numbers before `n`.
passes : (ℕ → Bool) → ℕ → Bool
passes good zero = true
passes good (suc n) = let before = passes good n in if good n then before else false

passes_at : (good : ℕ → Bool) (n flags : ℕ) → flags < n → passes good n ≡ true → good flags ≡ true
unfolding passes
passes_at good zero flags lt h = absurd (omega arith)
passes_at good (suc n) flags lt h = ground (arith, passes_at good n flags)

-- The flags without reserved bits, where the version is 1.
abbrev is_rewritten : ℕ → Bool
is_rewritten x = not (bit_and x 0x0f == 1) || (flag_byte (presence x) % 256 == x)

flags_rewritten : passes is_rewritten 64 ≡ true
unfolding passes flag_byte presence
flags_rewritten = refl

flag_byte-presence : (x : ℕ) → x < 64 → bit_and x 0x0f ≡ 1 → flag_byte (presence x) % 256 ≡ x
flag_byte-presence x h v = ground (arith, passes_at is_rewritten 64 x h flags_rewritten)

u16_word : (w : ℕ) → w < 65536 → u16 (pos (w * 10)) 10 ≡ pos w
unfolding u16
u16_word w h = ground arith

u16_word1 : (w : ℕ) → w < 65536 → u16 (pos w) 1 ≡ pos w
unfolding u16
u16_word1 w h = ground arith

u16_word100 : (w : ℕ) → w < 65536 → u16 (pos (w * 100)) 100 ≡ pos w
unfolding u16
u16_word100 w h = ground arith

i16_word : (w : ℕ) → w < 65536 → i16 (signed16 w) 1 ≡ signed16 w
unfolding i16
i16_word w h = ground arith

-- The two bytes of a field's word, written back.
abbrev IsWord : ℕ → ℕ → ℕ → Type 0
IsWord lo hi w = (w % 256 ≡ lo) × (w / 256 ≡ hi)

tenths-IsWord :
    (lo hi : ℕ)
    → lo < 256
    → hi < 256
    → IsWord lo hi (to_uint16 (u16 (pos ((lo + 256 * hi) * 10)) 10))
tenths-IsWord lo hi hl hh = rw (u16_word (lo + 256 * hi) (omega arith)) (omega arith)

hundredths-IsWord :
    (lo hi : ℕ) → lo < 256 → hi < 256 → IsWord lo hi (to_uint16 (u16 (pos (lo + 256 * hi)) 1))
hundredths-IsWord lo hi hl hh = rw (u16_word1 (lo + 256 * hi) (omega arith)) (omega arith)

units-IsWord :
    (lo hi : ℕ)
    → lo < 256
    → hi < 256
    → IsWord lo hi (to_uint16 (u16 (pos ((lo + 256 * hi) * 100)) 100))
units-IsWord lo hi hl hh = rw (u16_word100 (lo + 256 * hi) (omega arith)) (omega arith)

signed-IsWord :
    (lo hi : ℕ) → lo < 256 → hi < 256 → IsWord lo hi (to_uint16 (i16 (signed16 (lo + 256 * hi)) 1))
signed-IsWord lo hi hl hh =
    rw (i16_word (lo + 256 * hi) (omega arith), to_uint16-signed16 (lo + 256 * hi) (omega arith))
      (omega arith)

-- A 13-byte message of version 1 that sets no reserved bit is what the encoder writes for the
-- payload that the decoder reads from it.
pub encode-decode :
    (bytes : Bytes) (d : DecodedPayload)
    → length bytes ≡ 13
    → IsBytes bytes
    → bit_and (get_uint8 bytes 12) 0x0f ≡ 1
    → get_uint8 bytes 12 < 64
    → decode_uplink bytes ≡ ok d
    → encode_uplink d ≡ bytes
unfolding decode_uplink encode_uplink
encode-decode (b0 ∷ b1 ∷ b2 ∷ b3 ∷ b4 ∷ b5 ∷ b6 ∷ b7 ∷ b8 ∷ b9 ∷ b10 ∷ b11 ∷ b12 ∷ []) d l
      (h0, (h1, (h2, (h3, (h4, (h5, (h6, (h7, (h8, (h9, (h10, (h11, _)))))))))))) v r e =
    let t0 = tenths-IsWord b0 b1 h0 h1 in
    let t2 = tenths-IsWord b2 b3 h2 h3 in
    let t4 = signed-IsWord b4 b5 h4 h5 in
    let t6 = hundredths-IsWord b6 b7 h6 h7 in
    let t8 = units-IsWord b8 b9 h8 h9 in
    let t10 = units-IsWord b10 b11 h10 h11 in
    let t12 = flag_byte-presence b12 r v in
    subst
      (λ x.
        encode_uplink x ≡ b0 ∷ b1 ∷ b2 ∷ b3 ∷ b4 ∷ b5 ∷ b6 ∷ b7 ∷ b8 ∷ b9 ∷ b10 ∷ b11 ∷ b12 ∷ [])
      (ok-injective _ _ (rw v at e))
      (rw (t0.0, t0.1, t2.0, t2.1, t4.0, t4.1, t6.0, t6.1, t8.0, t8.1, t10.0, t10.1, t12) refl)
encode-decode _ d l bs v r e = absurd (omega arith)

get_uint8-lt : (bytes : Bytes) (i : ℕ) → IsBytes bytes → get_uint8 bytes i < 256
get_uint8-lt [] i h = omega arith
get_uint8-lt (b ∷ bytes) zero (h, hs) = h
get_uint8-lt (b ∷ bytes) (suc i) (h, hs) = get_uint8-lt bytes i hs

get_uint16-lt : (bytes : Bytes) (i : ℕ) → IsBytes bytes → get_uint16 bytes i < 65536
get_uint16-lt bytes i h = omega (arith, get_uint8-lt bytes i h, get_uint8-lt bytes (suc i) h)

signed16_range : (w : ℕ) → w < 65536 → (negsuc 32767 ≤ℤ signed16 w) × (signed16 w ≤ℤ pos 32767)
signed16_range w h = ground arith

-- The decoder accepts a message exactly if it has at least 13 bytes and the low nibble of byte 12 is
-- at most 1.
pub decode-eq-ok_iff :
    (bytes : Bytes)
    → ((d : DecodedPayload) × (decode_uplink bytes ≡ ok d))
      ↔ ((13 ≤ length bytes) × (bit_and (get_uint8 bytes 12) 0x0f ≤ 1))
unfolding decode_uplink
decode-eq-ok_iff bytes = (λ (d, e). ground arith, λ h. (read_payload bytes, ground arith))

read_payload-IsOnWire : (bytes : Bytes) → IsBytes bytes → IsOnWire (read_payload bytes)
unfolding read_payload
read_payload-IsOnWire bytes h = record {
  pm25_range = omega (arith, get_uint16-lt bytes 0 h);
  pm10_range = omega (arith, get_uint16-lt bytes 2 h);
  temperature_range = signed16_range (get_uint16 bytes 4) (get_uint16-lt bytes 4 h);
  humidity_range = omega (arith, get_uint16-lt bytes 6 h);
  pressure_range = omega (arith, get_uint16-lt bytes 8 h);
  battery_range = omega (arith, get_uint16-lt bytes 10 h);
}

decode_cases :
    (bytes : Bytes) (d : DecodedPayload)
    → decode_uplink bytes ≡ ok d
    → (read_payload bytes ≡ d) × (bit_and (get_uint8 bytes 12) 0x0f ≤ 1)
unfolding decode_uplink
decode_cases bytes d e = ground arith

presence_zero : (flags : ℕ) → bit_and flags 0x0f ≡ 0 → presence flags ≡ all_present
unfolding presence
presence_zero flags z = ground arith

-- Whatever bytes it accepts, the decoder returns fields inside the wire's range, a version of at
-- most 1, and, for version 0, every sensor present.
pub decode-IsOnWire :
    (bytes : Bytes) (d : DecodedPayload)
    → IsBytes bytes
    → decode_uplink bytes ≡ ok d
    → IsOnWire d
      × ((v : ℕ) × (d.version ≡ some v) × (v ≤ 1) × (v ≡ 0 → d.sensors_present ≡ some all_present))
unfolding read_payload
decode-IsOnWire bytes d h e =
    let (same, low) = decode_cases bytes d e in
    rw (← same) (
      read_payload-IsOnWire bytes h,
      (
        bit_and (get_uint8 bytes 12) 0x0f,
        refl,
        low,
        λ z. ap some (presence_zero (get_uint8 bytes 12) z),
      ),
    )
