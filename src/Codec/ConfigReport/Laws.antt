-- ===== src/Codec/ConfigReport/Laws.antt =====
-- The config report's decoder and encoder are inverse to one another.
use air_quality_monitoring.Base.{
  ℕ, ◌+◌, ◌*◌, ◌/◌, ◌%◌, ◌≤◌, ◌<◌, ◌≡◌, [], ◌∷◌, ◌++◌, arith, ok, length,
}
use air_quality_monitoring.Base.Int.{ℤ, pos, negsuc, ◌≤ℤ◌}
use air_quality_monitoring.Codec.Words.{
  Bytes, IsBytes, to_uint16, signed16, word_of_bytes, signed16-to_uint16, to_uint16-signed16,
}
use air_quality_monitoring.Codec.ConfigReport.{
  ConfigReport, decode_config_report, encode_config_report,
}

-- A report that fits its nine bytes.
pub record IsReport (r : ConfigReport) : Type 0 where
  pub version_eq : r.version ≡ 1
  pub result_le : r.last_result ≤ 3
  pub command_lt : r.last_command < 256
  pub interval_range : (pos 0 ≤ℤ r.interval_s) × (r.interval_s ≤ℤ pos 65535)
  pub pm_range : (negsuc 32767 ≤ℤ r.pm_offset_x10) × (r.pm_offset_x10 ≤ℤ pos 32767)
  pub temp_range : (negsuc 32767 ≤ℤ r.temp_offset_x100) × (r.temp_offset_x100 ≤ℤ pos 32767)

read_signed :
    (v : ℤ)
    → negsuc 32767 ≤ℤ v
    → v ≤ℤ pos 32767
    → signed16 (to_uint16 v % 256 + 256 * (to_uint16 v / 256)) ≡ v
read_signed v lo hi = rw (word_of_bytes (to_uint16 v)) (signed16-to_uint16 v lo hi)

read_unsigned :
    (v : ℤ) → pos 0 ≤ℤ v → v ≤ℤ pos 65535 → pos (to_uint16 v % 256 + 256 * (to_uint16 v / 256)) ≡ v
read_unsigned v lo hi = ground arith

-- A report of version 1 whose fields fit their bytes comes back from its encoding, also where more
-- bytes follow.
pub decode-encode_config_report :
    (r : ConfigReport) (rest : Bytes)
    → IsReport r
    → decode_config_report (encode_config_report r ++ rest) ≡ ok r
unfolding decode_config_report encode_config_report
decode-encode_config_report r rest h =
    let i = read_unsigned r.interval_s h.interval_range.0 h.interval_range.1 in
    let p = read_signed r.pm_offset_x10 h.pm_range.0 h.pm_range.1 in
    let t = read_signed r.temp_offset_x100 h.temp_range.0 h.temp_range.1 in
    rw (i, p, t) (ground arith)

write_word :
    (lo hi : ℕ)
    → lo < 256
    → hi < 256
    → ((lo + 256 * hi) % 65536 % 256 ≡ lo) × ((lo + 256 * hi) % 65536 / 256 ≡ hi)
write_word lo hi hl hh = omega arith

signed_word :
    (lo hi : ℕ)
    → lo < 256
    → hi < 256
    → (to_uint16 (signed16 (lo + 256 * hi)) % 256 ≡ lo)
      × (to_uint16 (signed16 (lo + 256 * hi)) / 256 ≡ hi)
signed_word lo hi hl hh = rw (to_uint16-signed16 (lo + 256 * hi) (omega arith)) (omega arith)

-- Nine bytes that the decoder accepts are the encoding of what it reads from them.
pub encode-decode_config_report :
    (bytes : Bytes) (r : ConfigReport)
    → length bytes ≡ 9
    → IsBytes bytes
    → decode_config_report bytes ≡ ok r
    → encode_config_report r ≡ bytes
unfolding decode_config_report encode_config_report
encode-decode_config_report (b0 ∷ b1 ∷ b2 ∷ b3 ∷ b4 ∷ b5 ∷ b6 ∷ b7 ∷ b8 ∷ []) r l
      (h0, (h1, (h2, (h3, (h4, (h5, (h6, (h7, (h8, _))))))))) e =
    ground (arith, write_word b3 b4 h3 h4, signed_word b5 b6 h5 h6, signed_word b7 b8 h7 h8)
encode-decode_config_report _ r l h e = absurd (omega arith)
