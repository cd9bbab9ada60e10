-- ===== src/Simulator/Lora.antt =====
-- services/simulator/src/lorawan.ts: what the simulator asks of the library lora-packet to join and to
-- send. The library and the hexadecimal text of a buffer are parameters.
use air_quality_monitoring.Base.{ℕ, Option, none, some, [], ◌∷◌}
use air_quality_monitoring.Base.Strings.{String}
use air_quality_monitoring.Codec.Words.{Bytes}

pub record DeviceSession : Type 0 where
  pub dev_eui : String
  pub dev_addr : String
  pub nwk_s_key : String
  pub app_s_key : String

pub record DeviceCredentials : Type 0 where
  pub dev_eui : String
  pub join_eui : String
  pub app_key : String

-- The two kinds of frame that are built, with the fields that the source gives. The source's FCtrl has
-- all its flags false.
pub data Fields : Type 0 where
  join_request : Bytes → Bytes → Bytes → Fields
  unconfirmed_data_up : Bytes → ℕ → ℕ → Bytes → Fields

-- lora-packet. A call that may throw gives an `Option`.
pub record LoraPacket : Type 1 where
  pub Packet : Type 0
  pub from_fields : Fields → Packet
  pub from_fields_keyed : Fields → Bytes → Bytes → Packet
  pub recalculate_mic : Packet → Bytes → Bytes → Packet
  pub get_phy_payload : Packet → Bytes
  pub from_wire : Bytes → Option Packet
  pub dev_addr : Packet → Bytes
  pub net_id : Packet → Bytes
  pub app_nonce : Packet → Bytes
  pub f_port : Packet → Bytes
  pub decrypt_join_accept : Packet → Bytes → Bytes
  pub generate_session_keys : Bytes → Bytes → Bytes → Bytes → Bytes × Bytes
  pub decrypt : Packet → Bytes → Bytes → Bytes
  pub from_hex : String → Bytes
  pub to_hex : Bytes → String

module _ (lora : LoraPacket) where
  open lora use {Packet, from_hex, to_hex}

  unfoldable pub build_join_request : DeviceCredentials → Bytes → Bytes
  build_join_request cred dev_nonce =
      let app_key = from_hex cred.app_key in
      let packet =
        lora.from_fields
          (join_request (from_hex cred.join_eui) (from_hex cred.dev_eui) dev_nonce) in
      lora.get_phy_payload (lora.recalculate_mic packet app_key app_key)

  -- The session of a decrypted Join Accept.
  unfoldable pub session_of : DeviceCredentials → Bytes → Packet → DeviceSession
  session_of cred dev_nonce accept =
      let keys =
        lora.generate_session_keys (from_hex cred.app_key) (lora.net_id accept)
          (lora.app_nonce accept) dev_nonce in
      record {
        dev_eui = cred.dev_eui;
        dev_addr = to_hex (lora.dev_addr accept);
        nwk_s_key = to_hex keys.0;
        app_s_key = to_hex keys.1;
      }

  unfoldable pub accepted : DeviceCredentials → Bytes → Option Packet → Option DeviceSession
  accepted cred dev_nonce none = none
  accepted cred dev_nonce (some accept) = some (session_of cred dev_nonce accept)

  -- `none` where one of the two parses throws.
  unfoldable pub derive_session : DeviceCredentials → Bytes → Bytes → Option DeviceSession
  unfolding accepted
  derive_session cred dev_nonce phy = elim (lora.from_wire phy) [
    | none ↦ none
    | some received ↦
        accepted cred dev_nonce
          (lora.from_wire (lora.decrypt_join_accept received (from_hex cred.app_key)))
  ]

  unfoldable pub downlink_dev_addr : Bytes → Option String
  downlink_dev_addr phy = elim (lora.from_wire phy) [
    | none ↦ none
    | some packet ↦ some (to_hex (lora.dev_addr packet))
  ]

  abbrev first_byte : Bytes → Option ℕ
  first_byte [] = none
  first_byte (b ∷ bs) = some b

  -- A frame without a port is a MAC-only one.
  unfoldable pub downlink_f_port : Bytes → Option ℕ
  downlink_f_port phy = elim (lora.from_wire phy) [
    | none ↦ none
    | some packet ↦ first_byte (lora.f_port packet)
  ]

  unfoldable pub decrypt_downlink : DeviceSession → Bytes → Option Bytes
  decrypt_downlink session phy = elim (lora.from_wire phy) [
    | none ↦ none
    | some packet ↦
        some (lora.decrypt packet (from_hex session.app_s_key) (from_hex session.nwk_s_key))
  ]

  unfoldable pub build_uplink : DeviceSession → ℕ → Bytes → ℕ → Bytes
  build_uplink session f_cnt payload port = lora.get_phy_payload (
      lora.from_fields_keyed (unconfirmed_data_up (from_hex session.dev_addr) f_cnt port payload)
        (from_hex session.app_s_key) (from_hex session.nwk_s_key))
