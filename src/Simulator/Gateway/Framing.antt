-- ===== src/Simulator/Gateway/Framing.antt =====
-- The frames of the gateway, byte by byte, and what a received datagram does.
use air_quality_monitoring.Base.{
  ℕ, ◌/◌, ◌%◌, ◌<◌, ◌≤◌, ◌≡◌, ◌≢◌, ◌⊎◌, refl, List, [], ◌∷◌, arith, length, ==_iff,
}
use air_quality_monitoring.Codec.Words.{Bytes, IsBytes, get_uint8}
use air_quality_monitoring.Simulator.Gateway.{
  header, ack_of, pull_resp, Gateway, PullResp, malformed, no_data, downlink, resolve_waiter,
  take_downlink, on_message, deliver,
}

-- A header is the version, the token with its high byte first, the type and the EUI.
pub header-eq :
    (a b c d e f g h token packet_type : ℕ)
    → IsBytes (a ∷ b ∷ c ∷ d ∷ e ∷ f ∷ g ∷ h ∷ [])
    → token < 65536
    → packet_type < 256
    → header (a ∷ b ∷ c ∷ d ∷ e ∷ f ∷ g ∷ h ∷ []) token packet_type
      ≡ 2 ∷ (token / 256) ∷ (token % 256) ∷ packet_type ∷ a ∷ b ∷ c ∷ d ∷ e ∷ f ∷ g ∷ h ∷ []
unfolding header
header-eq a b c d e f g h token packet_type w t p = ground (arith, w)

-- The EUI of a gateway: eight bytes.
abbrev pub IsEui : Bytes → Type 0
IsEui eui = (length eui ≡ 8) × IsBytes eui

ack_of-eq :
    (eui msg : Bytes)
    → IsEui eui
    → IsBytes msg
    → 4 ≤ length msg
    → ack_of eui msg ≡ 2 ∷ get_uint8 msg 1 ∷ get_uint8 msg 2 ∷ 5 ∷ eui
unfolding ack_of
ack_of-eq (a ∷ b ∷ c ∷ d ∷ e ∷ f ∷ g ∷ h ∷ []) (v ∷ x ∷ y ∷ z ∷ rest) (n, w) m l =
    ground (arith, w, m)
ack_of-eq (a ∷ b ∷ c ∷ d ∷ e ∷ f ∷ g ∷ h ∷ i ∷ more) msg (n, w) m l = absurd (omega arith)
ack_of-eq _ [] w m l = absurd (omega arith)
ack_of-eq _ (v ∷ []) w m l = absurd (omega arith)
ack_of-eq _ (v ∷ x ∷ []) w m l = absurd (omega arith)
ack_of-eq _ (v ∷ x ∷ y ∷ []) w m l = absurd (omega arith)
ack_of-eq _ _ (n, w) m l = absurd (omega arith)

resolve_waiter-sent :
    (ws : List ℕ) (phy : Bytes) (g : Gateway) → (resolve_waiter ws phy g).sent ≡ g.sent
resolve_waiter-sent [] phy g = ground arith
resolve_waiter-sent (w ∷ ws) phy g = refl

take_downlink-sent : (r : PullResp) (g : Gateway) → (take_downlink r g).sent ≡ g.sent
unfolding deliver
take_downlink-sent malformed g = refl
take_downlink-sent no_data g = refl
take_downlink-sent (downlink phy) g = resolve_waiter-sent g.waiters phy g

-- Every PULL_RESP of four bytes or more is acknowledged by one datagram, whatever its JSON holds and
-- whoever waits for it: version 2, the token of the message, TX_ACK and the EUI of the gateway. No
-- other message does anything.
pub on_message_acknowledges :
    (read : Bytes → PullResp) (eui msg : Bytes) (g : Gateway)
    → IsEui eui
    → IsBytes msg
    → let g' = on_message read eui msg g in
      (4 ≤ length msg
        → get_uint8 msg 3 ≡ 3
        → g'.sent ≡ (2 ∷ get_uint8 msg 1 ∷ get_uint8 msg 2 ∷ 5 ∷ eui) ∷ g.sent)
      × ((length msg < 4) ⊎ (get_uint8 msg 3 ≢ 3) → g' ≡ g)
unfolding on_message
on_message_acknowledges read eui msg g w m = (
  λ l t. ground (
    arith,
    ack_of-eq eui msg w m l,
    take_downlink-sent (read msg) g,
    ==_iff (get_uint8 msg 3) pull_resp,
  ),
  λ o. ground (arith, o, ==_iff (get_uint8 msg 3) pull_resp),
)
