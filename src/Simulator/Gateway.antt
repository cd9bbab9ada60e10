-- ===== src/Simulator/Gateway.antt =====
-- services/simulator/src/gateway.ts: the Semtech UDP packet forwarder. A datagram is a list of bytes. The
-- promises of waitForDownlink are numbered; the JSON of a PULL_RESP is read by a parameter.
pub mod Framing
pub mod Waiting
use air_quality_monitoring.Base.{
  ℕ, zero, suc, ◌+◌, ◌/◌, ◌%◌, ◌≡◌, ◌<◌, Bool, true, false, not, Option, none, some, List, [], ◌∷◌,
  ◌++◌, ◌==◌, ltb, if◌then◌else◌, length, replicate, keep, any,
}
use air_quality_monitoring.Codec.Words.{Bytes, set_uint8, get_uint8}

abbrev pub proto_version : ℕ
proto_version = 0x02

abbrev pub push_data : ℕ
push_data = 0x00

abbrev pub pull_data : ℕ
pull_data = 0x02

abbrev pub pull_resp : ℕ
pull_resp = 0x03

abbrev pub tx_ack : ℕ
tx_ack = 0x05

-- `source.copy(target, at)`: what does not fit is left out.
abbrev pub copy : Bytes → ℕ → Bytes → Bytes
copy target at [] = target
copy target at (b ∷ bs) = copy (set_uint8 target at b) (suc at) bs

-- `writeUInt16BE`
abbrev pub set_uint16_be : Bytes → ℕ → ℕ → Bytes
set_uint16_be bytes i v = set_uint8 (set_uint8 bytes i (v / 256)) (suc i) (v % 256)

-- `eui` are the bytes of the gateway's EUI, `token` the random number of the frame.
unfoldable pub header : Bytes → ℕ → ℕ → Bytes
header eui token packet_type =
    copy
      (set_uint8 (set_uint16_be (set_uint8 (replicate 12 0) 0 proto_version) 1 token) 3 packet_type)
      4 eui

-- The PUSH_DATA datagram of an uplink, its JSON already in UTF-8.
unfoldable pub push : Bytes → ℕ → Bytes → Bytes
unfolding header
push eui token rxpk = header eui token push_data ++ rxpk

-- `msg.copy(ack, 1, 1, 3)` copies the token.
unfoldable pub ack_of : Bytes → Bytes → Bytes
ack_of eui msg =
    copy
      (set_uint8
        (set_uint8 (set_uint8 (set_uint8 (replicate 12 0) 0 proto_version) 1 (get_uint8 msg 1)) 2
          (get_uint8 msg 2))
        3 tx_ack)
      4 eui

-- A gateway: the promises that wait, in order, those that were resolved, with their downlink, or
-- rejected, what the handler of data downlinks was given, and the datagrams sent, newest first.
pub record Gateway : Type 0 where
  pub waiters : List ℕ
  pub next_waiter : ℕ
  pub resolved : List (ℕ × Bytes)
  pub rejected : List ℕ
  pub has_handler : Bool
  pub handled : List Bytes
  pub sent : List Bytes

abbrev pub initial : Gateway
initial = record {
  waiters = [];
  next_waiter = 0;
  resolved = [];
  rejected = [];
  has_handler = false;
  handled = [];
  sent = [];
}

abbrev pub transmit : Bytes → Gateway → Gateway
transmit datagram g = record g { sent = datagram ∷ g.sent }

-- sendPullData, at `start` and by its timer.
unfoldable pub send_pull_data : Bytes → ℕ → Gateway → Gateway
unfolding header
send_pull_data eui token g = transmit (header eui token pull_data) g

unfoldable pub uplink : Bytes → ℕ → Bytes → Gateway → Gateway
unfolding push
uplink eui token rxpk g = transmit (push eui token rxpk) g

unfoldable pub on_data_downlink : Gateway → Gateway
on_data_downlink g = record g { has_handler = true }

unfoldable pub wait_for_downlink : Gateway → Gateway
wait_for_downlink g = record g {
  waiters = g.waiters ++ g.next_waiter ∷ [];
  next_waiter = suc g.next_waiter;
}

-- The timer of a waiter, which its resolution clears.
unfoldable pub expire : ℕ → Gateway → Gateway
expire id g = record g { waiters = keep (λ w. not (w == id)) g.waiters; rejected = id ∷ g.rejected }

abbrev pub resolve_waiter : List ℕ → Bytes → Gateway → Gateway
resolve_waiter [] phy g = if g.has_handler then record g { handled = phy ∷ g.handled } else g
resolve_waiter (w ∷ ws) phy g = record g { waiters = ws; resolved = (w, phy) ∷ g.resolved }

-- `downlinkWaiters.shift()`, or the handler if none waits.
unfoldable pub deliver : Bytes → Gateway → Gateway
deliver phy g = resolve_waiter g.waiters phy g

-- What the JSON of a PULL_RESP holds: not JSON, no data, or the bytes of a downlink.
pub data PullResp : Type 0 where
  malformed no_data : PullResp
  downlink : Bytes → PullResp

abbrev pub take_downlink : PullResp → Gateway → Gateway
take_downlink malformed g = g
take_downlink no_data g = g
take_downlink (downlink phy) g = deliver phy g

module _ (read_pull_resp : Bytes → PullResp) (eui : Bytes) where
  unfoldable pub on_message : Bytes → Gateway → Gateway
  unfolding ack_of deliver
  on_message msg g =
      if ltb (length msg) 4
      then g
      else if get_uint8 msg 3 == pull_resp
      then transmit (ack_of eui msg) (take_downlink (read_pull_resp msg) g)
      else g

  pub data Step : Gateway → Gateway → Type 0 where
    pulled : (g : Gateway) (token : ℕ) → Step g (send_pull_data eui token g)
    pushed : (g : Gateway) (token : ℕ) (rxpk : Bytes) → Step g (uplink eui token rxpk g)
    handler_set : (g : Gateway) → Step g (on_data_downlink g)
    waited : (g : Gateway) → Step g (wait_for_downlink g)
    expired : (g : Gateway) (id : ℕ) → any (λ w. w == id) g.waiters ≡ true → Step g (expire id g)
    received : (g : Gateway) (msg : Bytes) → Step g (on_message msg g)

  pub data Reachable : Gateway → Type 0 where
    start : Reachable initial
    next : {g g' : Gateway} → Reachable g → Step g g' → Reachable g'
