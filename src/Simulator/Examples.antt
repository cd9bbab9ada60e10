-- ===== src/Simulator/Examples.antt =====
-- The simulator at concrete runs.
use air_quality_monitoring.Base.{
  ℕ, ◌≡◌, ◌≤◌, refl, Option, none, some, List, [], ◌∷◌, arith, length, Result, ok, throw, ◌==◌,
  if◌then◌else◌,
}
use air_quality_monitoring.Base.Strings.{String}
use air_quality_monitoring.Codec.Words.{Bytes, IsBytes}
use air_quality_monitoring.Simulator.Gateway
use air_quality_monitoring.Simulator.Gateway.{
  Gateway, PullResp, downlink, header, on_message, wait_for_downlink,
}
use air_quality_monitoring.Simulator.Gateway.Waiting.{IsOnce, Reachable-IsOnce}
use air_quality_monitoring.Simulator.Lora.{
  LoraPacket, DeviceSession, derive_session, DeviceCredentials,
}
use air_quality_monitoring.Simulator.Join.{
  JoinWorld, attempt_join, join_device, provision_with_retry,
}
use air_quality_monitoring.Simulator.Join.Attempts.{provision_with_retry-ends, SettledAt}
use air_quality_monitoring.Simulator.Node
use air_quality_monitoring.Simulator.Node.{
  Node, wake_job, Wake, not_sent, take_job, sleep_ms, schedule, end_wake, fire, sent_by,
}
use air_quality_monitoring.Simulator.Node.Waking.{IsAwake, Reachable-IsAwake}
use air_quality_monitoring.Simulator.Node.Serial.{IsSerial, Reachable-IsSerial}

abbrev eui : Bytes
eui = 0xac ∷ 0x1f ∷ 0x09 ∷ 0xff ∷ 0xfe ∷ 0x00 ∷ 0x01 ∷ 0x01 ∷ []

eui-IsBytes : IsBytes eui
eui-IsBytes = ground arith

-- A PULL_RESP whose downlink is the rest of the message.
abbrev read : Bytes → PullResp
read msg = downlink msg

abbrev pull_resp_message : Bytes
pull_resp_message = 2 ∷ 7 ∷ 8 ∷ 3 ∷ 123 ∷ []

message-IsBytes : IsBytes pull_resp_message
message-IsBytes = ground arith

abbrev one_waits : Gateway
one_waits = wait_for_downlink Gateway.initial

abbrev answered : Gateway
answered = on_message read eui pull_resp_message one_waits

Reachable-IsOnce_example : IsOnce answered
Reachable-IsOnce_example = Reachable-IsOnce read eui answered (
    Gateway.next (Gateway.next Gateway.start (Gateway.waited Gateway.initial))
      (Gateway.received one_waits pull_resp_message))

-- A radio that sends what it is given in clear.
abbrev clear : LoraPacket
clear = record {
  Packet = Bytes;
  from_fields = λ fields. 1 ∷ [];
  from_fields_keyed = λ fields app_key nwk_key. 2 ∷ [];
  recalculate_mic = λ packet app_key key. packet;
  get_phy_payload = λ packet. packet;
  from_wire = λ bytes. some bytes;
  dev_addr = λ packet. packet;
  net_id = λ packet. [];
  app_nonce = λ packet. [];
  f_port = λ packet. 10 ∷ [];
  decrypt_join_accept = λ packet key. packet;
  generate_session_keys = λ key net nonce dev. (key, dev);
  decrypt = λ packet key nwk. packet;
  from_hex = λ text. [];
  to_hex = λ bytes. "00";
}

abbrev cred : DeviceCredentials
cred = record { dev_eui = "70b3d57ed0060001"; join_eui = "0102030405060708"; app_key = "2b7e" }

-- The third attempt is answered.
abbrev third_answers : ℕ → Option Bytes
third_answers attempt = if attempt == 3 then some (9 ∷ []) else none

abbrev lossy : JoinWorld
lossy = record { dev_nonce = λ k. k ∷ []; answer = third_answers }

three_requests : length (join_device clear lossy cred).1 ≡ 3
unfolding join_device attempt_join derive_session
three_requests = refl

-- The server answers at the second attempt.
abbrev slow_server : ℕ → Result String (List String)
slow_server attempt =
    if attempt == 1 then throw "connection refused" else ok ("70b3d57ed0060001" ∷ [])

provision_with_retry-ends_example :
    (k : ℕ) × (r : Result String (List String)) × SettledAt slow_server 1 k r
    × ((fuel : ℕ) → 30 ≤ fuel → provision_with_retry slow_server fuel ≡ some r)
provision_with_retry-ends_example = provision_with_retry-ends slow_server

abbrev session : DeviceSession
session = record {
  dev_eui = "70b3d57ed0060001";
  dev_addr = "00";
  nwk_s_key = "01";
  app_s_key = "02";
}

abbrev reading : Wake
reading = record { f_port = 2; payload = 5 ∷ []; sleep_s = 300 }

abbrev awake : Node
awake = take_job wake_job [] Node.powered

abbrev asleep : Node
asleep = end_wake 15000 1 (sent_by 15000 clear session 1 reading) awake

-- An uplink that is not sent leaves the sleep that the firmware gave: 60 seconds are 3 at this pace.
unsent_sleeps :
    (end_wake 15000 1 (not_sent (record reading { sleep_s = 60 })) awake).timer ≡ some 3000
unfolding end_wake schedule sleep_ms
unsent_sleeps = refl

asleep-Reachable : Node.Reachable 15000 clear session asleep
unfolding take_job
asleep-Reachable =
    Node.next (Node.next Node.on (Node.taken Node.powered wake_job [] refl refl))
      (Node.woke awake 1 reading refl)

Reachable-IsAwake_example : IsAwake asleep
Reachable-IsAwake_example = Reachable-IsAwake 15000 clear session asleep asleep-Reachable

Reachable-IsSerial_example : IsSerial asleep
Reachable-IsSerial_example = Reachable-IsSerial 15000 clear session asleep asleep-Reachable
