-- ===== src/Simulator/Node.antt =====
-- services/simulator/src/index.ts: a node that wakes, sleeps and takes downlinks, one thing at a time.
-- The maps of main are keyed by the node, and each node uses its own entries alone.
pub mod Waking
pub mod Serial
use air_quality_monitoring.Base.{
  ℕ, suc, ◌+◌, ◌*◌, ◌/◌, ◌≡◌, max, Bool, true, false, not, Option, none, some, List, [], ◌∷◌, ◌++◌,
  ◌==◌, find, if◌then◌else◌,
}
use air_quality_monitoring.Base.Strings.{String, str_eq}
use air_quality_monitoring.Codec.Words.{Bytes}
use air_quality_monitoring.Codec.ConfigReport.{config_report_fport}
use air_quality_monitoring.Codec.Downlink.{downlink_fport}
use air_quality_monitoring.Simulator.Lora.{
  LoraPacket, DeviceSession, build_uplink, decrypt_downlink, downlink_dev_addr, downlink_f_port,
}

abbrev pub default_interval_s : ℕ
default_interval_s = 300

-- What one wake of the firmware gives.
pub record Wake : Type 0 where
  pub f_port : ℕ
  pub payload : Bytes
  pub sleep_s : ℕ

-- How a wake ends: the firmware threw, the uplink could not be built or sent, or it was sent.
pub data WakeEnd : Type 0 where
  no_answer : WakeEnd
  not_sent : Wake → WakeEnd
  sent : Wake → Bytes → WakeEnd

-- How the firmware is called for a wake.
pub record Call : Type 0 where
  pub boot : Bool
  pub f_cnt : ℕ

pub data Job : Type 0 where
  wake_job : Job
  downlink_job : Bytes → Job

-- A job that is under way: a wake with its `fc`, or a downlink with its data.
pub data Running : Type 0 where
  waking : ℕ → Running
  applying : Bytes → Running

-- `current` is the job that is being done, `waiting` the ones chained after it, the next one first.
-- `timer` is the delay of the timeout that is armed. `asked`, `begun` and `finished` keep, in
-- order, the jobs that were given to serial, those that were begun and those that ended; `calls`
-- and `uplinks` the newest first.
pub record Node : Type 0 where
  pub f_cnt : ℕ
  pub booted : Bool
  pub timer : Option ℕ
  pub current : Option Running
  pub waiting : List Job
  pub asked : List Job
  pub begun : List Job
  pub finished : List Job
  pub calls : List Call
  pub uplinks : List (ℕ × Bytes)
  pub readings_sent : ℕ
  pub reports_sent : ℕ

-- `Math.max(1000, Math.round((INTERVAL_MS * sleepS) / DEFAULT_INTERVAL_S))`
unfoldable pub sleep_ms : ℕ → ℕ → ℕ
sleep_ms interval_ms sleep_s =
    max 1000 ((2 * (interval_ms * sleep_s) + default_interval_s) / (2 * default_interval_s))

-- The state right after the first `wake(session)`.
abbrev pub powered : Node
powered = record {
  f_cnt = 0;
  booted = false;
  timer = none;
  current = none;
  waiting = wake_job ∷ [];
  asked = wake_job ∷ [];
  begun = [];
  finished = [];
  calls = [];
  uplinks = [];
  readings_sent = 0;
  reports_sent = 0;
}

unfoldable pub serial : Job → Node → Node
serial job n = record n { waiting = n.waiting ++ job ∷ []; asked = n.asked ++ job ∷ [] }

-- A job up to its first await. A wake counts, marks the boot and calls the firmware.
unfoldable pub begin_job : Job → Node → Node
begin_job wake_job n = record n {
  f_cnt = suc n.f_cnt;
  booted = true;
  calls = record { boot = not n.booted; f_cnt = suc n.f_cnt } ∷ n.calls;
  current = some (waking (suc n.f_cnt));
}
begin_job (downlink_job bytes) n = record n { current = some (applying bytes) }

-- The next job of the chain begins when the one before it is settled.
unfoldable pub take_job : Job → List Job → Node → Node
unfolding begin_job
take_job job rest n = begin_job job (record n { waiting = rest; begun = n.begun ++ job ∷ [] })

-- The promise of a job is settled.
unfoldable pub finish : Job → Node → Node
finish job n = record n { current = none; finished = n.finished ++ job ∷ [] }

-- The report or the reading that is counted.
unfoldable pub counted : ℕ → Node → Node
counted f_port n =
    if f_port == config_report_fport
    then record n { reports_sent = suc n.reports_sent }
    else record n { readings_sent = suc n.readings_sent }

module _ (interval_ms : ℕ) where
  -- clearTimeout and setTimeout.
  unfoldable pub schedule : ℕ → Node → Node
  schedule sleep_s n = record n { timer = some (sleep_ms interval_ms sleep_s) }

  -- The timeout calls wake.
  unfoldable pub fire : Node → Node
  unfolding serial
  fire n = serial wake_job (record n { timer = none })

  -- The rest of a wake. An uplink that was not sent leaves the sleep that the firmware gave.
  unfoldable pub end_wake : ℕ → WakeEnd → Node → Node
  unfolding schedule counted finish
  end_wake fc no_answer n = schedule default_interval_s (finish wake_job n)
  end_wake fc (not_sent out) n = schedule out.sleep_s (finish wake_job n)
  end_wake fc (sent out phy) n =
      schedule out.sleep_s
        (counted out.f_port (record (finish wake_job n) { uplinks = (fc, phy) ∷ n.uplinks }))

  -- The rest of a downlink: the seconds to sleep that the firmware gives, or `none` where it threw.
  unfoldable pub end_downlink : Bytes → Option ℕ → Node → Node
  unfolding schedule finish
  end_downlink bytes none n = finish (downlink_job bytes) n
  end_downlink bytes (some sleep_s) n = schedule sleep_s (finish (downlink_job bytes) n)

  module _ (lora : LoraPacket) (session : DeviceSession) where
    -- The uplink of a wake.
    abbrev pub sent_by : ℕ → Wake → WakeEnd
    sent_by fc out = sent out (build_uplink lora session fc out.payload out.f_port)

    -- What can happen next to a node. The firmware gives what it may.
    pub data Step : Node → Node → Type 0 where
      fired : (n : Node) (delay : ℕ) → n.timer ≡ some delay → Step n (fire n)
      queued : (n : Node) (bytes : Bytes) → Step n (serial (downlink_job bytes) n)
      taken :
          (n : Node) (job : Job) (rest : List Job)
          → n.current ≡ none
          → n.waiting ≡ job ∷ rest
          → Step n (take_job job rest n)
      woke :
          (n : Node) (fc : ℕ) (out : Wake)
          → n.current ≡ some (waking fc)
          → Step n (end_wake fc (sent_by fc out) n)
      wake_failed :
          (n : Node) (fc : ℕ) → n.current ≡ some (waking fc) → Step n (end_wake fc no_answer n)
      send_failed :
          (n : Node) (fc : ℕ) (out : Wake)
          → n.current ≡ some (waking fc)
          → Step n (end_wake fc (not_sent out) n)
      applied :
          (n : Node) (bytes : Bytes) (result : Option ℕ)
          → n.current ≡ some (applying bytes)
          → Step n (end_downlink bytes result n)

    pub data Reachable : Node → Type 0 where
      on : Reachable powered
      next : {n n' : Node} → Reachable n → Step n n' → Reachable n'

module _ (lora : LoraPacket) where
  -- `sessions.find(…)`. An address that cannot be read is that of no session: the handler throws.
  abbrev session_at : Option String → List DeviceSession → Option DeviceSession
  session_at none sessions = none
  session_at (some addr) sessions = find (λ s. str_eq s.dev_addr addr) sessions

  abbrev is_downlink_port : Option ℕ → Bool
  is_downlink_port none = false
  is_downlink_port (some port) = port == downlink_fport

  -- The handler of gateway.onDataDownlink up to serial: the node and the job that it is given.
  unfoldable pub downlink_for : List DeviceSession → Bytes → Option (DeviceSession × Job)
  downlink_for sessions phy = elim (session_at (downlink_dev_addr lora phy) sessions) [
    | none ↦ none
    | some session ↦
        if is_downlink_port (downlink_f_port lora phy)
        then (elim (decrypt_downlink lora session phy) [
          | none ↦ none
          | some bytes ↦ some (session, downlink_job bytes)
        ])
        else none
  ]
