-- ===== src/Dashboard/Store/Lifecycle.antt =====
-- The life of the store of apps/dashboard/src/stores/air.ts: load, start, retry, stop, and what they
-- subscribe to. A load is begun and ends later; several may be under way.
pub mod Subscriptions
use air_quality_monitoring.Base.{
  ℕ, zero, suc, ◌+◌, ◌-◌, ◌<◌, ◌≡◌, Bool, true, false, Option, none, some, if◌then◌else◌,
}
use air_quality_monitoring.Base.Strings.{String}
use air_quality_monitoring.Dashboard.Store.Connection
use air_quality_monitoring.Dashboard.Store.Connection.{Channel}

-- `sockets`, `intervals` and `listeners` count what is live: calls of service.subscribe, of setInterval
-- and of addEventListener, less those that were undone. The listener is one function, which a document
-- holds once. `channel` is the live channel with the timers of its polls.
pub record Life : Type 0 where
  pub has_service : Bool
  pub ready : Bool
  pub error : Option String
  pub starting : Bool
  pub stop_realtime : Bool
  pub timers : ℕ
  pub loads : ℕ
  pub sockets : ℕ
  pub intervals : ℕ
  pub listening : Bool
  pub channel : Channel

abbrev pub unstarted : Life
unstarted = record {
  has_service = false;
  ready = false;
  error = none;
  starting = false;
  stop_realtime = false;
  timers = 0;
  loads = 0;
  sockets = 0;
  intervals = 0;
  listening = false;
  channel = Connection.initial;
}

-- How the awaits of a load end: the service cannot be made, a request fails, or all is there.
pub data Outcome : Type 0 where
  no_service : String → Outcome
  request_failed : String → Outcome
  loaded : Outcome

-- load up to its first await.
unfoldable pub begin_load : Life → Life
begin_load l = record l { error = none; loads = suc l.loads }

-- `stopRealtime ??= service.subscribe(…)`
unfoldable pub subscribe_once : Life → Life
subscribe_once l = if l.stop_realtime then l else record l {
  stop_realtime = true;
  sockets = suc l.sockets;
  channel = Connection.subscribe l.channel;
}

-- `if (timers.length === 0)`: the clock, the periodic refresh, and the visibility listener.
unfoldable pub arm_once : Life → Life
arm_once l = elim l.timers [
  | zero ↦ record l { timers = 2; intervals = l.intervals + 2; listening = true }
  | suc _ ↦ l
]

-- load from its awaits on.
unfoldable pub end_load : Outcome → Life → Life
unfolding subscribe_once arm_once
end_load (no_service e) l = record l { error = some e; loads = l.loads - 1 }
end_load (request_failed e) l = record l { has_service = true; error = some e; loads = l.loads - 1 }
end_load loaded l =
    arm_once (subscribe_once (record l { has_service = true; ready = true; loads = l.loads - 1 }))

-- `starting ??= load()`
unfoldable pub start : Life → Life
unfolding begin_load
start l = if l.starting then l else record (begin_load l) { starting = true }

unfoldable pub retry : Life → Life
unfolding begin_load
retry l = record (begin_load l) { starting = true }

-- `stopPolling` is on the channel.
unfoldable pub stop : Life → Life
stop l = record l {
  starting = false;
  stop_realtime = false;
  sockets = if l.stop_realtime then l.sockets - 1 else l.sockets;
  timers = 0;
  intervals = l.intervals - l.timers;
  listening = false;
  channel = Connection.stop l.channel;
}

pub data Step : Life → Life → Type 0 where
  started : (l : Life) → Step l (start l)
  retried : (l : Life) → Step l (retry l)
  load_ended : (l : Life) (outcome : Outcome) → 0 < l.loads → Step l (end_load outcome l)
  stopped : (l : Life) → Step l (stop l)

pub data Reachable : Life → Type 0 where
  initially : Reachable unstarted
  next : {l l' : Life} → Reachable l → Step l l' → Reachable l'
