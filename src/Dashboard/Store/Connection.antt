-- ===== src/Dashboard/Store/Connection.antt =====
-- The live channel of apps/dashboard/src/stores/air.ts and its fallback: the connection state, the
-- delay before polling, the polling timer, and the polls that are under way.
pub mod Arming
use air_quality_monitoring.Base.{ℕ, suc, ◌<◌, ◌≡◌, Bool, true, false, not, ◌||◌, if◌then◌else◌}
use air_quality_monitoring.Dashboard.Model.{
  ConnectionState, connecting, live, reconnecting, polling,
}

-- `subscribed` says that the store holds a subscription (stopRealtime), and `reported` that the
-- socket has reported since it was made. `polls` counts the polls that were begun, `resyncs` the
-- calls of syncLatest when the channel is back.
pub record Channel : Type 0 where
  pub subscribed : Bool
  pub reported : Bool
  pub connection : ConnectionState
  pub poll_delay : Bool
  pub poll_timer : Bool
  pub polls : ℕ
  pub resyncs : ℕ

abbrev pub is_connecting : ConnectionState → Bool
is_connecting connecting = true
is_connecting _ = false

abbrev pub is_live : ConnectionState → Bool
is_live live = true
is_live _ = false

abbrev pub initial : Channel
initial = record {
  subscribed = false;
  reported = false;
  connection = connecting;
  poll_delay = false;
  poll_timer = false;
  polls = 0;
  resyncs = 0;
}

unfoldable pub stop_polling : Channel → Channel
stop_polling c = record c { poll_delay = false; poll_timer = false }

unfoldable pub on_connected : Channel → Channel
unfolding stop_polling
on_connected c =
    let was_down = not (is_connecting c.connection) in
    record (stop_polling c) {
      reported = true;
      connection = live;
      resyncs = if was_down then suc c.resyncs else c.resyncs;
    }

unfoldable pub on_disconnected : Channel → Channel
on_disconnected c =
    let state =
      if is_live c.connection || is_connecting c.connection then reconnecting else c.connection in
    record c {
      reported = true;
      connection = state;
      poll_delay = if c.poll_delay || c.poll_timer then c.poll_delay else true;
    }

unfoldable pub on_connection : Bool → Channel → Channel
unfolding on_connected on_disconnected
on_connection true c = on_connected c
on_connection false c = on_disconnected c

-- The callback of the delay: one poll now, the others by the timer.
unfoldable pub on_poll_delay : Channel → Channel
on_poll_delay c = record c { poll_delay = false; poll_timer = true; polls = suc c.polls }

unfoldable pub on_poll_timer : Channel → Channel
on_poll_timer c = record c { polls = suc c.polls }

-- A poll is answered, or fails.
unfoldable pub on_polled : Bool → Channel → Channel
on_polled answered c = record c {
  connection = if is_live c.connection then live else if answered then polling else reconnecting;
}

-- `stopRealtime ??= service.subscribe(…)`
unfoldable pub subscribe : Channel → Channel
subscribe c = if c.subscribed then c else record c { subscribed = true; reported = false }

-- stop: the subscription ends and stopPolling is called; a poll that is under way goes on.
unfoldable pub stop : Channel → Channel
unfolding stop_polling
stop c = record (stop_polling c) { subscribed = false; reported = false }

-- A step of the channel: a load subscribes, the store is stopped, the socket of a subscription
-- reports, an armed timer fires, a poll that was begun ends.
pub data Step : Channel → Channel → Type 0 where
  subscribed_to : (c : Channel) → Step c (subscribe c)
  stopped : (c : Channel) → Step c (stop c)
  connection_changed :
      (c : Channel) (connected : Bool) → c.subscribed ≡ true → Step c (on_connection connected c)
  delay_fired : (c : Channel) → c.poll_delay ≡ true → Step c (on_poll_delay c)
  timer_fired : (c : Channel) → c.poll_timer ≡ true → Step c (on_poll_timer c)
  poll_ended : (c : Channel) (answered : Bool) → 0 < c.polls → Step c (on_polled answered c)

pub data Reachable : Channel → Type 0 where
  start : Reachable initial
  next : (c c' : Channel) → Reachable c → Step c c' → Reachable c'
