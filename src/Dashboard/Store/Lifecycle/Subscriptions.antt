-- ===== src/Dashboard/Store/Lifecycle/Subscriptions.antt =====
-- However often the store is started, retried and stopped, it holds one subscription and one pair of
-- timers at most.
use air_quality_monitoring.Base.{◌≡◌, ◌⊎◌, inl, refl, false, arith, if◌then◌else◌}
use air_quality_monitoring.Dashboard.Store.Connection
use air_quality_monitoring.Dashboard.Store.Lifecycle.{
  Life, no_service, request_failed, loaded, end_load, start, retry, stop, Step, started, retried,
  load_ended, stopped, Reachable, initially, next,
}

pub record IsHeld (l : Life) : Type 0 where
  pub socket : l.sockets ≡ (if l.stop_realtime then 1 else 0)
  pub intervals : l.intervals ≡ l.timers
  pub timers : (l.timers ≡ 0) ⊎ (l.timers ≡ 2)

Step-IsHeld : {l l' : Life} → Step l l' → IsHeld l → IsHeld l'
unfolding start retry stop end_load
Step-IsHeld (started l) w = ground (arith, w.socket, w.intervals, w.timers)
Step-IsHeld (retried l) w = ground (arith, w.socket, w.intervals, w.timers)
Step-IsHeld (load_ended l (no_service e) p) w = ground (arith, w.socket, w.intervals, w.timers)
Step-IsHeld (load_ended l (request_failed e) p) w = ground (arith, w.socket, w.intervals, w.timers)
Step-IsHeld (load_ended l loaded p) w = ground (arith, w.socket, w.intervals, w.timers)
Step-IsHeld (stopped l) w = ground (arith, w.socket, w.intervals, w.timers)

-- In every state that starts, retries, stops and ends of loads reach, in any order, the store holds at
-- most one live subscription, exactly the timers that it remembers, and these are none or two.
pub Reachable-IsHeld : (l : Life) → Reachable l → IsHeld l
Reachable-IsHeld _ initially = record { socket = refl; intervals = refl; timers = inl refl }
Reachable-IsHeld _ (next r st) = Step-IsHeld st (Reachable-IsHeld _ r)

-- Stopping, in every state that is reached, releases all that is live: the subscription, the timers, those
-- of the polls included, and the listener.
pub stop_releases :
    (l : Life)
    → Reachable l
    → ((stop l).sockets ≡ 0)
      × ((stop l).intervals ≡ 0)
      × ((stop l).listening ≡ false)
      × ((stop l).channel.poll_delay ≡ false)
      × ((stop l).channel.poll_timer ≡ false)
unfolding stop Connection.stop Connection.stop_polling
stop_releases l r = let w = Reachable-IsHeld l r in ground (arith, w.socket, w.intervals)
