-- ===== src/Dashboard/Store/Connection/Arming.antt =====
-- When the channel's timers are armed, and that polling brings data while it is down.
use air_quality_monitoring.Base.{
  ℕ, ◌<◌, ◌≡◌, ◌⊎◌, inl, inr, refl, sym, ◌∙◌, subst, false≢true, Bool, true, false, not, arith,
  if◌then◌else◌,
}
use air_quality_monitoring.Dashboard.Model.{
  ConnectionState, connecting, live, reconnecting, polling,
}
use air_quality_monitoring.Dashboard.Store.Connection.{
  Channel, is_live, stop_polling, on_connected, on_disconnected, on_connection, on_poll_delay,
  on_poll_timer, on_polled, subscribe, stop, Step, subscribed_to, stopped, connection_changed,
  delay_fired, timer_fired, poll_ended, Reachable, start, next,
}

-- What holds while the channel is down: one of the two is armed once the socket has reported, and none
-- before.
abbrev pub OneArmed : Bool → Channel → Type 0
OneArmed true c = c.poll_delay ≡ not c.poll_timer
OneArmed false c = (c.poll_delay ≡ false) × (c.poll_timer ≡ false)

-- What holds in each state of the connection.
abbrev pub IsArmedAt : ConnectionState → Channel → Type 0
IsArmedAt connecting c = (c.poll_delay ≡ false) × (c.poll_timer ≡ false) × (c.polls ≡ 0)
IsArmedAt live c = (c.poll_delay ≡ false) × (c.poll_timer ≡ false)
IsArmedAt reconnecting c = OneArmed c.reported c
IsArmedAt polling c = OneArmed c.reported c

abbrev pub IsArmed : Channel → Type 0
IsArmed c = IsArmedAt c.connection c

abbrev channel : ConnectionState → Bool → Bool → Bool → Bool → ℕ → ℕ → Channel
channel state subscribed reported delay timer polls resyncs = record {
  subscribed = subscribed;
  reported = reported;
  connection = state;
  poll_delay = delay;
  poll_timer = timer;
  polls = polls;
  resyncs = resyncs;
}

disconnected_at :
    (state : ConnectionState) (subscribed reported delay timer : Bool) (polls resyncs : ℕ)
    → IsArmed (channel state subscribed reported delay timer polls resyncs)
    → IsArmed (on_disconnected (channel state subscribed reported delay timer polls resyncs))
unfolding on_disconnected
disconnected_at connecting sub rep d t p n (x, y, z) = ground arith
disconnected_at live sub rep d t p n (x, y) = ground arith
disconnected_at reconnecting sub true d t p n w = ground arith
disconnected_at reconnecting sub false d t p n (x, y) = ground arith
disconnected_at polling sub true d t p n w = ground arith
disconnected_at polling sub false d t p n (x, y) = ground arith

stopped_at :
    (state : ConnectionState) (subscribed reported delay timer : Bool) (polls resyncs : ℕ)
    → IsArmed (channel state subscribed reported delay timer polls resyncs)
    → IsArmed (stop (channel state subscribed reported delay timer polls resyncs))
unfolding stop stop_polling
stopped_at connecting sub rep d t p n (x, y, z) = (refl, refl, z)
stopped_at live sub rep d t p n w = (refl, refl)
stopped_at reconnecting sub rep d t p n w = (refl, refl)
stopped_at polling sub rep d t p n w = (refl, refl)

delayed_at :
    (state : ConnectionState) (subscribed reported delay timer : Bool) (polls resyncs : ℕ)
    → delay ≡ true
    → IsArmed (channel state subscribed reported delay timer polls resyncs)
    → IsArmed (on_poll_delay (channel state subscribed reported delay timer polls resyncs))
unfolding on_poll_delay
delayed_at connecting sub rep d t p n f (x, y, z) = ground arith
delayed_at live sub rep d t p n f (x, y) = ground arith
delayed_at reconnecting sub true d t p n f w = ground arith
delayed_at reconnecting sub false d t p n f (x, y) = ground arith
delayed_at polling sub true d t p n f w = ground arith
delayed_at polling sub false d t p n f (x, y) = ground arith

timed_at :
    (state : ConnectionState) (subscribed reported delay timer : Bool) (polls resyncs : ℕ)
    → timer ≡ true
    → IsArmed (channel state subscribed reported delay timer polls resyncs)
    → IsArmed (on_poll_timer (channel state subscribed reported delay timer polls resyncs))
unfolding on_poll_timer
timed_at connecting sub rep d t p n f (x, y, z) = ground arith
timed_at live sub rep d t p n f (x, y) = ground arith
timed_at reconnecting sub true d t p n f w = ground arith
timed_at reconnecting sub false d t p n f (x, y) = ground arith
timed_at polling sub true d t p n f w = ground arith
timed_at polling sub false d t p n f (x, y) = ground arith

polled_at :
    (state : ConnectionState) (subscribed reported answered delay timer : Bool) (polls resyncs : ℕ)
    → 0 < polls
    → IsArmed (channel state subscribed reported delay timer polls resyncs)
    → IsArmed (on_polled answered (channel state subscribed reported delay timer polls resyncs))
unfolding on_polled
polled_at connecting sub rep answered d t p n b (x, y, z) = absurd (omega arith)
polled_at live sub rep answered d t p n b w = w
polled_at reconnecting sub true true d t p n b w = w
polled_at reconnecting sub false true d t p n b w = w
polled_at reconnecting sub true false d t p n b w = w
polled_at reconnecting sub false false d t p n b w = w
polled_at polling sub true true d t p n b w = w
polled_at polling sub false true d t p n b w = w
polled_at polling sub true false d t p n b w = w
polled_at polling sub false false d t p n b w = w

-- Without a subscription no socket has reported.
abbrev pub IsQuiet : Channel → Type 0
IsQuiet c = c.subscribed ≡ false → c.reported ≡ false

pub record IsSound (c : Channel) : Type 0 where
  pub armed : IsArmed c
  pub quiet : IsQuiet c

IsSound-if :
    (b : Bool) (c d : Channel) → IsSound c → (b ≡ false → IsSound d) → IsSound (if b then c else d)
IsSound-if true c d w h = w
IsSound-if false c d w h = h refl

-- A new subscription of a socket that has not reported.
resubscribed_at :
    (state : ConnectionState) (subscribed reported delay timer : Bool) (polls resyncs : ℕ)
    → reported ≡ false
    → IsArmed (channel state subscribed reported delay timer polls resyncs)
    → IsArmed (channel state true false delay timer polls resyncs)
resubscribed_at connecting sub rep d t p n e w = w
resubscribed_at live sub rep d t p n e w = w
resubscribed_at reconnecting sub true d t p n e w = absurd (false≢true (sym e))
resubscribed_at reconnecting sub false d t p n e w = w
resubscribed_at polling sub true d t p n e w = absurd (false≢true (sym e))
resubscribed_at polling sub false d t p n e w = w

subscribe-IsSound : (c : Channel) → IsSound c → IsSound (subscribe c)
unfolding subscribe
subscribe-IsSound c w = IsSound-if c.subscribed c _ w (λ e. record {
  armed =
      resubscribed_at c.connection c.subscribed c.reported c.poll_delay c.poll_timer c.polls
        c.resyncs (w.quiet e) w.armed;
  quiet = λ _. refl;
})

on_connection-IsSound :
    (connected : Bool) (c : Channel)
    → c.subscribed ≡ true
    → IsSound c
    → IsSound (on_connection connected c)
unfolding on_connection stop_polling on_connected on_disconnected
on_connection-IsSound true c e w = record {
  armed = (refl, refl);
  quiet = λ f. absurd (false≢true (sym f ∙ e));
}
on_connection-IsSound false c e w = record {
  armed =
      disconnected_at c.connection c.subscribed c.reported c.poll_delay c.poll_timer c.polls
        c.resyncs w.armed;
  quiet = λ f. absurd (false≢true (sym f ∙ e));
}

Step-IsSound : (c c' : Channel) → Step c c' → IsSound c → IsSound c'
unfolding stop stop_polling on_poll_delay on_poll_timer on_polled
Step-IsSound _ _ (subscribed_to c) w = subscribe-IsSound c w
Step-IsSound _ _ (stopped c) w = record {
  armed =
      stopped_at c.connection c.subscribed c.reported c.poll_delay c.poll_timer c.polls c.resyncs
        w.armed;
  quiet = λ _. refl;
}
Step-IsSound _ _ (connection_changed c connected e) w = on_connection-IsSound connected c e w
Step-IsSound _ _ (delay_fired c fired) w = record {
  armed =
      delayed_at c.connection c.subscribed c.reported c.poll_delay c.poll_timer c.polls c.resyncs
        fired w.armed;
  quiet = w.quiet;
}
Step-IsSound _ _ (timer_fired c fired) w = record {
  armed =
      timed_at c.connection c.subscribed c.reported c.poll_delay c.poll_timer c.polls c.resyncs
        fired w.armed;
  quiet = w.quiet;
}
Step-IsSound _ _ (poll_ended c answered begun) w = record {
  armed =
      polled_at c.connection c.subscribed c.reported answered c.poll_delay c.poll_timer c.polls
        c.resyncs begun w.armed;
  quiet = w.quiet;
}

Reachable-IsSound : (c : Channel) → Reachable c → IsSound c
Reachable-IsSound _ start = record { armed = (refl, refl, refl); quiet = λ _. refl }
Reachable-IsSound _ (next c c' before step) = Step-IsSound c c' step (Reachable-IsSound c before)

-- In every state that subscriptions, stops, reports, timers and polls reach, in any order: if the channel
-- is live, neither the delay nor the polling timer is armed; if it is down, exactly one of them is once
-- the socket of the present subscription has reported, so that the next poll is ahead, and none before
-- that or after a stop; and before the socket's first report ever none is armed and no poll was begun.
pub Reachable-IsArmed : (c : Channel) → Reachable c → IsArmed c
Reachable-IsArmed c r = (Reachable-IsSound c r).armed

armed_when_down :
    (state : ConnectionState) (subscribed delay timer : Bool) (polls resyncs : ℕ)
    → (state ≡ reconnecting) ⊎ (state ≡ polling)
    → IsArmed (channel state subscribed true delay timer polls resyncs)
    → (delay ≡ true) ⊎ (timer ≡ true)
armed_when_down connecting sub d t p n down w = ground arith
armed_when_down live sub d t p n down w = ground arith
armed_when_down reconnecting sub d t p n down w = ground arith
armed_when_down polling sub d t p n down w = ground arith

-- From every state that it reaches while it is down, and in which the socket of the present
-- subscription has reported, the channel is at most one timer and one answered poll away from showing
-- polled data.
pub Reachable-recovers :
    (c : Channel)
    → Reachable c
    → c.reported ≡ true
    → (c.connection ≡ reconnecting) ⊎ (c.connection ≡ polling)
    → (c1 : Channel) × (c2 : Channel) × Step c c1 × Step c1 c2 × (c2.connection ≡ polling)
Reachable-recovers c r reported down =
    let armed : (c.poll_delay ≡ true) ⊎ (c.poll_timer ≡ true) =
      armed_when_down c.connection c.subscribed c.poll_delay c.poll_timer c.polls c.resyncs down (
        subst
          (λ rep.
            IsArmed
              (channel c.connection c.subscribed rep c.poll_delay c.poll_timer c.polls c.resyncs))
          reported (Reachable-IsArmed c r)) in
    let not_live : is_live c.connection ≡ false = ground arith in
    elim armed [
      | inl d ↦ (
        on_poll_delay c,
        on_polled true (on_poll_delay c),
        delay_fired c d,
        poll_ended (on_poll_delay c) true (unfold on_poll_delay in omega arith),
        unfold on_polled on_poll_delay in rw not_live refl,
      )
      | inr t ↦ (
        on_poll_timer c,
        on_polled true (on_poll_timer c),
        timer_fired c t,
        poll_ended (on_poll_timer c) true (unfold on_poll_timer in omega arith),
        unfold on_polled on_poll_timer in rw not_live refl,
      )
    ]
