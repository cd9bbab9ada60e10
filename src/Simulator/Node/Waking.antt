-- ===== src/Simulator/Node/Waking.antt =====
-- What holds of a node at all times: its counter, its boot, and that it will wake again.
use air_quality_monitoring.Base.{
  ℕ, zero, suc, ◌==◌, ◌≤◌, ◌<◌, ◌≡◌, ◌≢◌, ◌⊎◌, inl, inr, refl, by_cases, subst, Bool, true, false,
  not, Option, none, some, List, [], ◌∷◌, ◌++◌, arith, if◌then◌else◌, ltb, any, ap,
}
use air_quality_monitoring.Codec.Words.{Bytes}
use air_quality_monitoring.Codec.ConfigReport.{config_report_fport}
use air_quality_monitoring.Simulator.Lora.{LoraPacket, DeviceSession}
use air_quality_monitoring.Simulator.Node.{
  Job, wake_job, downlink_job, Call, Node, serial, take_job, schedule, Running, waking, applying,
  fire, counted, end_wake, end_downlink, Step, fired, queued, taken, woke, wake_failed, send_failed,
  applied, finish, Reachable, on, next,
}

-- The counters of a list are below a bound, and each is below the one before it.
abbrev pub FallFrom : ℕ → List ℕ → Type 0
FallFrom bound [] = Unit
FallFrom bound (c ∷ cs) = (c < bound) × FallFrom c cs

abbrev counters : List (ℕ × Bytes) → List ℕ
counters [] = []
counters ((c, phy) ∷ us) = c ∷ counters us

abbrev is_wake : Job → Bool
is_wake wake_job = true
is_wake (downlink_job _) = false

-- The calls of the firmware, the newest first: counted down to 1, and a boot exactly at 1.
abbrev pub CallsFrom : ℕ → List Call → Type 0
CallsFrom zero calls = calls ≡ []
CallsFrom (suc k) calls =
    (c : Call) × (before : List Call) × (calls ≡ c ∷ before)
    × (c.f_cnt ≡ suc k)
    × (c.boot ≡ (k == 0))
    × CallsFrom k before

abbrev is_waking : Option Running → Bool
is_waking none = false
is_waking (some (waking fc)) = true
is_waking (some (applying bytes)) = false

-- A wake under way has taken the last counter, and has not sent it.
abbrev pub SentBelow : Option Running → ℕ → List ℕ → Type 0
SentBelow none f_cnt sent = FallFrom (suc f_cnt) sent
SentBelow (some (waking fc)) f_cnt sent = (fc ≡ f_cnt) × FallFrom fc sent
SentBelow (some (applying bytes)) f_cnt sent = FallFrom (suc f_cnt) sent

pub record IsAwake (n : Node) : Type 0 where
  pub calls : CallsFrom n.f_cnt n.calls
  pub booted : n.booted ≡ ltb 0 n.f_cnt
  pub uplinks : SentBelow n.current n.f_cnt (counters n.uplinks)
  pub alive : (n.timer ≢ none) ⊎ ((is_waking n.current ≡ true) ⊎ (any is_wake n.waiting ≡ true))

boot_lem : (k : ℕ) (b : Bool) → b ≡ ltb 0 k → not b ≡ (k == 0)
boot_lem k b e = ground arith

any-append :
    (xs : List Job) (x : Job)
    → any is_wake (xs ++ x ∷ []) ≡ (if any is_wake xs then true else is_wake x)
any-append [] x = ground arith
any-append (y ∷ ys) x = ground (arith, any-append ys x)

FallFrom-le : (b c : ℕ) (cs : List ℕ) → b ≤ c → FallFrom b cs → FallFrom c cs
FallFrom-le b c [] l h = tt
FallFrom-le b c (x ∷ cs) l (h, hs) = (omega arith, hs)

module _ (interval_ms : ℕ) (lora : LoraPacket) (session : DeviceSession) where
  take-IsAwake :
      (job : Job) (rest : List Job) (n : Node)
      → n.current ≡ none
      → n.waiting ≡ job ∷ rest
      → IsAwake n
      → IsAwake (take_job job rest n)
  unfolding take_job
  take-IsAwake wake_job rest n c w i = record {
    calls = (_, n.calls, refl, refl, boot_lem n.f_cnt n.booted i.booted, i.calls);
    booted = ground arith;
    uplinks = (refl, subst (λ c. SentBelow c n.f_cnt (counters n.uplinks)) c i.uplinks);
    alive = inr (inl refl);
  }
  take-IsAwake (downlink_job bytes) rest n c w i = record {
    calls = i.calls;
    booted = i.booted;
    uplinks = subst (λ c. SentBelow c n.f_cnt (counters n.uplinks)) c i.uplinks;
    alive = ground (arith, i.alive, c, ap (any is_wake) w);
  }

  Step-IsAwake : {n n' : Node} → Step interval_ms lora session n n' → IsAwake n → IsAwake n'
  unfolding fire serial end_wake end_downlink schedule counted finish
  Step-IsAwake (fired n delay e) i = record {
    calls = i.calls;
    booted = i.booted;
    uplinks = i.uplinks;
    alive = inr (inr (rw (any-append n.waiting wake_job) (ground arith)));
  }
  Step-IsAwake (queued n bytes) i = record {
    calls = i.calls;
    booted = i.booted;
    uplinks = i.uplinks;
    alive = ground (arith, i.alive, any-append n.waiting (downlink_job bytes));
  }
  Step-IsAwake (taken n job rest c w) i = take-IsAwake job rest n c w i
  Step-IsAwake (woke n fc out c) i =
      let (last, below) : SentBelow (some (waking fc)) n.f_cnt (counters n.uplinks) =
        subst (λ c. SentBelow c n.f_cnt (counters n.uplinks)) c i.uplinks in
      let sent : FallFrom (suc n.f_cnt) (fc ∷ counters n.uplinks) = (omega (arith, last), below) in
      record {
        calls =
            by_cases (out.f_port == config_report_fport) (λ e. rw e i.calls) (λ e. rw e i.calls);
        booted = ground (arith, i.booted);
        uplinks = by_cases (out.f_port == config_report_fport) (λ e. rw e sent) (λ e. rw e sent);
        alive = inl (λ e. cc);
      }
  Step-IsAwake (wake_failed n fc c) i =
      let (last, below) : SentBelow (some (waking fc)) n.f_cnt (counters n.uplinks) =
        subst (λ c. SentBelow c n.f_cnt (counters n.uplinks)) c i.uplinks in
      record {
        calls = i.calls;
        booted = i.booted;
        uplinks = FallFrom-le fc (suc n.f_cnt) (counters n.uplinks) (omega (arith, last)) below;
        alive = inl (λ e. cc);
      }
  Step-IsAwake (send_failed n fc out c) i =
      let (last, below) : SentBelow (some (waking fc)) n.f_cnt (counters n.uplinks) =
        subst (λ c. SentBelow c n.f_cnt (counters n.uplinks)) c i.uplinks in
      record {
        calls = i.calls;
        booted = i.booted;
        uplinks = FallFrom-le fc (suc n.f_cnt) (counters n.uplinks) (omega (arith, last)) below;
        alive = inl (λ e. cc);
      }
  Step-IsAwake (applied n bytes none c) i = record {
    calls = i.calls;
    booted = i.booted;
    uplinks = subst (λ c. SentBelow c n.f_cnt (counters n.uplinks)) c i.uplinks;
    alive = ground (arith, i.alive, c);
  }
  Step-IsAwake (applied n bytes (some s) c) i = record {
    calls = i.calls;
    booted = i.booted;
    uplinks = subst (λ c. SentBelow c n.f_cnt (counters n.uplinks)) c i.uplinks;
    alive = inl (λ e. cc);
  }

  -- In every state that wakes, failures and downlinks reach, in any order: the firmware has been called
  -- for a wake with the counters 1, 2, … f_cnt, each once and in order, and as a boot at 1 alone; the
  -- counters of the uplinks that were sent rise strictly; and a timeout is armed, or a wake is under way
  -- or waits, so that the node wakes again.
  pub Reachable-IsAwake : (n : Node) → Reachable interval_ms lora session n → IsAwake n
  Reachable-IsAwake _ on = record {
    calls = refl;
    booted = ground arith;
    uplinks = tt;
    alive = inr (inr refl);
  }
  Reachable-IsAwake _ (next r st) = Step-IsAwake st (Reachable-IsAwake _ r)
