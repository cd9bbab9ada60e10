-- ===== src/Simulator/Node/Serial.antt =====
-- A node does one thing at a time.
use air_quality_monitoring.Base.{
  ℕ, ◌≡◌, refl, sym, ◌∙◌, ap, Option, none, some, List, [], ◌∷◌, ◌++◌, by_cases, ◌==◌,
}
use air_quality_monitoring.Codec.ConfigReport.{config_report_fport}
use air_quality_monitoring.Simulator.Lora.{LoraPacket, DeviceSession}
use air_quality_monitoring.Simulator.Node.{
  Job, wake_job, downlink_job, Node, Running, waking, applying, serial, take_job, schedule, fire,
  counted, end_wake, end_downlink, Step, fired, queued, taken, woke, wake_failed, send_failed,
  applied, finish, Reachable, on, next,
}

append_assoc : (xs ys zs : List Job) → (xs ++ ys) ++ zs ≡ xs ++ (ys ++ zs)
append_assoc [] ys zs = refl
append_assoc (x ∷ xs) ys zs = ap (λ l. x ∷ l) (append_assoc xs ys zs)

-- The job that is under way, if there is one.
abbrev pub under_way : Option Running → List Job
under_way none = []
under_way (some (waking _)) = wake_job ∷ []
under_way (some (applying bytes)) = downlink_job bytes ∷ []

pub record IsSerial (n : Node) : Type 0 where
  pub order : n.asked ≡ n.begun ++ n.waiting
  pub single : n.begun ≡ n.finished ++ under_way n.current

append_nil : (xs : List Job) → xs ++ [] ≡ xs
append_nil [] = refl
append_nil (x ∷ xs) = ap (λ l. x ∷ l) (append_nil xs)

module _ (interval_ms : ℕ) (lora : LoraPacket) (session : DeviceSession) where
  serial-order :
      (job : Job) (n : Node)
      → n.asked ≡ n.begun ++ n.waiting
      → n.asked ++ job ∷ [] ≡ n.begun ++ (n.waiting ++ job ∷ [])
  serial-order job n e = ap (λ l. l ++ job ∷ []) e ∙ append_assoc n.begun n.waiting (job ∷ [])

  take-order :
      (job : Job) (rest : List Job) (n : Node)
      → n.waiting ≡ job ∷ rest
      → n.asked ≡ n.begun ++ n.waiting
      → n.asked ≡ (n.begun ++ job ∷ []) ++ rest
  take-order job rest n w e =
      e ∙ ap (λ l. n.begun ++ l) w ∙ sym (append_assoc n.begun (job ∷ []) rest)

  -- A job begins only where all that were begun have ended.
  take-single :
      (job : Job) (n : Node)
      → n.current ≡ none
      → n.begun ≡ n.finished ++ under_way n.current
      → n.begun ++ job ∷ [] ≡ n.finished ++ job ∷ []
  take-single job n c e =
      ap (λ l. l ++ job ∷ [])
        (e ∙ ap (λ current. n.finished ++ under_way current) c ∙ append_nil n.finished)

  finish-single :
      (running : Running) (n : Node)
      → n.current ≡ some running
      → n.begun ≡ n.finished ++ under_way n.current
      → n.begun ≡ (n.finished ++ under_way (some running)) ++ []
  finish-single running n c e =
      e ∙ ap (λ current. n.finished ++ under_way current) c ∙ sym (append_nil _)

  Step-IsSerial : {n n' : Node} → Step interval_ms lora session n n' → IsSerial n → IsSerial n'
  unfolding fire serial take_job end_wake end_downlink counted schedule finish
  Step-IsSerial (fired n delay e) i = record {
    order = serial-order wake_job n i.order;
    single = i.single;
  }
  Step-IsSerial (queued n bytes) i = record {
    order = serial-order (downlink_job bytes) n i.order;
    single = i.single;
  }
  Step-IsSerial (taken n wake_job rest c w) i = record {
    order = take-order wake_job rest n w i.order;
    single = take-single wake_job n c i.single;
  }
  Step-IsSerial (taken n (downlink_job bytes) rest c w) i = record {
    order = take-order (downlink_job bytes) rest n w i.order;
    single = take-single (downlink_job bytes) n c i.single;
  }
  Step-IsSerial (woke n fc out c) i =
      let ended = finish-single (waking fc) n c i.single in
      by_cases (out.f_port == config_report_fport)
        (λ e. record { order = rw e i.order; single = rw e ended })
        (λ e. record { order = rw e i.order; single = rw e ended })
  Step-IsSerial (wake_failed n fc c) i = record {
    order = i.order;
    single = finish-single (waking fc) n c i.single;
  }
  Step-IsSerial (send_failed n fc out c) i = record {
    order = i.order;
    single = finish-single (waking fc) n c i.single;
  }
  Step-IsSerial (applied n bytes none c) i = record {
    order = i.order;
    single = finish-single (applying bytes) n c i.single;
  }
  Step-IsSerial (applied n bytes (some s) c) i = record {
    order = i.order;
    single = finish-single (applying bytes) n c i.single;
  }

  -- In every state that is reached, the jobs that were given to the node are, in that order, those that
  -- were begun and those that wait; and those that were begun are those that have ended, in that order,
  -- and after them at most one, the one that is under way. So no job begins before the one before it
  -- has ended: a downlink is never applied in the middle of a wake.
  pub Reachable-IsSerial : (n : Node) → Reachable interval_ms lora session n → IsSerial n
  Reachable-IsSerial _ on = record { order = refl; single = refl }
  Reachable-IsSerial _ (next r st) = Step-IsSerial st (Reachable-IsSerial _ r)
