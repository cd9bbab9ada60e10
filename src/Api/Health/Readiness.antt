-- ===== src/Api/Health/Readiness.antt =====
-- When the API says that it is healthy.
use air_quality_monitoring.Base.{
  ℕ, ◌<◌, ◌≡◌, refl, Bool, true, false, ◌&&◌, arith, Result, ok, throw, ◌↔◌, if◌then◌else◌,
  false≢true, sym, ◌∙◌,
}
use air_quality_monitoring.Api.Health.{
  Probe, resolves, rejects, hangs, with_timeout, is_fulfilled, HealthResult, check,
}

-- A probe that is answered within two seconds.
abbrev pub AnswersInTime : Probe → Type 0
AnswersInTime (resolves ms) = ms < 2000
AnswersInTime (rejects ms err) = ⊥
AnswersInTime hangs = ⊥

abbrev pub is_answer : Result HealthResult HealthResult → Bool
is_answer (ok body) = true
is_answer (throw body) = false

is_answer-if : (b : Bool) (body : HealthResult) → is_answer (if b then ok body else throw body) ≡ b
is_answer-if true body = refl
is_answer-if false body = refl

all_true : (a b c : Bool) → (a && b && c) ≡ true → (a ≡ true) × (b ≡ true) × (c ≡ true)
all_true true true true e = (refl, refl, refl)
all_true true true false e = absurd (false≢true e)
all_true true false c e = absurd (false≢true e)
all_true false b c e = absurd (false≢true e)

if_in_time : (p : Probe) → is_fulfilled (with_timeout p) ≡ true → AnswersInTime p
unfolding with_timeout
if_in_time (resolves ms) e = ground arith
if_in_time (rejects ms err) e = ground arith
if_in_time hangs e = false≢true e

fulfilled_in_time : (p : Probe) → AnswersInTime p → is_fulfilled (with_timeout p) ≡ true
unfolding with_timeout
fulfilled_in_time (resolves ms) h = ground arith
fulfilled_in_time (rejects ms err) h = absurd h
fulfilled_in_time hangs h = absurd h

-- The check succeeds exactly if both databases and Redis answer within two seconds.
pub check_iff :
    (now : ℕ) (relational telemetry redis : Probe)
    → (is_answer (check now relational telemetry redis) ≡ true)
      ↔ (AnswersInTime relational × AnswersInTime telemetry × AnswersInTime redis)
unfolding check
check_iff now relational telemetry redis = (
  λ e.
      let (r, t, c) = all_true _ _ _ (sym (is_answer-if _ _) ∙ e) in
      (if_in_time relational r, if_in_time telemetry t, if_in_time redis c),
  λ h.
      let (r, t, c) = h in
      is_answer-if _ _
      ∙ rw
          (fulfilled_in_time relational r, fulfilled_in_time telemetry t, fulfilled_in_time redis c)
          refl,
)
