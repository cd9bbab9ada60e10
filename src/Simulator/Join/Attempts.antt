-- ===== src/Simulator/Join/Attempts.antt =====
-- How the loops end.
use air_quality_monitoring.Base.{
  true, false, ℕ, zero, suc, ◌+◌, ◌≤◌, ◌<◌, ◌≡◌, ◌⊎◌, inl, inr, refl, subst, ◌∙◌, none, some,
  Result, ok, throw, arith, length, leb, Option-cases, Result-cases,
}
use air_quality_monitoring.Simulator.Lora.{LoraPacket, DeviceSession, DeviceCredentials}
use air_quality_monitoring.Simulator.Join.{
  JoinWorld, join_failed, attempt_join, join_attempts, join_device, provision_loop,
  provision_with_retry,
}

first_or_later : (first j : ℕ) → first ≤ j → (first ≡ j) ⊎ (suc first ≤ j)
first_or_later first j l = ground arith

from_first {ℓ} :
    {P : ℕ → Type ℓ} (first : ℕ)
    → P first
    → ((j : ℕ) → suc first ≤ j → P j)
    → (j : ℕ) → first ≤ j
    → P j
from_first {P} first p later j l = elim (first_or_later first j l) [
  | inl e ↦ subst P e p
  | inr u ↦ later j u
]

module _ (lora : LoraPacket) (world : JoinWorld) (cred : DeviceCredentials) where
  -- The attempts from `attempt` on that the loop makes.
  abbrev JoinedAt : ℕ → ℕ → Type 0
  JoinedAt left attempt =
      (k : ℕ) × (s : DeviceSession) × (attempt ≤ k)
      × (k < attempt + left)
      × (attempt_join lora world cred k ≡ some s)
      × ((j : ℕ) → attempt ≤ j → j < k → attempt_join lora world cred j ≡ none)
      × ((join_attempts lora world cred left attempt).0 ≡ ok s)
      × (attempt + length (join_attempts lora world cred left attempt).1 ≡ suc k)

  abbrev FailedAll : ℕ → ℕ → Type 0
  FailedAll left attempt =
      ((j : ℕ) → attempt ≤ j → j < attempt + left → attempt_join lora world cred j ≡ none)
      × ((join_attempts lora world cred left attempt).0 ≡ throw (join_failed cred.dev_eui))
      × (length (join_attempts lora world cred left attempt).1 ≡ left)

  join_attempts-cases : (left attempt : ℕ) → JoinedAt left attempt ⊎ FailedAll left attempt
  unfolding join_attempts
  join_attempts-cases zero attempt = inr (λ j l u. absurd (omega arith), refl, refl)
  join_attempts-cases (suc left) attempt =
      elim (Option-cases (attempt_join lora world cred attempt)) [
        | inr (s, e) ↦ inl (
          attempt,
          s,
          omega arith,
          omega arith,
          e,
          λ j l u. absurd (omega arith),
          rw (e, join_attempts) refl,
          rw (e, join_attempts) (omega arith),
        )
        | inl e ↦ elim (join_attempts-cases left (suc attempt)) [
          | inl (k, s, l, u, at, before, r, n) ↦ inl (
            k,
            s,
            omega arith,
            omega arith,
            at,
            λ j a b.
                from_first {P = λ j. j < k → attempt_join lora world cred j ≡ none} attempt (λ _. e)
                  before j a b,
            rw (e, join_attempts) r,
            rw (e, join_attempts) (omega (arith, n)),
          )
          | inr (all, r, n) ↦ inr (
            λ j a b.
                from_first {P = λ j. j < attempt + suc left → attempt_join lora world cred j ≡ none}
                  attempt (λ _. e) (λ j a b. all j a (omega arith)) j a b,
            rw (e, join_attempts) r,
            rw (e, join_attempts) (omega (arith, n)),
          )
        ]
      ]

  -- A join makes at most five requests, and one for each attempt it makes. It gives the session of the
  -- first attempt that joins, or throws when none of the five does.
  pub join_device-cases :
      ((k : ℕ) × (s : DeviceSession) × (1 ≤ k)
        × (k ≤ 5)
        × (attempt_join lora world cred k ≡ some s)
        × ((j : ℕ) → 1 ≤ j → j < k → attempt_join lora world cred j ≡ none)
        × ((join_device lora world cred).0 ≡ ok s)
        × (length (join_device lora world cred).1 ≡ k))
      ⊎ (((j : ℕ) → 1 ≤ j → j ≤ 5 → attempt_join lora world cred j ≡ none)
          × ((join_device lora world cred).0 ≡ throw (join_failed cred.dev_eui))
          × (length (join_device lora world cred).1 ≡ 5))
  unfolding join_device
  join_device-cases = elim (join_attempts-cases 5 1) [
    | inl (k, s, l, u, at, before, r, n) ↦
        inl (k, s, l, omega arith, at, before, r, omega (arith, n))
    | inr (all, r, n) ↦ inr (λ j l u. all j l (omega arith), r, n)
  ]

-- provisionWithRetry.
module _ {ℓ κ} {E : Type ℓ} {A : Type κ} (provision : ℕ → Result E A) where
  -- `k` is the first attempt from `first` on that gives devices, with the result `r`, or it is the 30th.
  abbrev pub SettledAt : ℕ → ℕ → Result E A → Type (ℓ ⊔ κ)
  SettledAt first k r =
      (first ≤ k)
      × (k ≤ 30)
      × (provision k ≡ r)
      × ((j : ℕ) → first ≤ j → j < k → (e : E) × (provision j ≡ throw e))
      × (((a : A) × (r ≡ ok a)) ⊎ (k ≡ 30))

  provision_loop-ok :
      (a : A) (attempt fuel : ℕ)
      → provision attempt ≡ ok a
      → 1 ≤ fuel
      → provision_loop provision fuel attempt ≡ some (ok a)
  unfolding provision_loop
  provision_loop-ok a attempt zero e l = absurd (omega arith)
  provision_loop-ok a attempt (suc fuel) e l = rw (e, provision_loop) refl

  provision_loop-last :
      (e : E) (attempt fuel : ℕ)
      → provision attempt ≡ throw e
      → 30 ≤ attempt
      → 1 ≤ fuel
      → provision_loop provision fuel attempt ≡ some (throw e)
  unfolding provision_loop
  provision_loop-last e attempt zero p u l = absurd (omega arith)
  provision_loop-last e attempt (suc fuel) p u l =
      let leb_test : leb 30 attempt ≡ true = ground arith in rw (p, provision_loop, leb_test) refl

  provision_loop-again :
      (e : E) (attempt fuel : ℕ)
      → provision attempt ≡ throw e
      → attempt < 30
      → provision_loop provision (suc fuel) attempt ≡ provision_loop provision fuel (suc attempt)
  unfolding provision_loop
  provision_loop-again e attempt fuel p u =
      let leb_test : leb 30 attempt ≡ false = ground arith in rw (p, provision_loop, leb_test) refl

  again_lem :
      (left attempt fuel : ℕ) (e : E)
      → provision attempt ≡ throw e
      → attempt < 30
      → suc (suc left) ≤ fuel
      → (r : Result E A)
      → ((fuel : ℕ) → suc left ≤ fuel → provision_loop provision fuel (suc attempt) ≡ some r)
      → provision_loop provision fuel attempt ≡ some r
  again_lem left attempt zero e p u enough r run = absurd (omega arith)
  again_lem left attempt (suc fuel) e p u enough r run =
      provision_loop-again e attempt fuel p u ∙ run fuel (omega arith)

  -- An attempt that gives devices, or is the last, settles the loop.
  abbrev LoopSettled : ℕ → ℕ → Type (ℓ ⊔ κ)
  LoopSettled left attempt =
      (k : ℕ) × (r : Result E A) × SettledAt attempt k r
      × ((fuel : ℕ) → suc left ≤ fuel → provision_loop provision fuel attempt ≡ some r)

  settles_now :
      (left attempt : ℕ) (a : A)
      → left + attempt ≡ 30
      → provision attempt ≡ ok a
      → LoopSettled left attempt
  settles_now left attempt a last p = (
    attempt,
    ok a,
    (omega arith, omega arith, p, λ j l u. absurd (omega arith), inl (a, refl)),
    λ fuel enough. provision_loop-ok a attempt fuel p (omega arith),
  )

  settles_later :
      (left attempt : ℕ) (e : E)
      → suc left + attempt ≡ 30
      → provision attempt ≡ throw e
      → LoopSettled left (suc attempt)
      → LoopSettled (suc left) attempt
  settles_later left attempt e last p (k, r, (l, u, at, before, ends), run) = (
    k,
    r,
    (
      omega arith,
      u,
      at,
      λ j a b.
          from_first {P = λ j. j < k → (e : E) × (provision j ≡ throw e)} attempt (λ _. (e, p))
            before j a b,
      ends,
    ),
    λ fuel enough. again_lem left attempt fuel e p (omega arith) enough r run,
  )

  provision_loop-settles : (left attempt : ℕ) → left + attempt ≡ 30 → LoopSettled left attempt
  provision_loop-settles zero attempt last = elim (Result-cases (provision attempt)) [
    | inl (a, p) ↦ settles_now 0 attempt a last p
    | inr (e, p) ↦ (
      attempt,
      throw e,
      (omega arith, omega arith, p, λ j l u. absurd (omega arith), inr (omega arith)),
      λ fuel enough. provision_loop-last e attempt fuel p (omega arith) (omega arith),
    )
  ]
  provision_loop-settles (suc left) attempt last = elim (Result-cases (provision attempt)) [
    | inl (a, p) ↦ settles_now (suc left) attempt a last p
    | inr (e, p) ↦
        settles_later left attempt e last p
          (provision_loop-settles left (suc attempt) (omega arith))
  ]

  -- The loop ends. It gives the result of one of the first 30 attempts, all before which threw, and that
  -- attempt gave devices or is the 30th. Any fuel of 30 or more is enough and gives the same result.
  pub provision_with_retry-ends :
      (k : ℕ) × (r : Result E A) × SettledAt 1 k r
      × ((fuel : ℕ) → 30 ≤ fuel → provision_with_retry provision fuel ≡ some r)
  unfolding provision_with_retry
  provision_with_retry-ends = provision_loop-settles 29 1 (omega arith)
