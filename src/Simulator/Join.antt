-- ===== src/Simulator/Join.antt =====
-- services/simulator/src/index.ts: the loops that try again, joinDevice and provisionWithRetry.
pub mod Attempts
use air_quality_monitoring.Base.{
  ℕ, zero, suc, ◌+◌, ◌≤◌, ◌≡◌, Option, none, some, List, [], ◌∷◌, Result, ok, throw, leb,
  if◌then◌else◌,
}
use air_quality_monitoring.Base.Strings.{String}
use air_quality_monitoring.Codec.Words.{Bytes}
use air_quality_monitoring.Simulator.Lora.{
  LoraPacket, DeviceSession, DeviceCredentials, build_join_request, derive_session,
}

-- What the world gives to the attempts of a join: the nonce of each, and the downlink that resolves its
-- waiting, or `none` after the timeout.
pub record JoinWorld : Type 0 where
  pub dev_nonce : ℕ → Bytes
  pub answer : ℕ → Option Bytes

-- `OTAA join failed for …`
pub data JoinError : Type 0 where
  join_failed : String → JoinError

module _ (lora : LoraPacket) (world : JoinWorld) (cred : DeviceCredentials) where
  -- The body of the `try`: an error of the wait or of deriveSession is caught alike.
  unfoldable pub attempt_join : ℕ → Option DeviceSession
  attempt_join attempt = elim (world.answer attempt) [
    | none ↦ none
    | some join_accept ↦ derive_session lora cred (world.dev_nonce attempt) join_accept
  ]

  -- The loop with `left` attempts to go: its result and the Join Requests that it sent, in order.
  unfoldable pub join_attempts : ℕ → ℕ → Result JoinError DeviceSession × List Bytes
  join_attempts zero attempt = (throw (join_failed cred.dev_eui), [])
  join_attempts (suc left) attempt =
      let request = build_join_request lora cred (world.dev_nonce attempt) in
      let rest = join_attempts left (suc attempt) in
      elim (attempt_join attempt) [
        | none ↦ (rest.0, request ∷ rest.1)
        | some session ↦ (ok session, request ∷ [])
      ]

  unfoldable pub join_device : Result JoinError DeviceSession × List Bytes
  unfolding join_attempts
  join_device = join_attempts 5 1

-- The loop of provisionWithRetry has no bound of its own; it takes fuel. `provision` is what each
-- attempt gives.
module _ {ℓ κ} {E : Type ℓ} {A : Type κ} (provision : ℕ → Result E A) where
  unfoldable pub provision_loop : ℕ → ℕ → Option (Result E A)
  provision_loop zero attempt = none
  provision_loop (suc fuel) attempt =
      let again = provision_loop fuel (suc attempt) in
      elim (provision attempt) [
        | ok devices ↦ some (ok devices)
        | throw e ↦ if leb 30 attempt then some (throw e) else again
      ]

  unfoldable pub provision_with_retry : ℕ → Option (Result E A)
  unfolding provision_loop
  provision_with_retry fuel = provision_loop fuel 1
