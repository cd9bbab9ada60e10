-- ===== src/Api/Health.antt =====
-- apps/api/src/health/health.controller.ts: the probes of both databases and Redis.
pub mod Readiness
mod Examples
use air_quality_monitoring.Base.{
  ℕ, Bool, true, false, ◌&&◌, List, [], ◌∷◌, ltb, if◌then◌else◌, Result, ok, throw,
}
use air_quality_monitoring.Base.Strings.{String, append}

abbrev pub probe_timeout_ms : ℕ
probe_timeout_ms = 2000

-- What a probe does: it is answered or fails after so many milliseconds, or never settles.
pub data Probe : Type 0 where
  resolves : ℕ → Probe
  rejects : ℕ → String → Probe
  hangs : Probe

pub data Settled : Type 0 where
  fulfilled : Settled
  failed : String → Settled

-- `Promise.race` with the timer, whose error is "Error: timeout" as a text. A promise that settles as the
-- timer fires is taken to lose.
unfoldable pub with_timeout : Probe → Settled
with_timeout (resolves ms) = if ltb ms probe_timeout_ms then fulfilled else failed "Error: timeout"
with_timeout (rejects ms err) =
    if ltb ms probe_timeout_ms then failed err else failed "Error: timeout"
with_timeout hangs = failed "Error: timeout"

abbrev pub check_text : Settled → String
check_text fulfilled = "ok"
check_text (failed err) = append "error: " err

abbrev pub is_fulfilled : Settled → Bool
is_fulfilled fulfilled = true
is_fulfilled (failed err) = false

pub record Checks : Type 0 where
  pub relational_db : String
  pub telemetry_db : String
  pub redis : String

pub record HealthResult : Type 0 where
  pub is_ok : Bool
  pub timestamp : ℕ
  pub checks : Checks

-- The response, or the body of the ServiceUnavailableException.
unfoldable pub check : ℕ → Probe → Probe → Probe → Result HealthResult HealthResult
unfolding with_timeout
check now relational telemetry redis =
    let r = with_timeout relational in
    let t = with_timeout telemetry in
    let c = with_timeout redis in
    let is_ok = is_fulfilled r && is_fulfilled t && is_fulfilled c in
    let body : HealthResult = record {
      is_ok = is_ok;
      timestamp = now;
      checks = record {
        relational_db = check_text r;
        telemetry_db = check_text t;
        redis = check_text c;
      };
    } in
    if is_ok then ok body else throw body
