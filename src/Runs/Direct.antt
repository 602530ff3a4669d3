-- ===== src/Runs/Direct.antt =====
-- soma/job_manager.py and soma/job_worker.py: the calls of conditional_update that the managers and
-- the workers of runs make themselves.
use codex_bridge.Prelude.{
  ℕ, String, Bool, true, false, not, Option, none, some, [], ◌∷◌, ◌≡◌, refl, ◌==◌, nat_eq,
  if◌then◌else◌,
}
use codex_bridge.Prelude.Text.{Object, text, merge}
use codex_bridge.Runs.Model.{
  ℤ, recovery_pending, cancellation_pending, running, Run, set_status, set_current_phase,
  set_ended_at, set_progress, set_error, set_recovery_reason, set_safety_failure,
  set_duration_seconds, set_exit_code, set_summary, set_result, set_elapsed_seconds,
}
use codex_bridge.Runs.Update.{Guard}
use codex_bridge.Runs.Worker.{bump, no_bump}
use codex_bridge.Runs.Untouched.{sets_report, sets_lease, any_of}
use codex_bridge.Runs.Writes.{Write, update_with, is_careful, all_careful}

-- `int(value or 1)`
abbrev or_one : ℕ → ℕ
or_one n = if n == 0 then 1 else n

-- The guard of a caller that has read the run.
abbrev as_read : Run → Guard
as_read seen = record {
  expected_statuses = some (seen.status ∷ []);
  expected_state_version = some seen.state_version;
  expected_lease_token = some seen.worker_lease_token;
  expected_lease_generation = some (or_one seen.lease_generation);
  expected_heartbeat_at = none;
  reject_terminal = true;
}

-- The reconciliation of a remote controller that goes on or stays uncertain.
unfoldable pub remote_pending : Run → Object → Bool → String → Write
remote_pending seen progress is_adoptable reason =
    update_with seen.run_id
      (set_status recovery_pending
        ∷ set_current_phase "remote_reconciliation"
        ∷ set_ended_at none
        ∷ set_progress progress
        ∷ set_error (if is_adoptable then "" else reason)
        ∷ set_recovery_reason reason
        ∷ set_safety_failure (not is_adoptable)
        ∷ [])
      (record (as_read seen) { expected_heartbeat_at = some seen.heartbeat_at }) bump

-- The progress of a run whose cancellation is asked for.
abbrev cancel_progress : Run → String → Object
cancel_progress seen requested_at =
    merge seen.progress (("cancellation_requested_at", text requested_at) ∷ [])

-- `cancel_run`, the request.
unfoldable pub cancel_pending : Run → String → Write
cancel_pending seen requested_at =
    update_with seen.run_id
      (set_status cancellation_pending
        ∷ set_current_phase "cancellation_pending"
        ∷ set_progress (cancel_progress seen requested_at)
        ∷ [])
      (as_read seen) bump

-- `persist_progress` of `cancel_run`
unfoldable pub persist_progress : Run → Object → Write
persist_progress seen progress =
    update_with seen.run_id
      (set_current_phase "cancellation_pending"
        ∷ set_progress progress
        ∷ set_elapsed_seconds seen.elapsed_seconds
        ∷ [])
      (record {
        expected_statuses = some (cancellation_pending ∷ []);
        expected_state_version = none;
        expected_lease_token = some seen.worker_lease_token;
        expected_lease_generation = some (or_one seen.lease_generation);
        expected_heartbeat_at = none;
        reject_terminal = false;
      })
      no_bump

-- What the worker of a run tells when it was cancelled and cannot confirm the end of its processes.
pub record Unconfirmed : Type 0 where
  pub duration_seconds : Option ℕ
  pub exit_code : Option ℤ
  pub summary : String
  pub error : String
  pub safety_failure : Bool
  pub result : Object

unfoldable pub worker_pending : String → Unconfirmed → ℕ → String → ℕ → Write
worker_pending run_id u version token generation =
    update_with run_id
      (set_status cancellation_pending
        ∷ set_current_phase "cancellation_pending"
        ∷ set_ended_at none
        ∷ set_duration_seconds u.duration_seconds
        ∷ set_exit_code u.exit_code
        ∷ set_summary u.summary
        ∷ set_error u.error
        ∷ set_safety_failure u.safety_failure
        ∷ set_result u.result
        ∷ [])
      (record {
        expected_statuses = some (running ∷ []);
        expected_state_version = some version;
        expected_lease_token = some token;
        expected_lease_generation = some generation;
        expected_heartbeat_at = none;
        reject_terminal = true;
      })
      bump

-- Whatever these callers write, they write with care.
direct-all_careful :
    (seen : Run) (progress : Object) (is_adoptable : Bool)
    (reason requested_at run_id token : String) (u : Unconfirmed) (version generation : ℕ)
    → all_careful (
        remote_pending seen progress is_adoptable reason
        ∷ cancel_pending seen requested_at
        ∷ persist_progress seen progress
        ∷ worker_pending run_id u version token generation
        ∷ [])
      ≡ true
unfolding all_careful is_careful sets_report sets_lease any_of remote_pending cancel_pending
    persist_progress worker_pending
direct-all_careful seen progress is_adoptable reason requested_at run_id token u version
      generation =
    refl
