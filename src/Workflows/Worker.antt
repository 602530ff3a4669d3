-- ===== src/Workflows/Worker.antt =====
-- soma/workflows/store.py: what the launcher, the worker and the recovery do to a workflow.
use codex_bridge.Prelude.{
  ℕ, ◌+◌, String, Bool, true, false, not, ◌||◌, Option, none, some, List, [], ◌∷◌, ◌==◌, string_eq,
  if◌then◌else◌, Action, pure, throw, ◌>>=◌, value_error,
}
use codex_bridge.Prelude.Text.{Object, first_chars, text}
use codex_bridge.Runs.Update.{is_empty}
use codex_bridge.Runs.Worker.{or_else}
use codex_bridge.Workflows.Tables.{
  WorkflowStatus, workflow_status_eq, is_terminal_workflow, workflow_queued, workflow_running,
  workflow_cancellation_pending, workflow_recovery_pending, reported, WorkflowTables, Shown,
  get_workflow,
}
use codex_bridge.Workflows.Update.{
  to_status, to_terminal_status, to_started_at, to_ended_at, to_launcher_pid, to_launcher_identity,
  to_worker_pid, to_worker_lease_token, to_lease_generation, to_worker_identity,
  to_worker_claimed_at, to_launch_attempts, to_heartbeat_at, to_active_child_run_id,
  to_failure_summary, to_recommended_next_action, to_result, WorkflowGuard,
  conditional_update_workflow,
}

-- Who owns the workflow: its version, its lease token and the generation of the lease.
pub record Lease : Type 0 where
  pub version : ℕ
  pub token : String
  pub generation : ℕ

-- The guard that most callers give.
unfoldable pub owned : List WorkflowStatus → Lease → WorkflowGuard
owned statuses l = record {
  statuses = some statuses;
  version = some l.version;
  token = some l.token;
  generation = some l.generation;
  heartbeat = none;
  publication_status = none;
  publication_hash = none;
  reject_terminal = true;
}

-- `updated is not None`
abbrev is_updated : Option Shown → Bool
is_updated none = false
is_updated (some _) = true

-- `record_worker_launch`
unfoldable pub record_workflow_launch :
    String → ℕ → Lease → String → String → Action WorkflowTables (Option Shown)
unfolding owned
record_workflow_launch workflow_id pid l identity now =
    conditional_update_workflow workflow_id
      (to_launcher_pid (some pid) ∷ to_launcher_identity identity ∷ to_heartbeat_at (some now) ∷ [])
      (owned (workflow_queued ∷ workflow_running ∷ []) l) true now

-- The write of `claim_worker`, with the workflow that was read.
unfoldable pub claim_workflow_write :
    String → Lease → ℕ → String → String → Shown → Action WorkflowTables Bool
unfolding owned
claim_workflow_write workflow_id l pid identity now current = do
  updated ←
      conditional_update_workflow workflow_id
        (to_status workflow_running
          ∷ to_worker_pid (some pid)
          ∷ to_worker_identity identity
          ∷ to_worker_claimed_at (some now)
          ∷ to_started_at (some (or_else current.0.started_at now))
          ∷ to_heartbeat_at (some now)
          ∷ [])
        (owned (workflow_queued ∷ []) l) true now
  pure (is_updated updated)

-- `claim_worker`
unfoldable pub claim_workflow : String → Lease → ℕ → String → String → Action WorkflowTables Bool
unfolding claim_workflow_write
claim_workflow workflow_id l pid identity now = do
  current ← get_workflow workflow_id
  claim_workflow_write workflow_id l pid identity now current

-- `heartbeat_worker`, which asks for no version.
unfoldable pub heartbeat_workflow : String → String → ℕ → ℕ → String → Action WorkflowTables Bool
heartbeat_workflow workflow_id token generation pid now = do
  updated ←
      conditional_update_workflow workflow_id
        (to_heartbeat_at (some now) ∷ to_worker_pid (some pid) ∷ [])
        (record {
          statuses = some (workflow_running ∷ []);
          version = none;
          token = some token;
          generation = some generation;
          heartbeat = none;
          publication_status = none;
          publication_hash = none;
          reject_terminal = false;
        })
        false now
  pure (is_updated updated)

-- `adopt_worker`
unfoldable pub adopt_workflow :
    String → Lease → Option String → String → Action WorkflowTables (Option Shown)
unfolding owned
adopt_workflow workflow_id l heartbeat_at now =
    conditional_update_workflow workflow_id (to_heartbeat_at (some now) ∷ [])
      (record (owned (workflow_running ∷ []) l) { heartbeat = some heartbeat_at }) true now

-- The write of `reserve_next_launch`, with the workflow that was read.
unfoldable pub relaunch_write :
    String
    → List WorkflowStatus
    → Lease
    → Option String
    → String
    → String
    → Shown
    → Action WorkflowTables (Option Shown)
unfolding owned
relaunch_write workflow_id statuses l heartbeat_at new_token now current =
    conditional_update_workflow workflow_id
      (to_status workflow_queued
        ∷ to_launcher_pid none
        ∷ to_launcher_identity ""
        ∷ to_worker_pid none
        ∷ to_worker_lease_token new_token
        ∷ to_lease_generation (l.generation + 1)
        ∷ to_worker_identity ""
        ∷ to_worker_claimed_at none
        ∷ to_launch_attempts (current.0.launch_attempts + 1)
        ∷ to_heartbeat_at (some now)
        ∷ [])
      (record (owned statuses l) { heartbeat = some heartbeat_at }) true now

-- `reserve_next_launch`
unfoldable pub relaunch_workflow :
    String
    → List WorkflowStatus
    → Lease
    → Option String
    → String
    → String
    → Action WorkflowTables (Option Shown)
unfolding relaunch_write
relaunch_workflow workflow_id statuses l heartbeat_at new_token now = do
  current ← get_workflow workflow_id
  relaunch_write workflow_id statuses l heartbeat_at new_token now current

-- `request_cancellation`
unfoldable pub request_cancellation :
    String → List WorkflowStatus → Lease → Object → String → Action WorkflowTables (Option Shown)
unfolding owned
request_cancellation workflow_id statuses l result now =
    conditional_update_workflow workflow_id
      (to_status workflow_cancellation_pending
        ∷ to_result result
        ∷ to_failure_summary "Cancellation requested; awaiting child and worker confirmation."
        ∷ to_recommended_next_action
            "Retry cancellation reconciliation until all owned processes and children are terminal."
        ∷ [])
      (owned statuses l) true now

-- `mark_cancellation_retry`
unfoldable pub mark_cancellation_retry :
    String → Lease → Object → String → String → Action WorkflowTables (Option Shown)
unfolding owned
mark_cancellation_retry workflow_id l result reason now =
    conditional_update_workflow workflow_id
      (to_result result
        ∷ to_failure_summary (first_chars 4000 reason)
        ∷ to_recommended_next_action
            "Retry startup reconciliation or cancellation after confirming child and worker ownership."
        ∷ [])
      (record (owned (workflow_cancellation_pending ∷ []) l) { reject_terminal = false }) true now

-- `result or {"recovery_reason": reason[:4000]}`
unfoldable pub recovery_result : Option Object → String → Object
unfolding is_empty
recovery_result none reason = ("recovery_reason", text (first_chars 4000 reason)) ∷ []
recovery_result (some o) reason =
    if is_empty o then ("recovery_reason", text (first_chars 4000 reason)) ∷ [] else o

-- `mark_recovery_pending`
unfoldable pub mark_workflow_recovery :
    String
    → List WorkflowStatus
    → Lease
    → String
    → Option Object
    → String
    → Action WorkflowTables (Option Shown)
unfolding owned recovery_result
mark_workflow_recovery workflow_id statuses l reason result now =
    conditional_update_workflow workflow_id
      (to_status workflow_recovery_pending
        ∷ to_failure_summary (first_chars 4000 reason)
        ∷ to_recommended_next_action
            "Review the ownership mismatch and resolve it before retrying the workflow."
        ∷ to_result (recovery_result result reason)
        ∷ [])
      (owned statuses l) true now

-- `transition_terminal`
unfoldable pub end_workflow :
    String
    → WorkflowStatus
    → Lease
    → String
    → String
    → String
    → Action WorkflowTables (Option Shown)
unfolding owned is_terminal_workflow workflow_status_eq
end_workflow workflow_id status l failure next_action now =
    if not (is_terminal_workflow status) || status == reported
    then throw value_error
    else conditional_update_workflow workflow_id
        (to_status status
          ∷ to_terminal_status (some status)
          ∷ to_ended_at (some now)
          ∷ to_active_child_run_id none
          ∷ to_failure_summary failure
          ∷ to_recommended_next_action next_action
          ∷ [])
        (owned (workflow_running ∷ []) l) true now
