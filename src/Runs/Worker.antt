-- ===== src/Runs/Worker.antt =====
-- soma/run_store.py: what a launcher and a worker write to their run. A method that reads the run
-- first is given by its write, over the row `current` that it read.

use codex_bridge.Prelude.{
  ℕ, ◌+◌, String, Bool, true, false, Option, none, some, List, [], ◌∷◌, ◌==◌, string_eq,
  if◌then◌else◌, Action, pure, ◌>>=◌,
}
use codex_bridge.Prelude.Text.{Object, merge}
use codex_bridge.Runs.Model.{
  Status, launch_pending, queued, running, Run, Assignment, Database, set_status, set_current_phase,
  set_launcher_pid, set_worker_pid, set_worker_identity, set_worker_claimed_at, set_launch_attempts,
  set_started_at, set_pid, set_heartbeat_at, set_elapsed_seconds, set_progress, set_recovery_reason,
}
use codex_bridge.Runs.Update.{Guard, Bump, get_run, conditional_update}

abbrev pub bump : Bump
bump = record { always = true; if_phase_changes = false }

abbrev pub no_bump : Bump
no_bump = record { always = false; if_phase_changes = false }

abbrev pub bump_on_phase : Bump
bump_on_phase = record { always = false; if_phase_changes = true }

-- An argument that defaults to what was read.
abbrev pub given {ℓ} : {A : Type ℓ} → Option A → A → A
given none current = current
given (some a) current = a

-- `value or fallback`, of a text that may be missing.
unfoldable pub or_else : Option String → String → String
or_else none fallback = fallback
or_else (some s) fallback = if s == "" then fallback else s

-- `update is not None`
abbrev pub is_updated : Option Run → Bool
is_updated none = false
is_updated (some _) = true

-- The conditions of a write by a worker: the statuses, the lease token and the lease generation.
abbrev pub lease : List Status → String → ℕ → Guard
lease statuses token generation = record {
  expected_statuses = some statuses;
  expected_state_version = none;
  expected_lease_token = some token;
  expected_lease_generation = some generation;
  expected_heartbeat_at = none;
  reject_terminal = false;
}

abbrev attempts : Bool → Run → List Assignment
attempts increment_attempt current =
    if increment_attempt then set_launch_attempts (current.launch_attempts + 1) ∷ [] else []

abbrev pub launch_fields : ℕ → Bool → String → Run → List Assignment
launch_fields launcher_pid increment_attempt now current =
    set_status queued
    ∷ set_current_phase "queued"
    ∷ set_launcher_pid (some launcher_pid)
    ∷ set_heartbeat_at (some now)
    ∷ set_recovery_reason ""
    ∷ attempts increment_attempt current

unfoldable pub launch_write :
    String
    → ℕ
    → Option ℕ
    → Option String
    → Option ℕ
    → Bool
    → String
    → Run
    → Action Database (Option Run)
launch_write run_id launcher_pid version token generation increment_attempt now current =
    conditional_update run_id (launch_fields launcher_pid increment_attempt now current)
      (record (lease (launch_pending ∷ []) (given token current.worker_lease_token)
        (given generation current.lease_generation)) {
          expected_state_version = some (given version current.state_version);
          reject_terminal = true;
        })
      bump

-- `record_worker_launch`
unfoldable pub record_worker_launch :
    String → ℕ → Option ℕ → Option String → Option ℕ → Bool → String → Action Database (Option Run)
unfolding launch_write
record_worker_launch run_id launcher_pid version token generation increment_attempt now = do
  current ← get_run run_id
  launch_write run_id launcher_pid version token generation increment_attempt now current

abbrev pub claim_fields : ℕ → String → String → Run → List Assignment
claim_fields worker_pid worker_identity now current =
    set_status running
    ∷ set_current_phase "worker"
    ∷ set_worker_pid (some worker_pid)
    ∷ set_worker_identity worker_identity
    ∷ set_worker_claimed_at (some now)
    ∷ set_started_at (some (or_else current.started_at now))
    ∷ set_heartbeat_at (some now)
    ∷ set_recovery_reason ""
    ∷ []

unfoldable pub claim_write :
    String → String → ℕ → String → Option ℕ → Option ℕ → String → Run → Action Database (Option Run)
unfolding or_else
claim_write run_id token worker_pid worker_identity generation version now current =
    conditional_update run_id (claim_fields worker_pid worker_identity now current)
      (record (lease (launch_pending ∷ queued ∷ []) token
        (given generation current.lease_generation)) {
          expected_state_version = some (given version current.state_version);
          reject_terminal = true;
        })
      bump

-- `claim_worker`
unfoldable pub claim_worker :
    String → String → ℕ → String → Option ℕ → Option ℕ → String → Action Database Bool
unfolding claim_write
claim_worker run_id token worker_pid worker_identity generation version now = do
  current ← get_run run_id
  updated ← claim_write run_id token worker_pid worker_identity generation version now current
  pure (is_updated updated)

-- `update_worker_progress`
unfoldable pub update_worker_progress :
    String → String → ℕ → String → ℕ → Object → String → Action Database Bool
update_worker_progress run_id token generation phase elapsed_seconds progress now = do
  updated ←
      conditional_update run_id
        (set_current_phase phase
          ∷ set_heartbeat_at (some now)
          ∷ set_elapsed_seconds elapsed_seconds
          ∷ set_progress progress
          ∷ [])
        (lease (running ∷ []) token generation) bump_on_phase
  pure (is_updated updated)

unfoldable pub heartbeat_write :
    String → String → ℕ → Object → Option ℕ → String → Run → Action Database (Option Run)
unfolding merge
heartbeat_write run_id token elapsed_seconds updates generation now current =
    conditional_update run_id
      (set_heartbeat_at (some now)
        ∷ set_elapsed_seconds elapsed_seconds
        ∷ set_progress (merge current.progress updates)
        ∷ [])
      (lease (running ∷ []) token (given generation current.lease_generation)) no_bump

-- `heartbeat_worker`
unfoldable pub heartbeat_worker :
    String → String → ℕ → Object → Option ℕ → String → Action Database Bool
unfolding heartbeat_write
heartbeat_worker run_id token elapsed_seconds updates generation now = do
  current ← get_run run_id
  updated ← heartbeat_write run_id token elapsed_seconds updates generation now current
  pure (is_updated updated)

-- `attach_child_pid`
unfoldable pub attach_child_pid : String → ℕ → String → ℕ → String → Action Database Bool
attach_child_pid run_id child_pid token generation now = do
  updated ←
      conditional_update run_id (set_pid (some child_pid) ∷ set_heartbeat_at (some now) ∷ [])
        (lease (running ∷ []) token generation) bump
  pure (is_updated updated)

-- `adopt_worker`
unfoldable pub adopt_worker :
    String → ℕ → String → ℕ → Option String → String → Action Database (Option Run)
adopt_worker run_id version token generation heartbeat_at now =
    conditional_update run_id
      (set_current_phase "worker" ∷ set_heartbeat_at (some now) ∷ set_recovery_reason "" ∷ [])
      (record (lease (running ∷ []) token generation) {
        expected_state_version = some version;
        expected_heartbeat_at = some heartbeat_at;
        reject_terminal = true;
      })
      bump
