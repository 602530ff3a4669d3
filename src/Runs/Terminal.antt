-- ===== src/Runs/Terminal.antt =====
-- soma/run_store.py: recovery, terminal results and their publication.
use codex_bridge.Prelude.{
  ℕ, String, Bool, true, false, not, Option, none, some, List, [], ◌∷◌, string_eq, ltb,
  if◌then◌else◌, Action, throw, ◌>>=◌, value_error,
}
use codex_bridge.Prelude.Text.{Json, null, flag, text, other, Object}
use codex_bridge.Runs.Model.{
  Status, failed, recovery_pending, is_terminal, ℤ, Run, Assignment, Database, set_status,
  set_current_phase, set_ended_at, set_duration_seconds, set_exit_code, set_summary, set_error,
  set_safety_failure, set_progress, set_result, set_result_publication_status,
  set_result_published_hash, set_result_published_at, set_result_publication_error,
  set_public_result, set_public_result_schema_version, set_public_result_source_sha256,
  set_public_result_status, set_public_result_error, set_recovery_reason,
}
use codex_bridge.Runs.Update.{get_run, conditional_update}
use codex_bridge.Runs.Worker.{bump, given, or_else}

-- `statuses or (current["status"],)`
abbrev pub or_current : Option (List Status) → Run → List Status
or_current none current = current.status ∷ []
or_current (some []) current = current.status ∷ []
or_current (some (s ∷ rest)) current = s ∷ rest

unfoldable pub recovery_write :
    String
    → String
    → Option (List Status)
    → Option ℕ
    → Option String
    → Option ℕ
    → Option (Option String)
    → Run
    → Action Database (Option Run)
recovery_write run_id reason statuses version token generation heartbeat_at current =
    conditional_update run_id
      (set_status recovery_pending
        ∷ set_current_phase "recovery_pending"
        ∷ set_recovery_reason reason
        ∷ set_error reason
        ∷ set_ended_at none
        ∷ [])
      (record {
        expected_statuses = some (or_current statuses current);
        expected_state_version = some (given version current.state_version);
        expected_lease_token = token;
        expected_lease_generation = generation;
        expected_heartbeat_at = heartbeat_at;
        reject_terminal = true;
      })
      bump

-- `mark_recovery_pending`
unfoldable pub mark_recovery_pending :
    String
    → String
    → Option (List Status)
    → Option ℕ
    → Option String
    → Option ℕ
    → Option (Option String)
    → Action Database (Option Run)
unfolding recovery_write
mark_recovery_pending run_id reason statuses version token generation heartbeat_at = do
  current ← get_run run_id
  recovery_write run_id reason statuses version token generation heartbeat_at current

-- The outcome that `transition_terminal` writes.
pub record Outcome : Type 0 where
  pub status : Status
  pub result : Object
  pub ended_at : Option String
  pub duration_seconds : Option ℕ
  pub exit_code : Option ℤ
  pub summary : String
  pub error : String
  pub safety_failure : Bool
  pub recovery_reason : String
  pub progress : Option Object

abbrev progress_field : Option Object → List Assignment
progress_field none = []
progress_field (some p) = set_progress p ∷ []

abbrev pub terminal_fields : Outcome → String → List Assignment
terminal_fields o now =
    set_status o.status
    ∷ set_current_phase "result"
    ∷ set_ended_at (some (or_else o.ended_at now))
    ∷ set_duration_seconds o.duration_seconds
    ∷ set_exit_code o.exit_code
    ∷ set_summary o.summary
    ∷ set_error o.error
    ∷ set_safety_failure o.safety_failure
    ∷ set_result o.result
    ∷ set_result_publication_status "pending"
    ∷ set_result_published_hash ""
    ∷ set_result_published_at none
    ∷ set_result_publication_error ""
    ∷ set_public_result []
    ∷ set_public_result_schema_version ""
    ∷ set_public_result_source_sha256 ""
    ∷ set_public_result_status "not_materialized"
    ∷ set_public_result_error ""
    ∷ set_recovery_reason o.recovery_reason
    ∷ progress_field o.progress

-- `transition_terminal`
unfoldable pub transition_terminal :
    String
    → Outcome
    → List Status
    → ℕ
    → Option String
    → Option ℕ
    → Option (Option String)
    → String
    → Action Database (Option Run)
transition_terminal run_id o statuses version token generation heartbeat_at now =
    if not (is_terminal o.status)
    then throw value_error
    else conditional_update run_id (terminal_fields o now)
        (record {
          expected_statuses = some statuses;
          expected_state_version = some version;
          expected_lease_token = token;
          expected_lease_generation = generation;
          expected_heartbeat_at = heartbeat_at;
          reject_terminal = true;
        })
        bump

optional : Option String → Json
optional none = null
optional (some s) = text s

-- A duration, whose text `show` gives.
duration : (ℕ → String) → Option ℕ → Json
duration show none = null
duration show (some n) = other (ltb 0 n) (show n)

infrastructure_outcome : (ℕ → String) → String → String → String → Run → Outcome
unfolding optional duration
infrastructure_outcome show run_id reason now run = record {
  status = failed;
  result =
      ("run_id", text run_id)
      ∷ ("repo_name", text run.repo_name)
      ∷ ("tool", text run.tool)
      ∷ ("status", text "failed")
      ∷ ("classification", text "infrastructure_failure")
      ∷ ("process_success", null)
      ∷ ("exit_code", null)
      ∷ ("stdout", text "")
      ∷ ("stderr", text "")
      ∷ ("started_at", optional run.started_at)
      ∷ ("ended_at", text now)
      ∷ ("duration_seconds", duration show run.duration_seconds)
      ∷ ("summary", text reason)
      ∷ ("error", text reason)
      ∷ ("cancelled", flag false)
      ∷ ("timed_out", flag false)
      ∷ [];
  ended_at = some now;
  duration_seconds = run.duration_seconds;
  exit_code = none;
  summary = reason;
  error = reason;
  safety_failure = false;
  recovery_reason = reason;
  progress = none;
}

unfoldable pub infrastructure_write :
    (ℕ → String)
    → String
    → String
    → Option (List Status)
    → Option ℕ
    → Option String
    → Option ℕ
    → Option (Option String)
    → String
    → Run
    → Action Database (Option Run)
unfolding infrastructure_outcome
infrastructure_write show run_id reason statuses version token generation heartbeat_at now run =
    transition_terminal run_id (infrastructure_outcome show run_id reason now run)
      (or_current statuses run) (given version run.state_version) token generation heartbeat_at now

-- `fail_infrastructure`
unfoldable pub fail_infrastructure :
    (ℕ → String)
    → String
    → String
    → Option (List Status)
    → Option ℕ
    → Option String
    → Option ℕ
    → Option (Option String)
    → String
    → Action Database (Option Run)
unfolding infrastructure_write
fail_infrastructure show run_id reason statuses version token generation heartbeat_at now = do
  run ← get_run run_id
  infrastructure_write show run_id reason statuses version token generation heartbeat_at now run
