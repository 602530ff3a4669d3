-- ===== src/Tasks/Branches.antt =====
-- soma/tasks/manager.py: the branches on what a task sees of its run.
use Prim.Native.String.{◌++◌}
use codex_bridge.Prelude.{
  String, Bool, true, false, not, ◌||◌, ◌&&◌, Option, none, some, List, [], ◌∷◌, ◌==◌, option_eq,
  contains, string_eq, if◌then◌else◌,
}
use codex_bridge.Prelude.Text.{Object, text, get, text_or_empty}
use codex_bridge.Tasks.States.{
  TaskState, task_state_eq, task_accepted, task_queued, awaiting_controller, task_recovery_pending,
  uncertain, TaskPhase, task_phase_eq, recovery, result_published, is_terminal_task,
  map_backend_status,
}
use codex_bridge.Tasks.Tables.{
  backend_kind_eq, soma_durable_run, RecoveryState, recovery_state_eq, recovery_none,
  recovery_waits, recovery_unresolved, EventLevel, info, warning, error, Task,
}
use codex_bridge.Tasks.Update.{
  TaskField, set_result_ref, set_result_hash, set_evidence_ref, set_task_started_at,
  set_task_ended_at,
}
use codex_bridge.Tasks.Observe.{Observation}

-- What Python takes for true.
abbrev pub is_given : Option String → Bool
is_given none = false
is_given (some s) = not (s == "")

-- `_backend_identity_matches`; the function makes a text lower case.
unfoldable pub identity_matches : (String → String) → Task → Observation → Bool
unfolding get text_or_empty
identity_matches lower t o =
    let recorded : String = elim (get "repo_name" t.backend_identity) [
      | none ↦ ""
      | some v ↦ text_or_empty v
    ] in
    if not (t.backend_executor == "") && not (o.executor == t.backend_executor)
    then false
    else if recorded == "" || o.repo_name == ""
    then true
    else lower recorded == lower o.repo_name

-- The variables that the branches set.
pub record Derived : Type 0 where
  pub state : TaskState
  pub phase : TaskPhase
  pub recovery_state : RecoveryState
  pub reason : String
  pub level : EventLevel
  pub message : String
  pub fields : List TaskField
  pub noted : Object

abbrev reconciled_message : String
reconciled_message = "Canonical task projection reconciled with its backend"

abbrev in_recovery : TaskState → RecoveryState → String → EventLevel → String → Object → Derived
in_recovery state recovery_state reason level message noted = record {
  state = state;
  phase = recovery;
  recovery_state = recovery_state;
  reason = reason;
  level = level;
  message = message;
  fields = [];
  noted = noted;
}

-- The links to the result, once the run has ended.
unfoldable pub result_fields : Task → Observation → List TaskField
result_fields t o =
    let links =
      set_result_ref t.backend_ref
      ∷ set_result_hash o.result_published_hash
      ∷ set_evidence_ref ("run_terminal:" ++ t.backend_ref)
      ∷ [] in
    if is_given o.ended_at then set_task_ended_at o.ended_at ∷ links else links

unfoldable pub start_fields : Task → Observation → List TaskField
start_fields t o =
    if is_given o.started_at && not (is_given t.started_at)
    then set_task_started_at o.started_at ∷ []
    else []

unfoldable pub append_fields : List TaskField → List TaskField → List TaskField
append_fields [] gs = gs
append_fields (f ∷ fs) gs = f ∷ append_fields fs gs

-- The run is there and is the task's own.
unfoldable pub follow_run : Task → Observation → Derived
unfolding result_fields start_fields append_fields task_state_eq
follow_run t o =
    let (state, phase) = map_backend_status o.status in
    let ended = is_terminal_task state || state == awaiting_controller in
    record {
      state = state;
      phase = if is_terminal_task state then result_published else phase;
      recovery_state =
          if state == uncertain
          then recovery_unresolved
          else if state == task_recovery_pending
          then recovery_waits
          else recovery_none;
      reason =
          if state == uncertain
          then "unknown_backend_status"
          else if state == task_recovery_pending
          then "backend_recovery_pending"
          else "";
      level =
          if state == uncertain
          then error
          else if state == task_recovery_pending
          then warning
          else info;
      message =
          if state == uncertain
          then "Backend reported an unmapped status"
          else if state == task_recovery_pending
          then "Backend is in conservative recovery"
          else reconciled_message;
      fields = append_fields (start_fields t o) (if ended then result_fields t o else []);
      noted = [];
    }

abbrev missing_message : String
missing_message = "Backend run record is not present for this canonical task"

-- The branches of `_derive_target`.
unfoldable pub derive : (String → String) → Task → Observation → Derived
unfolding backend_kind_eq task_state_eq
derive lower t o =
    if not (t.backend_kind == soma_durable_run)
    then in_recovery uncertain recovery_unresolved "unsupported_backend_kind" info
        reconciled_message []
    else if t.backend_ref == ""
    then in_recovery task_recovery_pending recovery_waits "backend_reference_missing" info
        reconciled_message []
    else if not o.is_there
    then (if contains (task_accepted ∷ task_queued ∷ []) t.state
        then in_recovery task_recovery_pending recovery_waits "backend_launch_incomplete" warning
            missing_message []
        else in_recovery uncertain recovery_unresolved "backend_run_record_missing" warning
            missing_message [])
    else if not (identity_matches lower t o)
    then in_recovery uncertain recovery_unresolved "backend_identity_mismatch" error
        "Backend identity does not match the recorded task mapping"
        (("observed_executor", text o.executor) ∷ ("observed_repo_name", text o.repo_name) ∷ [])
    else follow_run t o
