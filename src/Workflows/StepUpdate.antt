-- ===== src/Workflows/StepUpdate.antt =====
-- soma/workflows/store.py: the writes to a step and its workflow together.
use codex_bridge.Prelude.{
  option_eq, ℕ, ◌+◌, String, Bool, true, false, not, ◌&&◌, ◌||◌, Option, none, some, List, [], ◌∷◌,
  ◌==◌, contains, string_eq, nat_eq, if◌then◌else◌, Action, ok, raised, value_error,
}
use codex_bridge.Prelude.Text.{Object}
use codex_bridge.Runs.Update.{is_empty}
use codex_bridge.Workflows.Tables.{
  WorkflowStatus, workflow_status_eq, workflow_cancelled, workflow_cancellation_pending, StepStatus,
  step_status_eq, step_pending, step_running, step_cancelled, Workflow, Step, WorkflowTables, Shown,
  is_step_of, get_workflow,
}
use codex_bridge.Workflows.Update.{
  WorkflowField, to_active_child_run_id, all_workflow_fields, rewritten, shown_some,
  update_workflows, meets_one,
}
use codex_bridge.Workflows.Worker.{Lease}
use codex_bridge.Workflows.Steps.{
  StepField, step_to_status, step_to_ended_at, step_to_summary, step_to_error, all_step_fields,
  rewritten_step, is_step, is_version, runs_under, update_steps, meets_one_step,
}

-- The arguments of `conditional_update_step`.
pub record StepUpdate : Type 0 where
  pub workflow_id : String
  pub step_id : String
  pub fields : List StepField
  pub statuses : List StepStatus
  pub token : String
  pub generation : ℕ
  pub version : Option ℕ
  pub child : Option (Option String)
  pub clears_child : Bool
  pub workflow_version : Option ℕ
  pub workflow_fields : List WorkflowField

-- `expected_child_run_id`, where it is given.
is_child_run : Option (Option String) → Option String → Bool
is_child_run none c = true
is_child_run (some expected) c = c == expected

-- The `WHERE` clause of the step.
unfoldable pub fits_step : StepUpdate → WorkflowTables → Step → Bool
unfolding step_status_eq is_version is_child_run
fits_step u tables s =
    is_step u.workflow_id u.step_id s
    && contains u.statuses s.status
    && meets_one u.workflow_id (runs_under u.token u.generation) tables
    && is_version u.version s.state_version
    && is_child_run u.child s.child_run_id

-- The child that is to be cleared, as the guard of the workflow asks for it.
is_active_child : StepUpdate → Workflow → Bool
is_active_child u w =
    if u.clears_child
    then (elim u.child [
      | none ↦ false
      | some none ↦ false
      | some (some c) ↦ w.active_child_run_id == some c
    ])
    else true

-- The `WHERE` clause of the workflow.
unfoldable pub fits_workflow : StepUpdate → Workflow → Bool
unfolding is_version is_active_child
fits_workflow u w =
    runs_under u.token u.generation w
    && is_version u.workflow_version w.state_version
    && is_active_child u w

-- Clearing a child needs its run.
unfoldable pub names_child : StepUpdate → Bool
names_child u =
    not u.clears_child || (elim u.child [ none ↦ false | some none ↦ false | some (some _) ↦ true ])

-- What the workflow is given; the last assignment of a column counts.
unfoldable pub workflow_part : StepUpdate → List WorkflowField
workflow_part u =
    if u.clears_child then to_active_child_run_id none ∷ u.workflow_fields else u.workflow_fields

-- `conditional_update_step`
unfoldable pub conditional_update_step : StepUpdate → String → Action WorkflowTables (Option Shown)
unfolding all_step_fields fits_step fits_workflow names_child workflow_part is_empty
conditional_update_step u now tables =
    let stepped = update_steps (fits_step u tables) (rewritten_step u.fields) tables in
    let after =
      update_workflows u.workflow_id (fits_workflow u) (rewritten (workflow_part u) true now)
        stepped in
    if not (all_step_fields u.fields)
    then (raised value_error, tables)
    else if not (all_workflow_fields u.workflow_fields)
    then (raised value_error, tables)
    else if is_empty u.statuses
    then (ok none, tables)
    else if not (meets_one_step (fits_step u tables) tables)
    then (ok none, tables)
    else if not (names_child u)
    then (raised value_error, tables)
    else if not (meets_one u.workflow_id (fits_workflow u) stepped)
    then (ok none, tables)
    else (shown_some (get_workflow u.workflow_id after).0, after)

-- `reset_local_summary`
unfoldable pub reset_local_summary :
    String → String → ℕ → ℕ → String → ℕ → String → Action WorkflowTables (Option Shown)
unfolding conditional_update_step
reset_local_summary workflow_id step_id workflow_version step_version token generation now =
    conditional_update_step
      (record {
        workflow_id = workflow_id;
        step_id = step_id;
        fields =
            step_to_status step_pending
            ∷ step_to_ended_at none
            ∷ step_to_summary ""
            ∷ step_to_error ""
            ∷ [];
        statuses = step_running ∷ [];
        token = token;
        generation = generation;
        version = some step_version;
        child = some none;
        clears_child = false;
        workflow_version = some workflow_version;
        workflow_fields = [];
      })
      now

-- The lease and the version that a cancellation asks for.
unfoldable pub holds : Lease → List WorkflowStatus → Workflow → Bool
unfolding workflow_status_eq nat_eq
holds l statuses w =
    contains statuses w.status
    && w.state_version == l.version
    && w.worker_lease_token == l.token
    && w.lease_generation == l.generation

unfoldable pub finalized : Object → String → Workflow → Workflow
finalized result now w = record w {
  status = workflow_cancelled;
  terminal_status = some workflow_cancelled;
  ended_at = some now;
  active_child_run_id = none;
  worker_pid = none;
  launcher_pid = none;
  worker_identity = "";
  launcher_identity = "";
  result = result;
  updated_at = now;
  state_version = w.state_version + 1;
}

unfoldable pub is_unfinished : String → Step → Bool
unfolding step_status_eq
is_unfinished workflow_id s =
    is_step_of workflow_id s && contains (step_pending ∷ step_running ∷ []) s.status

unfoldable pub cancelled_step : String → Step → Step
cancelled_step now s = record s {
  status = step_cancelled;
  ended_at = some now;
  summary = "Cancelled by request";
  error = "Workflow cancelled";
  state_version = s.state_version + 1;
}

-- `finalize_cancellation`
unfoldable pub finalize_cancellation :
    String → Lease → Object → String → Action WorkflowTables (Option Shown)
unfolding holds finalized is_unfinished cancelled_step
finalize_cancellation workflow_id l result now tables =
    let p = holds l (workflow_cancellation_pending ∷ []) in
    let after =
      update_steps (is_unfinished workflow_id) (cancelled_step now)
        (update_workflows workflow_id p (finalized result now) tables) in
    if meets_one workflow_id p tables
    then (shown_some (get_workflow workflow_id after).0, after)
    else (ok none, tables)

unfoldable pub cancelled_workflow : Object → String → Workflow → Workflow
cancelled_workflow result now w = record w {
  status = workflow_cancelled;
  terminal_status = some workflow_cancelled;
  ended_at = some now;
  active_child_run_id = none;
  failure_summary = if w.failure_summary == "" then "Workflow cancelled" else w.failure_summary;
  recommended_next_action = "Review completed work and restart only if needed.";
  result = result;
  updated_at = now;
  state_version = w.state_version + 1;
}

unfoldable pub cancelled_early : String → Step → Step
unfolding step_status_eq
cancelled_early now s = record s {
  status = step_cancelled;
  ended_at = some now;
  summary =
      if s.status == step_running then "Cancelled by request" else "Cancelled before execution";
  error =
      if s.status == step_running
      then "Workflow cancelled"
      else "Workflow cancelled before execution";
  state_version = s.state_version + 1;
}

-- `cancel_workflow`
unfoldable pub cancel_workflow :
    String → List WorkflowStatus → Lease → Object → String → Action WorkflowTables (Option Shown)
unfolding holds cancelled_workflow is_unfinished cancelled_early is_empty
cancel_workflow workflow_id statuses l result now tables =
    let after =
      update_steps (is_unfinished workflow_id) (cancelled_early now)
        (update_workflows workflow_id (holds l statuses) (cancelled_workflow result now) tables) in
    if is_empty statuses
    then (ok none, tables)
    else if meets_one workflow_id (holds l statuses) tables
    then (shown_some (get_workflow workflow_id after).0, after)
    else (ok none, tables)
