-- ===== src/Workflows/Update.antt =====
-- soma/workflows/store.py: the conditional update of a workflow.
use codex_bridge.Prelude.{
  Eq, option_eq, ℕ, ◌+◌, String, Bool, true, false, not, ◌&&◌, Option, none, some, List, [], ◌∷◌,
  ◌==◌, contains, string_eq, nat_eq, if◌then◌else◌, Action, Result, ok, raised, value_error,
}
use codex_bridge.Prelude.Table.{update_where, count_where, keyed}
use codex_bridge.Prelude.Text.{Object}
use codex_bridge.Runs.Update.{is_empty}
use codex_bridge.Workflows.Tables.{
  WorkflowStatus, workflow_status_eq, is_terminal_workflow, Workflow, WorkflowTables, workflow_key,
  Shown, get_workflow,
}

-- One `column = value`; the columns of `_WORKFLOW_UPDATE_FIELDS`, or another.
pub data WorkflowField : Type 0 where
  to_status : WorkflowStatus → WorkflowField
  to_terminal_status : Option WorkflowStatus → WorkflowField
  to_started_at : Option String → WorkflowField
  to_ended_at : Option String → WorkflowField
  to_launcher_pid : Option ℕ → WorkflowField
  to_launcher_identity : String → WorkflowField
  to_worker_pid : Option ℕ → WorkflowField
  to_worker_lease_token : String → WorkflowField
  to_lease_generation : ℕ → WorkflowField
  to_worker_identity : String → WorkflowField
  to_worker_claimed_at : Option String → WorkflowField
  to_launch_attempts : ℕ → WorkflowField
  to_heartbeat_at : Option String → WorkflowField
  to_active_child_run_id : Option String → WorkflowField
  to_failure_summary : String → WorkflowField
  to_recommended_next_action : String → WorkflowField
  to_artifact_paths : List String → WorkflowField
  to_result : Object → WorkflowField
  to_publication_status : String → WorkflowField
  to_publication_hash : String → WorkflowField
  to_published_at : Option String → WorkflowField
  to_publication_error : String → WorkflowField
  to_other : String → WorkflowField

unfoldable pub is_workflow_field : WorkflowField → Bool
is_workflow_field (to_other _) = false
is_workflow_field _ = true

unfoldable pub all_workflow_fields : List WorkflowField → Bool
unfolding is_workflow_field
all_workflow_fields [] = true
all_workflow_fields (f ∷ rest) = is_workflow_field f && all_workflow_fields rest

unfoldable pub assign_workflow : WorkflowField → Workflow → Workflow
assign_workflow (to_status v) w = record w { status = v }
assign_workflow (to_terminal_status v) w = record w { terminal_status = v }
assign_workflow (to_started_at v) w = record w { started_at = v }
assign_workflow (to_ended_at v) w = record w { ended_at = v }
assign_workflow (to_launcher_pid v) w = record w { launcher_pid = v }
assign_workflow (to_launcher_identity v) w = record w { launcher_identity = v }
assign_workflow (to_worker_pid v) w = record w { worker_pid = v }
assign_workflow (to_worker_lease_token v) w = record w { worker_lease_token = v }
assign_workflow (to_lease_generation v) w = record w { lease_generation = v }
assign_workflow (to_worker_identity v) w = record w { worker_identity = v }
assign_workflow (to_worker_claimed_at v) w = record w { worker_claimed_at = v }
assign_workflow (to_launch_attempts v) w = record w { launch_attempts = v }
assign_workflow (to_heartbeat_at v) w = record w { heartbeat_at = v }
assign_workflow (to_active_child_run_id v) w = record w { active_child_run_id = v }
assign_workflow (to_failure_summary v) w = record w { failure_summary = v }
assign_workflow (to_recommended_next_action v) w = record w { recommended_next_action = v }
assign_workflow (to_artifact_paths v) w = record w { artifact_paths = v }
assign_workflow (to_result v) w = record w { result = v }
assign_workflow (to_publication_status v) w = record w { publication_status = v }
assign_workflow (to_publication_hash v) w = record w { publication_hash = v }
assign_workflow (to_published_at v) w = record w { published_at = v }
assign_workflow (to_publication_error v) w = record w { publication_error = v }
assign_workflow (to_other _) w = w

unfoldable pub assign_fields : List WorkflowField → Workflow → Workflow
unfolding assign_workflow
assign_fields [] w = w
assign_fields (f ∷ rest) w = assign_fields rest (assign_workflow f w)

-- The row after the statement.
unfoldable pub rewritten : List WorkflowField → Bool → String → Workflow → Workflow
unfolding assign_fields
rewritten fields bump now w = record (assign_fields fields w) {
  updated_at = now;
  state_version = if bump then w.state_version + 1 else w.state_version;
}

-- The conditions that a caller may give.
pub record WorkflowGuard : Type 0 where
  pub statuses : Option (List WorkflowStatus)
  pub version : Option ℕ
  pub token : Option String
  pub generation : Option ℕ
  pub heartbeat : Option (Option String)
  pub publication_status : Option String
  pub publication_hash : Option String
  pub reject_terminal : Bool

abbrev equals {ℓ} : {A : Type ℓ} ⦃e : Eq A⦄ → Option A → A → Bool
equals none a = true
equals (some b) a = a == b

abbrev one_of : Option (List WorkflowStatus) → WorkflowStatus → Bool
one_of none s = true
one_of (some ss) s = contains ss s

-- The conditions on columns, where they are given.
unfoldable pub fits_guard : WorkflowGuard → Workflow → Bool
unfolding workflow_status_eq
fits_guard g w =
    one_of g.statuses w.status
    && equals g.version w.state_version
    && equals g.token w.worker_lease_token
    && equals g.generation w.lease_generation
    && equals g.heartbeat w.heartbeat_at
    && equals g.publication_status w.publication_status
    && equals g.publication_hash w.publication_hash

-- The `WHERE` clause after `workflow_id = ?`.
unfoldable pub allows : WorkflowGuard → Workflow → Bool
allows g w =
    fits_guard g w && (if g.reject_terminal then not (is_terminal_workflow w.status) else true)

-- No status is expected at all.
unfoldable pub expects_nothing : WorkflowGuard → Bool
unfolding is_empty
expects_nothing g = elim g.statuses [ none ↦ false | some ss ↦ is_empty ss ]

abbrev pub shown_some : Result Shown → Result (Option Shown)
shown_some (ok s) = ok (some s)
shown_some (raised e) = raised e

-- The statement.
unfoldable pub update_workflows :
    String → (Workflow → Bool) → (Workflow → Workflow) → WorkflowTables → WorkflowTables
update_workflows workflow_id p f tables = record tables {
  workflows = update_where (keyed workflow_key workflow_id p) f tables.workflows;
}

-- `cursor.rowcount == 1`
unfoldable pub meets_one : String → (Workflow → Bool) → WorkflowTables → Bool
unfolding nat_eq
meets_one workflow_id p tables =
    count_where (keyed workflow_key workflow_id p) tables.workflows == 1

-- `conditional_update_workflow`
unfoldable pub conditional_update_workflow :
    String
    → List WorkflowField
    → WorkflowGuard
    → Bool
    → String
    → Action WorkflowTables (Option Shown)
unfolding all_workflow_fields expects_nothing update_workflows meets_one get_workflow
conditional_update_workflow workflow_id fields g bump now tables =
    let after = update_workflows workflow_id (allows g) (rewritten fields bump now) tables in
    if not (all_workflow_fields fields)
    then (raised value_error, tables)
    else if expects_nothing g
    then (ok none, tables)
    else if meets_one workflow_id (allows g) tables
    then (shown_some (get_workflow workflow_id after).0, after)
    else (ok none, after)
