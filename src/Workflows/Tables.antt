-- ===== src/Workflows/Tables.antt =====
-- soma/workflows/models.py and soma/workflows/store.py: the tables of the workflows.
use codex_bridge.Prelude.{
  ℕ, String, Bool, Option, none, some, List, [], ◌∷◌, ◌==◌, contains, string_eq, nat_eq,
  if◌then◌else◌, leb, Eq, map, Action, ok, raised, key_error,
}
use codex_bridge.Prelude.Table.{find}
use codex_bridge.Prelude.Order.{select, sort_by}
use codex_bridge.Prelude.Text.{Object}
use codex_bridge.Tasks.Tables.{EventLevel}
use codex_bridge.Workflows.Models.{StepType, OnFailure}

-- `WorkflowStatus`
pub data WorkflowStatus : Type 0 where
  created workflow_queued workflow_running workflow_cancellation_pending : WorkflowStatus
  workflow_recovery_pending needs_approval workflow_needs_input workflow_completed : WorkflowStatus
  workflow_failed workflow_cancelled reported : WorkflowStatus

pub WorkflowStatus-discrete : Discrete WorkflowStatus
WorkflowStatus-discrete = hlevel

instance unfoldable pub workflow_status_eq : Eq WorkflowStatus
unfolding WorkflowStatus-discrete
workflow_status_eq = record { dec = WorkflowStatus-discrete }

-- `WorkflowStepStatus`
pub data StepStatus : Type 0 where
  step_pending step_running step_passed step_failed step_skipped step_cancelled : StepStatus

pub StepStatus-discrete : Discrete StepStatus
StepStatus-discrete = hlevel

instance unfoldable pub step_status_eq : Eq StepStatus
unfolding StepStatus-discrete
step_status_eq = record { dec = StepStatus-discrete }

-- `_WORKFLOW_TERMINAL_STATUSES`
abbrev pub terminal_workflow_statuses : List WorkflowStatus
terminal_workflow_statuses =
    needs_approval ∷ workflow_needs_input ∷ workflow_completed ∷ workflow_failed
    ∷ workflow_cancelled ∷ reported ∷ []

unfoldable pub is_terminal_workflow : WorkflowStatus → Bool
is_terminal_workflow s = contains terminal_workflow_statuses s

-- A row of `workflows`.
pub record Workflow : Type 0 where
  pub workflow_id : String
  pub repo_name : String
  pub objective : String
  pub status : WorkflowStatus
  pub terminal_status : Option WorkflowStatus
  pub created_at : String
  pub updated_at : String
  pub started_at : Option String
  pub ended_at : Option String
  pub launcher_pid : Option ℕ
  pub launcher_identity : String
  pub worker_pid : Option ℕ
  pub worker_lease_token : String
  pub lease_generation : ℕ
  pub state_version : ℕ
  pub worker_identity : String
  pub worker_claimed_at : Option String
  pub launch_attempts : ℕ
  pub heartbeat_at : Option String
  pub active_child_run_id : Option String
  pub failure_summary : String
  pub recommended_next_action : String
  pub artifact_paths : List String
  pub result : Object
  pub publication_status : String
  pub publication_hash : String
  pub published_at : Option String
  pub publication_error : String

-- A row of `workflow_steps`.
pub record Step : Type 0 where
  pub workflow_id : String
  pub step_id : String
  pub order_index : ℕ
  pub step_type : StepType
  pub parameters : Object
  pub depends_on : List String
  pub on_failure : OnFailure
  pub status : StepStatus
  pub state_version : ℕ
  pub child_run_id : Option String
  pub child_launch_attempts : ℕ
  pub started_at : Option String
  pub ended_at : Option String
  pub summary : String
  pub error : String
  pub artifact_paths : List String
  pub result : Object

-- A row of `workflow_events`.
pub record WorkflowEvent : Type 0 where
  pub id : ℕ
  pub workflow_id : String
  pub timestamp : String
  pub level : EventLevel
  pub stage : String
  pub message : String
  pub payload : Object

pub record WorkflowTables : Type 0 where
  pub workflows : List Workflow
  pub steps : List Step
  pub events : List WorkflowEvent
  pub next_event_id : ℕ

abbrev pub workflow_key : Workflow → String
workflow_key w = w.workflow_id

-- A workflow with its steps, as `WorkflowRecord` holds them.
abbrev pub Shown : Type 0
Shown = Workflow × List Step

abbrev pub is_step_of : String → Step → Bool
is_step_of workflow_id s = s.workflow_id == workflow_id

abbrev is_step_before : Step → Step → Bool
is_step_before s t = leb s.order_index t.order_index

-- A value that Python takes for false is read as none.
truthy_text : Option String → Option String
truthy_text none = none
truthy_text (some s) = if s == "" then none else some s

truthy_number : Option ℕ → Option ℕ
unfolding nat_eq
truthy_number none = none
truthy_number (some n) = if n == 0 then none else some n

-- `_hydrate_workflow`, the columns of the workflow.
unfoldable pub hydrate : Workflow → Workflow
unfolding truthy_text truthy_number nat_eq
hydrate w = record w {
  started_at = truthy_text w.started_at;
  ended_at = truthy_text w.ended_at;
  launcher_pid = truthy_number w.launcher_pid;
  worker_pid = truthy_number w.worker_pid;
  lease_generation = if w.lease_generation == 0 then 1 else w.lease_generation;
  worker_claimed_at = truthy_text w.worker_claimed_at;
  heartbeat_at = truthy_text w.heartbeat_at;
  active_child_run_id = truthy_text w.active_child_run_id;
  publication_status = if w.publication_status == "" then "pending" else w.publication_status;
  published_at = truthy_text w.published_at;
}

-- `_row_to_step`
unfoldable pub hydrate_step : Step → Step
unfolding truthy_text
hydrate_step s = record s {
  child_run_id = truthy_text s.child_run_id;
  started_at = truthy_text s.started_at;
  ended_at = truthy_text s.ended_at;
}

-- The steps of a workflow, `ORDER BY order_index ASC`.
unfoldable pub steps_of : String → List Step → List Step
unfolding hydrate_step
steps_of workflow_id steps =
    map hydrate_step (sort_by is_step_before (select (is_step_of workflow_id) steps))

-- `get_workflow`
unfoldable pub get_workflow : String → Action WorkflowTables Shown
unfolding hydrate steps_of
get_workflow workflow_id tables = elim (find workflow_key workflow_id tables.workflows) [
  | none ↦ (raised key_error, tables)
  | some w ↦ (ok (hydrate w, steps_of workflow_id tables.steps), tables)
]
