-- ===== src/Workflows/Steps.antt =====
-- soma/workflows/store.py: the creation of a workflow, and the writes to its steps.
use codex_bridge.Prelude.{
  option_eq, ℕ, ◌+◌, String, Bool, true, false, not, ◌&&◌, Option, none, some, List, [], ◌∷◌, ◌++◌,
  ◌==◌, string_eq, nat_eq, if◌then◌else◌, Action, ok, raised, integrity_error, atomic, ◌>>◌,
}
use codex_bridge.Prelude.Table.{insert, update_where, count_where}
use codex_bridge.Prelude.Text.{Object}
use codex_bridge.Workflows.Models.{StepType, OnFailure}
use codex_bridge.Workflows.Tables.{
  WorkflowStatus, workflow_status_eq, workflow_running, StepStatus, step_status_eq, step_pending,
  step_running, Workflow, Step, WorkflowTables, workflow_key, Shown, get_workflow,
}
use codex_bridge.Workflows.Update.{shown_some, update_workflows, meets_one}

-- One entry of `steps`.
pub record NewStep : Type 0 where
  pub id : String
  pub order_index : ℕ
  pub step_type : StepType
  pub parameters : Object
  pub depends_on : List String
  pub on_failure : OnFailure

-- The arguments of `create_workflow`.
pub record NewWorkflow : Type 0 where
  pub workflow_id : String
  pub repo_name : String
  pub objective : String
  pub steps : List NewStep
  pub status : WorkflowStatus
  pub worker_lease_token : String
  pub lease_generation : ℕ
  pub launch_attempts : ℕ

abbrev pub new_workflow : NewWorkflow → String → Workflow
new_workflow n now = record {
  workflow_id = n.workflow_id;
  repo_name = n.repo_name;
  objective = n.objective;
  status = n.status;
  terminal_status = none;
  created_at = now;
  updated_at = now;
  started_at = none;
  ended_at = none;
  launcher_pid = none;
  launcher_identity = "";
  worker_pid = none;
  worker_lease_token = n.worker_lease_token;
  lease_generation = n.lease_generation;
  state_version = 0;
  worker_identity = "";
  worker_claimed_at = none;
  launch_attempts = n.launch_attempts;
  heartbeat_at = none;
  active_child_run_id = none;
  failure_summary = "";
  recommended_next_action = "";
  artifact_paths = [];
  result = [];
  publication_status = "pending";
  publication_hash = "";
  published_at = none;
  publication_error = "";
}

abbrev pub new_step : String → NewStep → Step
new_step workflow_id n = record {
  workflow_id = workflow_id;
  step_id = n.id;
  order_index = n.order_index;
  step_type = n.step_type;
  parameters = n.parameters;
  depends_on = n.depends_on;
  on_failure = n.on_failure;
  status = step_pending;
  state_version = 0;
  child_run_id = none;
  child_launch_attempts = 0;
  started_at = none;
  ended_at = none;
  summary = "";
  error = "";
  artifact_paths = [];
  result = [];
}

-- The row of the step, which its primary key names.
abbrev pub is_step : String → String → Step → Bool
is_step workflow_id step_id s = s.workflow_id == workflow_id && s.step_id == step_id

unfoldable pub insert_steps : String → List NewStep → Action WorkflowTables (Unit {0})
unfolding nat_eq
insert_steps workflow_id [] tables = (ok tt, tables)
insert_steps workflow_id (n ∷ ns) tables =
    if count_where (is_step workflow_id n.id) tables.steps == 0
    then insert_steps workflow_id ns
        (record tables { steps = tables.steps ++ (new_step workflow_id n ∷ []) })
    else (raised integrity_error, tables)

unfoldable pub insert_workflow : NewWorkflow → String → Action WorkflowTables (Unit {0})
unfolding insert_steps
insert_workflow n now tables = elim (insert workflow_key (new_workflow n now) tables.workflows) [
  | none ↦ (raised integrity_error, tables)
  | some rows ↦ insert_steps n.workflow_id n.steps (record tables { workflows = rows })
]

-- `create_workflow`
unfoldable pub create_workflow : NewWorkflow → String → Action WorkflowTables Shown
unfolding insert_workflow
create_workflow n now = atomic (insert_workflow n now) >> get_workflow n.workflow_id

-- A statement on the steps, and its `rowcount == 1`.
unfoldable pub update_steps : (Step → Bool) → (Step → Step) → WorkflowTables → WorkflowTables
update_steps p f tables = record tables { steps = update_where p f tables.steps }

unfoldable pub meets_one_step : (Step → Bool) → WorkflowTables → Bool
unfolding nat_eq
meets_one_step p tables = count_where p tables.steps == 1

-- `(? IS NULL OR state_version = ?)`
unfoldable pub is_version : Option ℕ → ℕ → Bool
unfolding nat_eq
is_version none v = true
is_version (some n) v = v == n

-- The workflow runs under this lease.
unfoldable pub runs_under : String → ℕ → Workflow → Bool
unfolding workflow_status_eq nat_eq
runs_under token generation w =
    w.status == workflow_running
    && w.worker_lease_token == token
    && w.lease_generation == generation

unfoldable pub is_free : String → ℕ → Option ℕ → Workflow → Bool
unfolding runs_under is_version
is_free token generation version w =
    runs_under token generation w
    && (elim w.active_child_run_id [ none ↦ true | some _ ↦ false ])
    && is_version version w.state_version

unfoldable pub takes_child : Option String → String → Workflow → Workflow
takes_child child now w = record w {
  active_child_run_id = child;
  updated_at = now;
  state_version = w.state_version + 1;
}

unfoldable pub is_waiting_step : String → String → Option ℕ → Step → Bool
unfolding step_status_eq is_version
is_waiting_step workflow_id step_id version s =
    is_step workflow_id step_id s && s.status == step_pending && is_version version s.state_version

unfoldable pub starts_step : Option String → String → Step → Step
starts_step child now s = record s {
  status = step_running;
  state_version = s.state_version + 1;
  child_run_id = child;
  child_launch_attempts =
      s.child_launch_attempts + (elim child [ none ↦ 0 | some c ↦ if c == "" then 0 else 1 ]);
  started_at = elim s.started_at [ none ↦ some now | some t ↦ some t ];
  summary = "Step running";
  error = "";
}

-- `claim_step`
unfoldable pub claim_step :
    String
    → String
    → String
    → ℕ
    → Option String
    → Option ℕ
    → Option ℕ
    → String
    → Action WorkflowTables (Option Shown)
unfolding is_free takes_child is_waiting_step starts_step update_steps meets_one_step
claim_step workflow_id step_id token generation child version step_version now tables =
    let taken =
      update_workflows workflow_id (is_free token generation version) (takes_child child now)
        tables in
    let waits = is_waiting_step workflow_id step_id step_version in
    let after = update_steps waits (starts_step child now) taken in
    if not (meets_one workflow_id (is_free token generation version) tables)
    then (ok none, tables)
    else if not (meets_one_step waits taken)
    then (ok none, tables)
    else (shown_some (get_workflow workflow_id after).0, after)

-- One `column = value`; the columns of `_STEP_UPDATE_FIELDS`, or another.
pub data StepField : Type 0 where
  step_to_status : StepStatus → StepField
  step_to_child : Option String → StepField
  step_to_attempts : ℕ → StepField
  step_to_started_at : Option String → StepField
  step_to_ended_at : Option String → StepField
  step_to_summary : String → StepField
  step_to_error : String → StepField
  step_to_artifact_paths : List String → StepField
  step_to_result : Object → StepField
  step_to_other : String → StepField

unfoldable pub all_step_fields : List StepField → Bool
all_step_fields [] = true
all_step_fields (step_to_other _ ∷ rest) = false
all_step_fields (_ ∷ rest) = all_step_fields rest

unfoldable pub assign_step : StepField → Step → Step
assign_step (step_to_status v) s = record s { status = v }
assign_step (step_to_child v) s = record s { child_run_id = v }
assign_step (step_to_attempts v) s = record s { child_launch_attempts = v }
assign_step (step_to_started_at v) s = record s { started_at = v }
assign_step (step_to_ended_at v) s = record s { ended_at = v }
assign_step (step_to_summary v) s = record s { summary = v }
assign_step (step_to_error v) s = record s { error = v }
assign_step (step_to_artifact_paths v) s = record s { artifact_paths = v }
assign_step (step_to_result v) s = record s { result = v }
assign_step (step_to_other _) s = s

unfoldable pub assign_step_fields : List StepField → Step → Step
unfolding assign_step
assign_step_fields [] s = s
assign_step_fields (f ∷ rest) s = assign_step_fields rest (assign_step f s)

unfoldable pub rewritten_step : List StepField → Step → Step
unfolding assign_step_fields
rewritten_step fields s = record (assign_step_fields fields s) {
  state_version = s.state_version + 1;
}
