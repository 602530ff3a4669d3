-- ===== src/Tests/Workflows.antt =====
-- The theorems of soma/workflows at concrete tables.
use codex_bridge.Prelude.{
  arith, ℕ, String, true, false, ◌≡◌, refl, Option, none, some, List, [], ◌∷◌, if◌then◌else◌, ok,
  raised, value_error, Result, string_eq, nat_eq, map, ◌++◌,
}
use codex_bridge.Prelude.Table.{find, count_where, update_where}
use codex_bridge.Prelude.Order.{sort_by, select}
use codex_bridge.Workflows.Models.{
  StepDefinition, pytest_path, git_readonly, stop_workflow, validate_graph,
}
use codex_bridge.Workflows.Order.{is_graph, validate_graph_lem}
use codex_bridge.Workflows.Tables.{
  WorkflowStatus, workflow_queued, workflow_running, workflow_completed, step_running, step_passed,
  StepStatus, Shown, Workflow, WorkflowTables, workflow_key, get_workflow,
}
use codex_bridge.Workflows.Update.{
  update_workflows, meets_one, to_status, conditional_update_workflow, allows, fits_guard,
  rewritten,
}
use codex_bridge.Workflows.Worker.{
  owned, Lease, end_workflow, claim_workflow_write, record_workflow_launch,
}
use codex_bridge.Workflows.Steps.{
  NewStep, NewWorkflow, step_to_status, new_workflow, new_step, meets_one_step, claim_step,
  rewritten_step,
}
use codex_bridge.Workflows.StepUpdate.{cancel_workflow, conditional_update_step}
use codex_bridge.Workflows.Lasting.{Lasts}
use codex_bridge.Workflows.Writes.{
  is_careful_write, all_careful_writes, WorkflowWrite, launch, claim, take_step, update_one,
  end_with, cancel, write_workflows,
}
use codex_bridge.Workflows.Lifecycle.{write_workflows-Lasts}
use codex_bridge.Workflows.Direct.{fail_unstarted}
use codex_bridge.Workflows.OneChild.{claim_step-late}

abbrev check : StepDefinition
check = record {
  id = "check";
  step_type = git_readonly;
  depends_on = [];
  on_failure = stop_workflow;
  parameters = [];
}

abbrev tests : StepDefinition
tests = record check { id = "tests"; step_type = pytest_path; depends_on = "check" ∷ [] }

-- A graph that is accepted, and one that is refused since its steps stand in the wrong order.
accepts_order : validate_graph (check ∷ tests ∷ []) ≡ some (ok tt)
unfolding validate_graph string_eq
accepts_order = refl

refuses_order : validate_graph (tests ∷ check ∷ []) ≡ some (raised value_error)
unfolding validate_graph string_eq
refuses_order = refl

validate_graph_example :
    validate_graph (check ∷ tests ∷ [])
    ≡ some (if is_graph (check ∷ tests ∷ []) then ok tt else raised value_error)
validate_graph_example = validate_graph_lem (check ∷ tests ∷ [])

abbrev workflow_id : String
workflow_id = "20260726T000000Z_workflow_0a1b2c3d"

abbrev only_step : NewStep
only_step = record {
  id = "tests";
  order_index = 0;
  step_type = pytest_path;
  parameters = [];
  depends_on = [];
  on_failure = stop_workflow;
}

abbrev request : NewWorkflow
request = record {
  workflow_id = workflow_id;
  repo_name = "bridge";
  objective = "run the tests";
  steps = only_step ∷ [];
  status = workflow_queued;
  worker_lease_token = "token";
  lease_generation = 1;
  launch_attempts = 1;
}

abbrev queued : Workflow
queued = new_workflow request "2026-07-26T00:00:00"

abbrev only_queued : WorkflowTables
only_queued = record {
  workflows = queued ∷ [];
  steps = new_step workflow_id only_step ∷ [];
  events = [];
  next_event_id = 1;
}

abbrev lease : ℕ → Lease
lease n = record { version = n; token = "token"; generation = 1 }

abbrev now : String
now = "2026-07-26T00:01:00"

-- The worker is launched, takes the workflow and its step, and passes it.
abbrev work : List WorkflowWrite
work =
    launch workflow_id 10 (lease 0) "launcher" now
    ∷ claim workflow_id (lease 1) 11 "worker" now (queued, [])
    ∷ take_step workflow_id "tests" "token" 1 none (some 2) (some 0) now
    ∷ update_one
        (record {
          workflow_id = workflow_id;
          step_id = "tests";
          fields = step_to_status step_passed ∷ [];
          statuses = step_running ∷ [];
          token = "token";
          generation = 1;
          version = some 1;
          child = none;
          clears_child = false;
          workflow_version = some 3;
          workflow_fields = [];
        })
        now
    ∷ end_with workflow_id workflow_completed (lease 4) "" "Review the report." now
    ∷ []

-- A cancellation and a failed relaunch that come too late change nothing.
abbrev work_and_cancel : List WorkflowWrite
work_and_cancel =
    work
    ++ (cancel workflow_id (workflow_running ∷ workflow_queued ∷ []) (lease 4) [] now
        ∷ fail_unstarted queued "token" 1 none "The worker did not start." "Retry." now
        ∷ [])

statuses_of : WorkflowTables → List WorkflowStatus × List StepStatus
statuses_of t = (map (λ w. w.status) t.workflows, map (λ s. s.status) t.steps)

passes_step :
    statuses_of (write_workflows work_and_cancel only_queued)
    ≡ (workflow_completed ∷ [], step_passed ∷ [])
unfolding write_workflows fail_unstarted statuses_of cancel_workflow conditional_update_step
    meets_one conditional_update_workflow allows fits_guard rewritten end_workflow
    claim_workflow_write record_workflow_launch meets_one_step claim_step rewritten_step count_where
    update_where find string_eq
passes_step = refl

work_and_cancel-careful : all_careful_writes work_and_cancel ≡ true
unfolding all_careful_writes is_careful_write fail_unstarted
work_and_cancel-careful = refl

write_workflows-Lasts_example :
    (w : Workflow) × (find workflow_key workflow_id
        (write_workflows work_and_cancel only_queued).workflows
      ≡ some w)
    × Lasts queued w
unfolding find string_eq
write_workflows-Lasts_example =
    write_workflows-Lasts work_and_cancel only_queued workflow_id queued work_and_cancel-careful
      refl

abbrev taken : Shown
taken = (
  record queued { status = workflow_running; updated_at = now; state_version = 1 },
  new_step workflow_id only_step ∷ [],
)

abbrev take : WorkflowTables → Result (Option Shown) × WorkflowTables
take =
    conditional_update_workflow workflow_id (to_status workflow_running ∷ [])
      (owned (workflow_queued ∷ []) (lease 0)) true now

abbrev only_running : WorkflowTables
only_running = record only_queued { workflows = record queued { status = workflow_running } ∷ [] }

abbrev child_id : String
child_id = "20260726T000000Z_powershell_0a1b2c3d"

abbrev take_for : String → WorkflowTables → Result (Option Shown) × WorkflowTables
take_for child = claim_step workflow_id "tests" "token" 1 (some child) (some 0) none now

abbrev claimed : Shown
claimed = (
  record queued {
    status = workflow_running;
    active_child_run_id = some child_id;
    updated_at = now;
    state_version = 1;
  },
  record (new_step workflow_id only_step) {
    status = step_running;
    state_version = 1;
    child_run_id = some child_id;
    child_launch_attempts = 1;
    started_at = some now;
    summary = "Step running";
  }
      ∷ [],
)

-- The first worker ends its step without a child, and a second one that had read the workflow before
-- comes too late.
abbrev step_over : List WorkflowWrite
step_over =
    update_one
      (record {
        workflow_id = workflow_id;
        step_id = "tests";
        fields = step_to_status step_passed ∷ [];
        statuses = step_running ∷ [];
        token = "token";
        generation = 1;
        version = some 1;
        child = none;
        clears_child = true;
        workflow_version = some 1;
        workflow_fields = [];
      })
      now
    ∷ []

step_over-careful : all_careful_writes step_over ≡ true
unfolding all_careful_writes is_careful_write
step_over-careful = refl

claim_step-late_example :
    (let later = write_workflows step_over (take_for child_id only_running).1 in
      take_for "another" later ≡ (ok none, later))
unfolding claim_step find meets_one count_where string_eq update_workflows get_workflow update_where
    sort_by select
claim_step-late_example =
    claim_step-late workflow_id "tests" "token" 1 (some child_id) 0 none now only_running claimed
      step_over "tests" "token" 1 (some "another") 0 none now (refl, tt) step_over-careful refl
      (omega arith)
