-- ===== src/Tests/Manager.antt =====
-- The theorems of soma/tasks/manager.py at concrete tables.
use codex_bridge.Prelude.{
  String, true, false, not, ◌&&◌, none, some, [], ◌∷◌, ◌≡◌, refl, ◌==◌, if◌then◌else◌, string_eq,
  nat_eq, option_eq, ok, Action, All, length,
}
use codex_bridge.Prelude.Table.{find, count_where}
use codex_bridge.Runs.Model.{completed, running, Run, Database}
use codex_bridge.Runs.RunId.{is_run_id}
use codex_bridge.Runs.Update.{is_empty}
use codex_bridge.Tasks.States.{
  task_state_eq, task_completed, uncertain, is_terminal_task, map_backend_status,
}
use codex_bridge.Tasks.Tables.{Task, task_key, command_key, is_task_id, backend_kind_eq}
use codex_bridge.Tasks.Update.{is_backend_unique, updated_task}
use codex_bridge.Tasks.Reserve.{new_task}
use codex_bridge.Tasks.Reads.{get_task, list_active_tasks}
use codex_bridge.Tasks.Indexes.{HasIndexes}
use codex_bridge.Tasks.Scopes.{ScopeTables, scope_for_task, legacy_unassigned}
use codex_bridge.Tasks.Observe.{query}
use codex_bridge.Tasks.Derive.{material, target_fields}
use codex_bridge.Tasks.Branches.{derive, identity_matches, follow_run}
use codex_bridge.Tasks.Reconcile.{World, proven, proven_run, reconcile_task, reconcile_startup}
use codex_bridge.Tasks.Projection.{Follows}
use codex_bridge.Tasks.Follow.{reconciled}
use codex_bridge.Tasks.Settle.{reconcile_task-Leaves}
use codex_bridge.Tasks.Reconciled.{Completes, reconcile_task-Follows, reconcile_task-completed}
use codex_bridge.Tasks.Repeated.{is_lost}
use codex_bridge.Tasks.Idempotent.{reconcile_task-idempotent, reconcile_task-drifts}
use codex_bridge.Tasks.Turns.{Stands, failed_ids, unbound_ids}
use codex_bridge.Tasks.Startup.{reconcile_startup-Stands}
use codex_bridge.Tasks.Cancel.{
  Plane, Cancelled, CancelRequest, load_task_scope, scope_of, cancel_task,
}
use codex_bridge.Tasks.Cancelling.{Closes, cancel_task-Closes, cancel_task-untouched}
use codex_bridge.Tests.Sample.{waiting}
use codex_bridge.Tests.TaskStores.{first_task, asked, one_task, first_task-valid, one_task-found}

abbrev no_projects : ScopeTables
no_projects = record { is_installed = false; reservations = []; attempts = [] }

abbrev plain_world : World
plain_world = record {
  lower = λ s. s;
  show_names = λ names. "";
  show_error = λ e. "";
  redact = λ s. s;
  scopes = no_projects;
}

abbrev accepted_task : Task
accepted_task = new_task asked "10:00"

-- The run of the task, which has completed.
abbrev ended_run : Run
ended_run = record waiting {
  run_id = "20260726T010203Z_command_0a1b2c3d";
  tool = "powershell";
  status = completed;
  ended_at = some "10:05";
}

abbrev with_run : Run → Database
with_run r = record { runs = r ∷ []; events = []; next_event_id = 1; locks = [] }

abbrev no_runs : Database
no_runs = record { runs = []; events = []; next_event_id = 1; locks = [] }

one_task-HasIndexes : HasIndexes one_task.tasks
unfolding find is_backend_unique string_eq count_where
one_task-HasIndexes = record {
  unique_ids = (refl, tt);
  unique_requests = (refl, tt);
  unique_backends = refl;
}

accepted_task-proven : proven no_projects accepted_task ≡ ok legacy_unassigned
unfolding proven_run scope_for_task string_eq
accepted_task-proven = refl

-- The state that the call leaves the task in.
abbrev reconciled_task : Task
reconciled_task =
    reconciled plain_world accepted_task (query accepted_task.backend_ref (with_run ended_run))
      "10:06"

reconciled_task-completed : reconciled_task.state ≡ task_completed
unfolding string_eq is_empty material target_fields derive query is_run_id find identity_matches
    follow_run is_terminal_task map_backend_status option_eq updated_task
reconciled_task-completed = refl

reconcile_task-Follows_example :
    (u : Task) × ((reconcile_task plain_world
        (with_run ended_run)
        first_task
        "status"
        "10:06"
        one_task).0
      ≡ ok u)
    × (find task_key first_task
          (reconcile_task plain_world
            (with_run ended_run)
            first_task
            "status"
            "10:06"
            one_task).1.tasks
        ≡ (if first_task == first_task then some u else find task_key first_task one_task.tasks))
    × Follows
        (derive (λ s. s) accepted_task (query accepted_task.backend_ref (with_run ended_run)))
        u
reconcile_task-Follows_example =
    reconcile_task-Follows plain_world (with_run ended_run) accepted_task "status" "10:06" one_task
      legacy_unassigned first_task one_task-HasIndexes first_task-valid one_task-found
      accepted_task-proven

accepted_task-returned :
    (reconcile_task plain_world (with_run ended_run) first_task "status" "10:06" one_task).0
    ≡ ok reconciled_task
accepted_task-returned =
    (reconcile_task-Leaves plain_world (with_run ended_run) accepted_task "status" "10:06" one_task
      legacy_unassigned one_task-HasIndexes first_task-valid one_task-found
      accepted_task-proven).returns

reconcile_task-completed_example : Completes plain_world accepted_task (with_run ended_run)
reconcile_task-completed_example =
    reconcile_task-completed plain_world (with_run ended_run) accepted_task "status" "10:06"
      one_task legacy_unassigned reconciled_task one_task-HasIndexes first_task-valid one_task-found
      accepted_task-proven accepted_task-returned reconciled_task-completed

ended_run-there :
    is_lost accepted_task (query accepted_task.backend_ref (with_run ended_run)) ≡ false
unfolding is_lost query is_run_id find string_eq
ended_run-there = refl

reconcile_task-idempotent_example :
    let first =
      reconcile_task plain_world (with_run ended_run) first_task "status" "10:06" one_task in
    reconcile_task plain_world (with_run ended_run) first_task "cancel" "10:07" first.1 ≡ first
reconcile_task-idempotent_example =
    reconcile_task-idempotent plain_world (with_run ended_run) accepted_task "status" "10:06"
      "cancel" "10:07" one_task legacy_unassigned one_task-HasIndexes first_task-valid
      one_task-found accepted_task-proven ended_run-there

no_run-lost : is_lost accepted_task (query accepted_task.backend_ref no_runs) ≡ true
unfolding is_lost query is_run_id find string_eq task_state_eq
no_run-lost = refl

reconcile_task-drifts_example :
    let first = reconcile_task plain_world no_runs first_task "status" "10:06" one_task in
    (u v : Task) × (first.0 ≡ ok u)
    × (u.recovery_reason ≡ "backend_launch_incomplete")
    × ((reconcile_task plain_world no_runs first_task "cancel" "10:07" first.1).0 ≡ ok v)
    × (v.state ≡ uncertain)
    × (v.recovery_reason ≡ "backend_run_record_missing")
reconcile_task-drifts_example =
    reconcile_task-drifts plain_world no_runs accepted_task "status" "10:06" "cancel" "10:07"
      one_task legacy_unassigned one_task-HasIndexes first_task-valid one_task-found
      accepted_task-proven no_run-lost

reconcile_startup-Stands_example :
    let listed = list_active_tasks 5 one_task in
    let (report, after) = reconcile_startup plain_world (with_run ended_run) 5 "10:06" one_task in
    (report.examined ≡ length listed)
    × (failed_ids report ≡ unbound_ids no_projects listed)
    × All (Stands plain_world (with_run ended_run) after) listed
reconcile_startup-Stands_example =
    reconcile_startup-Stands plain_world (with_run ended_run) 5 "10:06" one_task one_task-HasIndexes

abbrev asked_to_cancel : CancelRequest
asked_to_cancel = record {
  task_id = first_task;
  if_state_version = 0;
  reason = "no longer needed";
  controller_request_id = "request-8";
  project_id = "";
  command_id = "command-1";
}

abbrev plane : Plane
plane = record { tables = one_task; db = with_run (record ended_run { status = running }) }

-- A backend that says it has cancelled.
abbrev always_cancels : String → Action Database Cancelled
always_cancels i db =
    (ok (record { is_ok = true; status = "cancelled"; reason = "by request" }), db)

first_task-loaded : load_task_scope no_projects first_task "" one_task ≡ ok accepted_task
unfolding load_task_scope scope_of get_task is_task_id find string_eq scope_for_task
first_task-loaded = refl

no_command-found : find command_key "command-1" one_task.commands ≡ none
unfolding find
no_command-found = refl

cancel_task-Closes_example :
    Closes plain_world always_cancels asked_to_cancel "10:07"
      (cancel_task plain_world always_cancels asked_to_cancel "10:07" plane)
cancel_task-Closes_example =
    cancel_task-Closes plain_world always_cancels asked_to_cancel "10:07" accepted_task
      (record { is_ok = true; status = "cancelled"; reason = "by request" }) plane
      one_task-HasIndexes first_task-loaded no_command-found refl

-- A controller that saw a later version.
abbrev asked_late : CancelRequest
asked_late = record asked_to_cancel { if_state_version = 3 }

asked_late-idle :
    (asked_late.if_state_version == accepted_task.state_version
      && not (is_terminal_task accepted_task.state))
    ≡ false
unfolding nat_eq
asked_late-idle = refl

cancel_task-untouched_example :
    ((cancel_task plain_world always_cancels asked_late "10:07" plane).1.db ≡ plane.db)
    × ((cancel_task plain_world always_cancels asked_late "10:07" plane).1.tables.tasks
        ≡ plane.tables.tasks)
cancel_task-untouched_example =
    cancel_task-untouched plain_world always_cancels asked_late "10:07" accepted_task plane
      first_task-loaded asked_late-idle
