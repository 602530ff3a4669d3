-- ===== src/Tests/TaskStores.antt =====
-- The theorems of soma/tasks/store.py at concrete tables.
use mathlib.Core.Option
use codex_bridge.Prelude.{
  String, true, false, ◌≡◌, refl, Option, none, some, List, [], ◌∷◌, ◌==◌, if◌then◌else◌, string_eq,
  ok, raised, value_error, nat_eq,
}
use codex_bridge.Prelude.Table.{find, keyed, Unique, count_where, update_where}
use codex_bridge.Runs.Update.{is_empty}
use codex_bridge.Tasks.States.{
  task_state_eq, task_accepted, task_running, backend_reserved, TaskState,
}
use codex_bridge.Tasks.Tables.{
  durable_command, soma_durable_run, Task, TaskTables, task_key, is_task_id,
}
use codex_bridge.Tasks.Reserve.{Reserve, new_task, reserve_task}
use codex_bridge.Tasks.Update.{
  TaskField, set_state, updated_task, fits_task, is_backend_unique, conditional_update_task,
  all_updatable,
}
use codex_bridge.Tasks.Create.{IsFresh}
use codex_bridge.Tasks.Changes.{TaskWrite, update, write_tasks, after_update}
use codex_bridge.Tasks.Indexes.{HasIndexes}
use codex_bridge.Tasks.Identity.{IsLater, write_tasks-IsLater}
use codex_bridge.Tasks.Bindings.{
  promise, promised, ledger_of, reserve_task-promise, reserve_task-replay,
}
use codex_bridge.Tasks.Cas.{is_update, met_task, conditional_update_task_lem}

abbrev pub first_task : String
first_task = "task_20260726T010203Z_0a1b2c3d4e5f"

abbrev second_task : String
second_task = "task_20260726T020304Z_1b2c3d4e5f60"

-- A request for a command on a run.
abbrev pub asked : Reserve
asked = record {
  task_id = first_task;
  task_kind = durable_command;
  controller_request_id = "request-7";
  request_hash = "hash-7";
  backend_kind = soma_durable_run;
  backend_executor = "powershell";
  backend_ref = "20260726T010203Z_command_0a1b2c3d";
  backend_identity = [];
  objective_ref = "";
  constraints_ref = "";
  workspace_kind = "";
  workspace_ref = "";
  parent_task_id = "";
  state = task_accepted;
  phase = backend_reserved;
}

-- The same request, sent again under the identifier that the retry made.
abbrev asked_again : Reserve
asked_again = record asked { task_id = second_task; backend_ref = "" }

abbrev no_tasks : TaskTables
no_tasks = record {
  tasks = [];
  links = [];
  next_link_id = 1;
  commands = [];
  checkpoints = [];
  events = [];
  next_event_id = 1;
}

pub first_task-valid : is_task_id first_task ≡ true
unfolding is_task_id
first_task-valid = refl

second_task-valid : is_task_id second_task ≡ true
unfolding is_task_id
second_task-valid = refl

asked-IsFresh : IsFresh (new_task asked "10:00") []
unfolding find count_where
asked-IsFresh = record { no_task = refl; no_request = refl; no_owner = refl }

reserve_task-promise_example :
    let spec = promise "request-7" first_task "hash-7" (ledger_of no_tasks) in
    (promised (reserve_task asked "10:00" no_tasks).0 ≡ spec.0)
    × ((r : String) → ledger_of (reserve_task asked "10:00" no_tasks).1 r ≡ spec.1 r)
reserve_task-promise_example =
    reserve_task-promise asked "10:00" no_tasks first_task-valid (λ _. asked-IsFresh)

-- The task starts to run in between.
abbrev started : List TaskWrite
started = update first_task (set_state task_running ∷ []) 0 none true "10:01" ∷ []

reserve_task-replay_example :
    let after = write_tasks started (reserve_task asked "10:00" no_tasks).1 in
    (t : Task) × (t.task_id ≡ first_task)
    × (reserve_task asked_again "10:02" after ≡ (
      if asked.request_hash == asked_again.request_hash then ok (t, false) else raised value_error,
      after,
    ))
reserve_task-replay_example =
    reserve_task-replay asked asked_again "10:00" "10:02" started no_tasks first_task-valid
      second_task-valid refl asked-IsFresh

no_tasks-HasIndexes : HasIndexes []
unfolding is_backend_unique
no_tasks-HasIndexes = record { unique_ids = tt; unique_requests = tt; unique_backends = refl }

abbrev pub one_task : TaskTables
one_task = record no_tasks { tasks = new_task asked "10:00" ∷ [] }

pub one_task-found : find task_key first_task one_task.tasks ≡ some (new_task asked "10:00")
unfolding find string_eq
one_task-found = refl

write_tasks-IsLater_example :
    (t' : Task) × (find task_key first_task (write_tasks started one_task).tasks ≡ some t')
    × IsLater (new_task asked "10:00") t'
write_tasks-IsLater_example =
    write_tasks-IsLater started one_task first_task (new_task asked "10:00") one_task-found

one_task-Unique : Unique task_key one_task.tasks
unfolding find
one_task-Unique = (refl, tt)

abbrev to_running : List TaskField
to_running = set_state task_running ∷ []

abbrev if_accepted : Option (List TaskState)
if_accepted = some (task_accepted ∷ [])

to_running-is_update : is_update first_task to_running ≡ true
unfolding is_task_id all_updatable is_empty
to_running-is_update = refl

to_running-backends :
    let after = after_update first_task to_running 0 if_accepted true "10:01" one_task.tasks in
    is_backend_unique after after ≡ true
unfolding is_backend_unique update_where count_where string_eq fits_task task_state_eq updated_task
to_running-backends = refl

conditional_update_task_example :
    ((conditional_update_task first_task to_running 0 if_accepted true "10:01" one_task).0
      ≡ ok (
          Option.map
            (updated_task to_running true "10:01")
            (met_task first_task 0 if_accepted one_task)))
    × ((j : String)
        → find task_key j
            (conditional_update_task first_task to_running 0 if_accepted true "10:01"
              one_task).1.tasks
          ≡ Option.map
              (λ t.
                if keyed task_key first_task (fits_task 0 if_accepted) t
                then updated_task to_running true "10:01" t
                else t)
              (find task_key j one_task.tasks))
    × (met_task first_task 0 if_accepted one_task ≡ none
        → (conditional_update_task first_task to_running 0 if_accepted true "10:01" one_task).1
          ≡ one_task)
conditional_update_task_example =
    conditional_update_task_lem first_task to_running 0 if_accepted true "10:01" one_task
      one_task-Unique to_running-is_update to_running-backends

-- The update returns the row that runs.
to_running_test :
    (conditional_update_task first_task to_running 0 if_accepted true "10:01" one_task).0
    ≡ ok (some (updated_task to_running true "10:01" (new_task asked "10:00")))
unfolding conditional_update_task is_task_id all_updatable update_where count_where string_eq
    task_state_eq find
to_running_test = refl
