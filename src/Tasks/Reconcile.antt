-- ===== src/Tasks/Reconcile.antt =====
-- soma/tasks/manager.py: the reconciliation of a task with its run, and that of all tasks at startup.
use codex_bridge.Prelude.{
  ℕ, suc, String, Bool, true, Option, none, some, List, [], ◌∷◌, ◌==◌, string_eq, nat_eq,
  if◌then◌else◌, ◌++◌, Error, Action, Result, ok, raised, pure, ◌>>=◌, ◌>>◌,
}
use codex_bridge.Prelude.Text.{text}
use codex_bridge.Runs.Model.{Database}
use codex_bridge.Runs.Update.{is_empty}
use codex_bridge.Tasks.States.{
  TaskState, task_accepted, task_queued, task_running, awaiting_controller, task_paused,
  task_cancellation_pending, task_recovery_pending, task_completed, task_failed, task_cancelled,
  uncertain,
}
use codex_bridge.Tasks.Tables.{error, Task, TaskTables}
use codex_bridge.Tasks.Update.{conditional_update_task}
use codex_bridge.Tasks.Records.{append_task_event}
use codex_bridge.Tasks.Reads.{get_task, list_active_tasks}
use codex_bridge.Tasks.Scopes.{ScopeTables, Scope, scope_for_task, require_task_attempt}
use codex_bridge.Tasks.Observe.{query}
use codex_bridge.Tasks.Derive.{Target, derive_target}

-- What the manager takes from outside: how texts are made lower case, how a list of names and an
-- error are printed, how secrets are taken out of a text, and the tables of the projects.
pub record World : Type 0 where
  pub lower : String → String
  pub show_names : List String → String
  pub show_error : Error → String
  pub redact : String → String
  pub scopes : ScopeTables

unfoldable pub state_text : TaskState → String
state_text task_accepted = "accepted"
state_text task_queued = "queued"
state_text task_running = "running"
state_text awaiting_controller = "awaiting_controller"
state_text task_paused = "paused"
state_text task_cancellation_pending = "cancellation_pending"
state_text task_recovery_pending = "recovery_pending"
state_text task_completed = "completed"
state_text task_failed = "failed"
state_text task_cancelled = "cancelled"
state_text uncertain = "uncertain"

-- The run of a task that has a project is its attempt there.
unfoldable pub proven_run : String → String → ScopeTables → Result Scope
proven_run task_id backend_ref scopes =
    let scope = scope_for_task task_id scopes in
    if scope.project_id == ""
    then ok scope
    else require_task_attempt scope.project_id task_id backend_ref scopes

abbrev pub proven : ScopeTables → Task → Result Scope
proven scopes t = proven_run t.task_id t.backend_ref scopes

-- After the update: another writer won, and the task is read again, or the event is written.
unfoldable pub conclude : Task → Target → String → String → Option Task → Action TaskTables Task
unfolding get_task append_task_event state_text
conclude t target stage now none tables = (get_task t.task_id tables, tables)
conclude t target stage now (some u) tables =
    (append_task_event u.task_id target.level stage target.message (state_text u.state)
          u.state_version target.payload now
        >> pure u)
      tables

-- The write, with the task that was read and the target that was derived from it.
unfoldable pub settle : Task → Option Target → String → String → Action TaskTables Task
unfolding conditional_update_task conclude
settle t none stage now = pure t
settle t (some target) stage now = do
  updated ←
      conditional_update_task t.task_id target.fields t.state_version (some (t.state ∷ [])) true now
  conclude t target stage now updated

-- `reconcile_task`
unfoldable pub reconcile_task : World → Database → String → String → String → Action TaskTables Task
unfolding get_task proven_run settle derive_target query
reconcile_task w db task_id stage now tables = elim (get_task task_id tables) [
  | raised e ↦ (raised e, tables)
  | ok t ↦ elim (proven w.scopes t) [
    | raised e ↦ (raised e, tables)
    | ok _ ↦
        settle t (derive_target w.lower w.show_names t (query t.backend_ref db) now) stage now
          tables
  ]
]

-- The result of `reconcile_startup`.
pub record StartupReport : Type 0 where
  pub examined : ℕ
  pub changed : ℕ
  pub failures : List (String × Error)

-- `not failures`
abbrev pub report_ok : StartupReport → Bool
report_ok r = is_empty r.failures

abbrev startup : String
startup = "startup_recovery"

-- The body of the loop for one task, with what its reconciliation returned.
unfoldable pub count_task :
    World → Task → String → Result Task → StartupReport → TaskTables → StartupReport × TaskTables
unfolding append_task_event state_text nat_eq
count_task w t now (ok updated) r tables = (
  record r {
    examined = suc r.examined;
    changed = if updated.state_version == t.state_version then r.changed else suc r.changed;
  },
  tables,
)
count_task w t now (raised e) r tables = (
  record r { examined = suc r.examined; failures = r.failures ++ ((t.task_id, e) ∷ []) },
  (append_task_event t.task_id error startup "Startup reconciliation failed for this task"
      (state_text t.state) t.state_version (("error", text (w.show_error e)) ∷ []) now tables).1,
)

-- The loop.
unfoldable pub reconcile_each :
    World → Database → String → List Task → StartupReport → TaskTables → StartupReport × TaskTables
unfolding reconcile_task count_task
reconcile_each w db now [] r tables = (r, tables)
reconcile_each w db now (t ∷ ts) r tables =
    let (result, after) = reconcile_task w db t.task_id startup now tables in
    let (counted, logged) = count_task w t now result r after in
    reconcile_each w db now ts counted logged

-- `reconcile_startup`
unfoldable pub reconcile_startup :
    World → Database → ℕ → String → TaskTables → StartupReport × TaskTables
unfolding reconcile_each list_active_tasks
reconcile_startup w db limit now tables =
    reconcile_each w db now (list_active_tasks limit tables)
      (record { examined = 0; changed = 0; failures = [] }) tables
