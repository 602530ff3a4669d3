-- ===== src/Tasks/Lookup.antt =====
-- soma/tasks/manager.py: what the lookup of a task and of its scope tells.
use codex_bridge.Prelude.{
  Error, ◌⊎◌, String, true, some, ◌≡◌, refl, ap, ◌∙◌, string_eq, nat_eq, arith, inl, inr, ok,
  raised, Result,
}
use codex_bridge.Prelude.Table.{find}
use codex_bridge.Tasks.Tables.{Task, TaskTables, task_key, is_task_id}
use codex_bridge.Tasks.Reads.{get_task}
use codex_bridge.Tasks.Scopes.{ScopeTables, Scope, scope_for_task, require_task}
use codex_bridge.Tasks.Reconcile.{proven, proven_run}
use codex_bridge.Tasks.Cancel.{load_task_scope, scope_of}

-- What a lookup that succeeds tells of the task.
pub load-found :
    (scopes : ScopeTables) (i p : String) (tables : TaskTables) (t : Task)
    → load_task_scope scopes i p tables ≡ ok t
    → (is_task_id i ≡ true) × (find task_key i tables.tasks ≡ some t)
unfolding load_task_scope get_task
load-found scopes i p tables t h = ground (arith, h)

pub Result-cases :
    {A : Type 0} (r : Result A) → ((e : Error) × (r ≡ raised e)) ⊎ ((a : A) × (r ≡ ok a))
Result-cases (ok a) = inr (a, refl)
Result-cases (raised e) = inl (e, refl)

load-get :
    (scopes : ScopeTables) (i p : String) (tables : TaskTables) (t : Task)
    → load_task_scope scopes i p tables ≡ ok t
    → get_task i tables ≡ ok t
unfolding load_task_scope
load-get scopes i p tables t h = ground (arith, h)

-- Either way the scope is that of the task.
scope_of-same :
    (scopes : ScopeTables) (p : String) (t : Task) (s : Scope)
    → scope_of scopes p t ≡ ok s
    → s ≡ scope_for_task t.task_id scopes
unfolding scope_of require_task
scope_of-same scopes p t s h = ground (arith, h)

scope_of-ok :
    (scopes : ScopeTables) (i p : String) (tables : TaskTables) (t : Task)
    → load_task_scope scopes i p tables ≡ ok t
    → scope_of scopes p t ≡ ok (scope_for_task t.task_id scopes)
unfolding load_task_scope
scope_of-ok scopes i p tables t h = elim (Result-cases (scope_of scopes p t)) [
  | inl (e, bad) ↦ ground (arith, h, bad, load-get scopes i p tables t h)
  | inr (s, good) ↦ good ∙ ap ok (scope_of-same scopes p t s good)
]

pub load-proven :
    (scopes : ScopeTables) (i p : String) (tables : TaskTables) (t : Task)
    → load_task_scope scopes i p tables ≡ ok t
    → (scope : Scope) × (proven scopes t ≡ ok scope)
unfolding load_task_scope proven_run
load-proven scopes i p tables t h = elim (Result-cases (proven scopes t)) [
  | inl (e, bad) ↦
      ground (arith, h, bad, load-get scopes i p tables t h, scope_of-ok scopes i p tables t h)
  | inr found ↦ found
]
