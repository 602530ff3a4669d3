-- ===== src/Tasks/Reconciled.antt =====
-- soma/tasks/manager.py: what a reconciliation does to a task, and what it never does.
use codex_bridge.Prelude.{
  String, true, some, [], ◌∷◌, ◌≡◌, refl, sym, ap, ◌∙◌, ◌==◌, string_eq, nat_eq, if◌then◌else◌,
  arith, Bool-cases, Option-cases, inl, inr, ok, contains,
}
use codex_bridge.Prelude.Table.{find}
use codex_bridge.Runs.Model.{Status, status_eq, completed, partial, Run, Database, run_key}
use codex_bridge.Runs.Update.{is_empty}
use codex_bridge.Tasks.States.{task_state_eq, task_completed, map_backend_status}
use codex_bridge.Tasks.Mirror.{map_backend_status-ends}
use codex_bridge.Tasks.Tables.{Task, TaskTables, task_key, is_task_id, backend_kind_eq}
use codex_bridge.Tasks.Indexes.{HasIndexes}
use codex_bridge.Tasks.Scopes.{Scope}
use codex_bridge.Tasks.Observe.{Observation, query, observed}
use codex_bridge.Tasks.Derive.{material}
use codex_bridge.Tasks.Branches.{derive, follow_run, identity_matches}
use codex_bridge.Tasks.Reconcile.{World, proven, reconcile_task}
use codex_bridge.Tasks.Projection.{Follows}
use codex_bridge.Tasks.Follow.{
  projected, reconciled, reconciled-Follows, tasks_after, find-rows_after,
}
use codex_bridge.Tasks.Settle.{reconcile_task-Leaves}

pub find-tasks_after :
    (w : World) (t : Task) (o : Observation) (now : String) (tables : TaskTables) (j : String)
    → find task_key t.task_id tables.tasks ≡ some t
    → find task_key j (tasks_after w t o now tables)
      ≡ (if j == t.task_id then some (reconciled w t o now) else find task_key j tables.tasks)
find-tasks_after w t o now tables j found =
    elim (Bool-cases (is_empty (material t (projected w t o now)))) [
      | inl same ↦ rw same (ground (arith, found))
      | inr moved ↦ rw moved (find-rows_after w t o now tables j found)
    ]

-- A run that a task is completed by.
abbrev pub Completes : World → Task → Database → Type 0
Completes w t db =
    (r : Run) × (find run_key t.backend_ref db.runs ≡ some r)
    × (contains (completed ∷ partial ∷ []) r.status ≡ true)
    × (identity_matches w.lower t (observed r) ≡ true)

query-there :
    (i : String) (db : Database)
    → (query i db).is_there ≡ true
    → (r : Run) × (find run_key i db.runs ≡ some r) × (query i db ≡ observed r)
unfolding query
query-there i db h = elim (Option-cases (find run_key i db.runs)) [
  | inl gone ↦ ground (arith, h, gone)
  | inr (r, found) ↦ (r, found, ground (arith, h, found))
]

derive-completed :
    (lower : String → String) (t : Task) (o : Observation)
    → (derive lower t o).state ≡ task_completed
    → (o.is_there ≡ true)
      × (identity_matches lower t o ≡ true)
      × ((map_backend_status o.status).0 ≡ task_completed)
unfolding derive follow_run
derive-completed lower t o h = ground (arith, h)

status-completed :
    (s : Status)
    → (map_backend_status s).0 ≡ task_completed
    → contains (completed ∷ partial ∷ []) s ≡ true
unfolding task_state_eq
status-completed s h = sym (map_backend_status-ends s).1 ∙ rw h refl

module _ (w : World) (db : Database) (t : Task) (stage now : String) (tables : TaskTables)
    (scope : Scope) where
  -- Where identifiers, requests and backends of tasks are unique and the task's identifier and
  -- binding are good, a reconciliation returns, and the task that it returns has the state, the
  -- phase and the recovery that are derived from its run; it is the task that is found then, and
  -- every other task stays as it was.
  pub reconcile_task-Follows :
      (j : String)
      → HasIndexes tables.tasks
      → is_task_id t.task_id ≡ true
      → find task_key t.task_id tables.tasks ≡ some t
      → proven w.scopes t ≡ ok scope
      → (u : Task) × ((reconcile_task w db t.task_id stage now tables).0 ≡ ok u)
        × (find task_key j (reconcile_task w db t.task_id stage now tables).1.tasks
            ≡ (if j == t.task_id then some u else find task_key j tables.tasks))
        × Follows (derive w.lower t (query t.backend_ref db)) u
  reconcile_task-Follows j x valid found bound =
      let o = query t.backend_ref db in
      let done = reconcile_task-Leaves w db t stage now tables scope x valid found bound in
      (
        reconciled w t o now,
        done.returns,
        ap (find task_key j) done.tasks_left ∙ find-tasks_after w t o now tables j found,
        reconciled-Follows w t o now,
      )

  -- Where identifiers, requests and backends of tasks are unique and the task's identifier and
  -- binding are good, a reconciliation that returns a completed task has seen the row of its run,
  -- the run is completed or partly completed, and the executor and the repository that the task
  -- recorded, where it recorded them and the run has a repository, are those of the run, the
  -- repository up to case.
  pub reconcile_task-completed :
      (u : Task)
      → HasIndexes tables.tasks
      → is_task_id t.task_id ≡ true
      → find task_key t.task_id tables.tasks ≡ some t
      → proven w.scopes t ≡ ok scope
      → (reconcile_task w db t.task_id stage now tables).0 ≡ ok u
      → u.state ≡ task_completed
      → Completes w t db
  reconcile_task-completed u x valid found bound returned ends =
      let o = query t.backend_ref db in
      let done = reconcile_task-Leaves w db t stage now tables scope x valid found bound in
      let same : reconciled w t o now ≡ u = cc (done.returns, returned) in
      let state : (derive w.lower t o).state ≡ task_completed =
        sym (reconciled-Follows w t o now).same_state ∙ ap (λ v. v.state) same ∙ ends in
      let (there, matches, mapped) = derive-completed w.lower t o state in
      let (r, row, seen) = query-there t.backend_ref db there in
      (
        r,
        row,
        status-completed r.status (ap (λ x. (map_backend_status x.status).0) (sym seen) ∙ mapped),
        ap (identity_matches w.lower t) (sym seen) ∙ matches,
      )
