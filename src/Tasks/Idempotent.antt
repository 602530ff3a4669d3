-- ===== src/Tasks/Idempotent.antt =====
-- soma/tasks/manager.py: a reconciliation that is repeated while the run stays as it is.
use codex_bridge.Prelude.{
  String, true, false, none, some, ◌≡◌, refl, sym, ap, ◌∙◌, string_eq, nat_eq, arith, Bool-cases,
  inl, inr, ok, Result,
}
use codex_bridge.Prelude.Table.{find}
use codex_bridge.Runs.Model.{Database}
use codex_bridge.Runs.Update.{is_empty}
use codex_bridge.Tasks.States.{task_recovery_pending, uncertain, task_state_eq}
use codex_bridge.Tasks.Tables.{backend_kind_eq, Task, TaskTables, task_key, is_task_id}
use codex_bridge.Tasks.Changes.{updated}
use codex_bridge.Tasks.Indexes.{HasIndexes, Change-HasIndexes, task_id-updated}
use codex_bridge.Tasks.Scopes.{ScopeTables, Scope}
use codex_bridge.Tasks.Observe.{Observation, query}
use codex_bridge.Tasks.Derive.{derive_target, material}
use codex_bridge.Tasks.Branches.{derive}
use codex_bridge.Tasks.Reconcile.{World, proven, proven_run, settle, reconcile_task}
use codex_bridge.Tasks.Projection.{keeps_binding-target, updatable_of_keeps}
use codex_bridge.Tasks.Follow.{
  state_of, projected, reconciled, reconciled-Follows, tasks_after, backends_after,
}
use codex_bridge.Tasks.Settle.{target_of_same, reconcile_task-settle, reconcile_task-Leaves}
use codex_bridge.Tasks.Reconciled.{find-tasks_after}
use codex_bridge.Tasks.Repeated.{is_lost, binding-again, quiet-again}

pub HasIndexes-tasks_after :
    (w : World) (t : Task) (o : Observation) (now : String) (tables : TaskTables)
    → HasIndexes tables.tasks
    → HasIndexes (tasks_after w t o now tables)
HasIndexes-tasks_after w t o now tables x =
    elim (Bool-cases (is_empty (material t (projected w t o now)))) [
      | inl same ↦ rw same x
      | inr moved ↦ rw moved (
          Change-HasIndexes
            (updated t.task_id (projected w t o now) t.state_version (state_of t) true now
              (updatable_of_keeps (projected w t o now) (keeps_binding-target w.lower t o now))
              (backends_after w t o now tables x))
            x)
    ]

pub task_id-reconciled :
    (w : World) (t : Task) (o : Observation) (now : String)
    → (reconciled w t o now).task_id ≡ t.task_id
task_id-reconciled w t o now = elim (Bool-cases (is_empty (material t (projected w t o now)))) [
  | inl same ↦ rw same refl
  | inr moved ↦ rw moved (task_id-updated (projected w t o now) true now t)
]

-- The scope of a task is that of its identifier and its run.
pub proven-same :
    (scopes : ScopeTables) (t u : Task)
    → u.task_id ≡ t.task_id
    → u.backend_ref ≡ t.backend_ref
    → proven scopes u ≡ proven scopes t
proven-same scopes t u same ref =
    ap (λ i. proven_run i u.backend_ref scopes) same ∙ ap (λ r. proven_run t.task_id r scopes) ref

module _ (w : World) (db : Database) (t : Task) (stage now stage' now' : String)
    (tables : TaskTables) (scope : Scope) where
  abbrev first : Result Task × TaskTables
  first = reconcile_task w db t.task_id stage now tables

  abbrev left : Task
  left = reconciled w t (query t.backend_ref db) now

  left-ref : left.backend_ref ≡ t.backend_ref
  left-ref = ap (λ b. b.1) (binding-again w t (query t.backend_ref db) now)

  left_row :
      HasIndexes tables.tasks
      → is_task_id t.task_id ≡ true
      → find task_key t.task_id tables.tasks ≡ some t
      → proven w.scopes t ≡ ok scope
      → find task_key left.task_id first.1.tasks ≡ some left
  left_row x valid found bound =
      let o = query t.backend_ref db in
      let id = task_id-reconciled w t o now in
      ap (find task_key left.task_id)
        (reconcile_task-Leaves w db t stage now tables scope x valid found bound).tasks_left
      ∙ find-tasks_after w t o now tables left.task_id found
      ∙ ground (arith, id)

  -- Where identifiers, requests and backends of tasks are unique and the task's identifier and
  -- binding are good, a second reconciliation over the same runs, at any later time and stage,
  -- returns the same and writes nothing, unless the task was still to be launched and its run is
  -- not there.
  pub reconcile_task-idempotent :
      HasIndexes tables.tasks
      → is_task_id t.task_id ≡ true
      → find task_key t.task_id tables.tasks ≡ some t
      → proven w.scopes t ≡ ok scope
      → is_lost t (query t.backend_ref db) ≡ false
      → reconcile_task w db t.task_id stage' now' first.1 ≡ first
  unfolding settle
  reconcile_task-idempotent x valid found bound here =
      let o = query t.backend_ref db in
      let id = task_id-reconciled w t o now in
      let done = reconcile_task-Leaves w db t stage now tables scope x valid found bound in
      let row = left_row x valid found bound in
      let quiet : derive_target w.lower w.show_names left (query left.backend_ref db) now' ≡ none =
        ap (λ r. derive_target w.lower w.show_names left (query r db) now') left-ref
        ∙ target_of_same w left o now' first.1 (quiet-again w t o now now' here) in
      ap (λ i. reconcile_task w db i stage' now' first.1) (sym id)
      ∙ reconcile_task-settle w db left stage' now' first.1 scope (ap is_task_id id ∙ valid) row
          (proven-same w.scopes t left id left-ref ∙ bound)
      ∙ ap (λ target. settle left target stage' now' first.1) quiet
      ∙ ap (λ r. (r, first.1)) (sym done.returns)

  lost-waits :
      is_lost t (query t.backend_ref db) ≡ true
      → ((derive w.lower t (query t.backend_ref db)).state ≡ task_recovery_pending)
        × ((derive w.lower t (query t.backend_ref db)).reason ≡ "backend_launch_incomplete")
  unfolding derive is_lost
  lost-waits h = ground (arith, h)

  waits-missing :
      (u : Task)
      → u.backend_kind ≡ t.backend_kind
      → u.backend_ref ≡ t.backend_ref
      → u.state ≡ task_recovery_pending
      → is_lost t (query t.backend_ref db) ≡ true
      → ((derive w.lower u (query t.backend_ref db)).state ≡ uncertain)
        × ((derive w.lower u (query t.backend_ref db)).reason ≡ "backend_run_record_missing")
  unfolding derive is_lost
  waits-missing u kind ref waits h = ground (arith, h, kind, ref, waits)

  -- Where identifiers, requests and backends of tasks are unique and the task's identifier and
  -- binding are good, a task that was still to be launched and whose run is not there waits for
  -- recovery after a reconciliation, with the reason that its launch is incomplete, and a second
  -- one over the same runs makes it uncertain, with the reason that the record of its run is
  -- missing.
  pub reconcile_task-drifts :
      HasIndexes tables.tasks
      → is_task_id t.task_id ≡ true
      → find task_key t.task_id tables.tasks ≡ some t
      → proven w.scopes t ≡ ok scope
      → is_lost t (query t.backend_ref db) ≡ true
      → (u v : Task) × (first.0 ≡ ok u)
        × (u.recovery_reason ≡ "backend_launch_incomplete")
        × ((reconcile_task w db t.task_id stage' now' first.1).0 ≡ ok v)
        × (v.state ≡ uncertain)
        × (v.recovery_reason ≡ "backend_run_record_missing")
  reconcile_task-drifts x valid found bound lost =
      let o = query t.backend_ref db in
      let id = task_id-reconciled w t o now in
      let done = reconcile_task-Leaves w db t stage now tables scope x valid found bound in
      let f = reconciled-Follows w t o now in
      let again =
        reconcile_task-Leaves w db left stage' now' first.1 scope
          (rw done.tasks_left (HasIndexes-tasks_after w t o now tables x))
          (ap is_task_id id ∙ valid) (left_row x valid found bound)
          (proven-same w.scopes t left id left-ref ∙ bound) in
      let missing =
        waits-missing left (ap (λ b. b.0) (binding-again w t o now)) left-ref
          (f.same_state ∙ (lost-waits lost).0) lost in
      let g = reconciled-Follows w left (query left.backend_ref db) now' in
      let seen = ap (λ r. derive w.lower left (query r db)) left-ref in
      (
        left,
        reconciled w left (query left.backend_ref db) now',
        done.returns,
        f.same_reason ∙ (lost-waits lost).1,
        ap (λ i. (reconcile_task w db i stage' now' first.1).0) (sym id) ∙ again.returns,
        g.same_state ∙ ap (λ d. d.state) seen ∙ missing.0,
        g.same_reason ∙ ap (λ d. d.reason) seen ∙ missing.1,
      )
