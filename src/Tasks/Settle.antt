-- ===== src/Tasks/Settle.antt =====
-- soma/tasks/manager.py: what a reconciliation returns and writes.
use codex_bridge.Prelude.{
  ℕ, String, true, false, none, some, List, ◌≡◌, refl, ap, ◌∙◌, string_eq, nat_eq, arith,
  Bool-cases, inl, inr, ok, Result, ◌>>◌, pure,
}
use codex_bridge.Prelude.Table.{find}
use codex_bridge.Prelude.Text.{Object}
use codex_bridge.Runs.Model.{Database}
use codex_bridge.Runs.Update.{is_empty}
use codex_bridge.Tasks.Tables.{Task, TaskTables, EventLevel, TaskCommand, task_key, is_task_id}
use codex_bridge.Tasks.Update.{updated_task, conditional_update_task}
use codex_bridge.Tasks.Records.{append_task_event}
use codex_bridge.Tasks.Reads.{get_task}
use codex_bridge.Tasks.Indexes.{HasIndexes, task_id-updated}
use codex_bridge.Tasks.Scopes.{Scope}
use codex_bridge.Tasks.Observe.{Observation, query}
use codex_bridge.Tasks.Derive.{material, Target, derive_target}
use codex_bridge.Tasks.Reconcile.{state_text, World, proven, settle, conclude, reconcile_task}
use codex_bridge.Tasks.Follow.{
  state_of, projected, reconciled, rows_after, tasks_after, update-done, find-rows_after,
}

-- A call that returns a value, leaves these tasks, and touches no command.
pub record Leaves {A : Type 0} (r : Result A × TaskTables) (a : A) (rows : List Task)
    (before : List TaskCommand) : Type 0 where
  pub returns : r.0 ≡ ok a
  pub tasks_left : r.1.tasks ≡ rows
  pub commands_left : r.1.commands ≡ before

append-Leaves :
    {A : Type 0} (a : A) (i : String) (l : EventLevel) (g m s : String) (v : ℕ) (p : Object)
    (now : String) (t : Task) (tables : TaskTables)
    → is_task_id i ≡ true
    → find task_key i tables.tasks ≡ some t
    → Leaves ((append_task_event i l g m s v p now >> pure a) tables) a tables.tasks tables.commands
unfolding append_task_event
append-Leaves a i l g m s v p now t tables valid found = record {
  returns = ground (arith, valid, found);
  tasks_left = ground (arith, valid, found);
  commands_left = ground (arith, valid, found);
}

module _ (w : World) (t : Task) (o : Observation) (now : String) (tables : TaskTables) where
  target_of_moved :
      is_empty (material t (projected w t o now)) ≡ false
      → (target : Target) × (derive_target w.lower w.show_names t o now ≡ some target)
        × (target.fields ≡ projected w t o now)
  unfolding derive_target
  target_of_moved moved = rw moved (_, refl, refl)

  pub target_of_same :
      is_empty (material t (projected w t o now)) ≡ true
      → derive_target w.lower w.show_names t o now ≡ none
  unfolding derive_target
  target_of_same same = rw same refl

  abbrev moved_task : Task
  moved_task = updated_task (projected w t o now) true now t

  find-moved :
      find task_key t.task_id tables.tasks ≡ some t
      → find task_key moved_task.task_id (rows_after w t o now tables) ≡ some moved_task
  find-moved found =
      ap (λ i. find task_key i (rows_after w t o now tables))
        (task_id-updated (projected w t o now) true now t)
      ∙ find-rows_after w t o now tables t.task_id found
      ∙ ground arith

  settle-some :
      (stage : String) (target : Target)
      → target.fields ≡ projected w t o now
      → HasIndexes tables.tasks
      → is_task_id t.task_id ≡ true
      → find task_key t.task_id tables.tasks ≡ some t
      → Leaves
          (settle t (some target) stage now tables)
          moved_task
          (rows_after w t o now tables)
          tables.commands
  unfolding settle conclude
  settle-some stage target e x valid found =
      rw
        (ap
            (λ fs.
              conditional_update_task t.task_id fs t.state_version (state_of t) true now tables)
            e
          ∙ update-done w t o now tables x valid found)
        (append-Leaves moved_task moved_task.task_id target.level stage target.message
          (state_text moved_task.state) moved_task.state_version target.payload now moved_task
          (record tables { tasks = rows_after w t o now tables })
          (ap is_task_id (task_id-updated (projected w t o now) true now t) ∙ valid)
          (find-moved found))

  pub settle-Leaves :
      (stage : String)
      → HasIndexes tables.tasks
      → is_task_id t.task_id ≡ true
      → find task_key t.task_id tables.tasks ≡ some t
      → Leaves
          (settle t (derive_target w.lower w.show_names t o now) stage now tables)
          (reconciled w t o now)
          (tasks_after w t o now tables)
          tables.commands
  unfolding settle
  settle-Leaves stage x valid found =
      elim (Bool-cases (is_empty (material t (projected w t o now)))) [
        | inl same ↦ rw same (
            rw (target_of_same same)
              (record { returns = refl; tasks_left = refl; commands_left = refl }))
        | inr moved ↦
            let (target, e, fields) = target_of_moved moved in
            rw moved (rw e (settle-some stage target fields x valid found))
      ]

module _ (w : World) (db : Database) (t : Task) (stage now : String) (tables : TaskTables)
    (scope : Scope) where
  abbrev pub seen : Observation
  seen = query t.backend_ref db

  pub reconcile_task-settle :
      is_task_id t.task_id ≡ true
      → find task_key t.task_id tables.tasks ≡ some t
      → proven w.scopes t ≡ ok scope
      → reconcile_task w db t.task_id stage now tables
        ≡ settle t (derive_target w.lower w.show_names t seen now) stage now tables
  unfolding reconcile_task get_task
  reconcile_task-settle valid found bound = ground (arith, valid, found, bound)

  pub reconcile_task-Leaves :
      HasIndexes tables.tasks
      → is_task_id t.task_id ≡ true
      → find task_key t.task_id tables.tasks ≡ some t
      → proven w.scopes t ≡ ok scope
      → Leaves
          (reconcile_task w db t.task_id stage now tables)
          (reconciled w t seen now)
          (tasks_after w t seen now tables)
          tables.commands
  reconcile_task-Leaves x valid found bound =
      rw (reconcile_task-settle valid found bound)
        (settle-Leaves w t seen now tables stage x valid found)
