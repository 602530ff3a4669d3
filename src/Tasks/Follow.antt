-- ===== src/Tasks/Follow.antt =====
-- soma/tasks/manager.py: a reconciliation brings a task to where its run puts it.
use mathlib.Core.Option
use codex_bridge.Prelude.{
  String, true, Option, none, some, List, [], ◌∷◌, ◌≡◌, refl, ◌∙◌, ◌==◌, string_eq, nat_eq,
  if◌then◌else◌, arith, Bool-cases, inl, inr, ok,
}
use codex_bridge.Prelude.Table.{find, keyed, find-update, key-find}
use codex_bridge.Runs.Update.{is_empty}
use codex_bridge.Tasks.States.{TaskState, task_state_eq}
use codex_bridge.Tasks.Tables.{Task, TaskTables, task_key, is_task_id}
use codex_bridge.Tasks.Update.{
  TaskField, updated_task, fits_task, is_backend_unique, conditional_update_task,
}
use codex_bridge.Tasks.Changes.{after_update}
use codex_bridge.Tasks.Indexes.{HasIndexes, task_id-updated}
use codex_bridge.Tasks.Cas.{is_update, met_task, update_task-some}
use codex_bridge.Tasks.Observe.{Observation}
use codex_bridge.Tasks.Derive.{target_fields, material}
use codex_bridge.Tasks.Branches.{derive}
use codex_bridge.Tasks.Reconcile.{World}
use codex_bridge.Tasks.Projection.{
  Follows, updated-Follows, unchanged-Follows, keeps_binding-target, updatable_of_keeps, binding,
  binding-set_fields, backend_unique-kept, target_fields-nonempty,
}

-- The states that an update of the manager expects.
abbrev pub state_of : Task → Option (List TaskState)
state_of t = some (t.state ∷ [])

fits-itself : (t : Task) → fits_task t.state_version (state_of t) t ≡ true
unfolding fits_task task_state_eq nat_eq
fits-itself t = ground arith

module _ (w : World) (t : Task) (o : Observation) (now : String) where
  abbrev pub projected : List TaskField
  projected = target_fields (derive w.lower t o) now

  -- The task after a reconciliation that no other writer disturbs.
  abbrev pub reconciled : Task
  reconciled = if is_empty (material t projected) then t else updated_task projected true now t

  pub reconciled-Follows : Follows (derive w.lower t o) reconciled
  reconciled-Follows = elim (Bool-cases (is_empty (material t projected))) [
    | inl same ↦ rw same (unchanged-Follows (derive w.lower t o) now t same)
    | inr moved ↦ rw moved (updated-Follows (derive w.lower t o) now t)
  ]

  pub binding-updated : (u : Task) → binding (updated_task projected true now u) ≡ binding u
  unfolding updated_task
  binding-updated u = binding-set_fields projected u (keeps_binding-target w.lower t o now)

  pub is_update-projected : is_task_id t.task_id ≡ true → is_update t.task_id projected ≡ true
  is_update-projected valid = ground (
    arith,
    valid,
    updatable_of_keeps projected (keeps_binding-target w.lower t o now),
    target_fields-nonempty (derive w.lower t o) now,
  )

  module _ (tables : TaskTables) where
    abbrev pub rows_after : List Task
    rows_after = after_update t.task_id projected t.state_version (state_of t) true now tables.tasks

    pub backends_after : HasIndexes tables.tasks → is_backend_unique rows_after rows_after ≡ true
    backends_after x =
        backend_unique-kept (keyed task_key t.task_id (fits_task t.state_version (state_of t)))
          (updated_task projected true now) binding-updated tables.tasks tables.tasks
        ∙ x.unique_backends

    met-itself :
        find task_key t.task_id tables.tasks ≡ some t
        → met_task t.task_id t.state_version (state_of t) tables ≡ some t
    met-itself found = ground (arith, found, fits-itself t)

    rows-case :
        (j : String) (v : Option Task)
        → find task_key j tables.tasks ≡ v
        → find task_key t.task_id tables.tasks ≡ some t
        → Option.map
            (λ r.
              if keyed task_key t.task_id (fits_task t.state_version (state_of t)) r
              then updated_task projected true now r
              else r)
            v
          ≡ (if j == t.task_id then some (updated_task projected true now t) else v)
    rows-case j none h found = ground (arith, h, found)
    rows-case j (some r) h found =
        ground (arith, h, found, key-find task_key j tables.tasks r h, fits-itself t)

    pub find-rows_after :
        (j : String)
        → find task_key t.task_id tables.tasks ≡ some t
        → find task_key j rows_after ≡ (
            if j == t.task_id
            then some (updated_task projected true now t)
            else find task_key j tables.tasks)
    find-rows_after j found =
        find-update task_key t.task_id (fits_task t.state_version (state_of t))
          (updated_task projected true now) (task_id-updated projected true now) j tables.tasks
        ∙ rows-case j (find task_key j tables.tasks) refl found

    pub update-done :
        HasIndexes tables.tasks
        → is_task_id t.task_id ≡ true
        → find task_key t.task_id tables.tasks ≡ some t
        → conditional_update_task t.task_id projected t.state_version (state_of t) true now tables
          ≡ (ok (some (updated_task projected true now t)), record tables { tasks = rows_after })
    update-done x valid found =
        update_task-some t.task_id projected t.state_version (state_of t) true now tables t
          x.unique_ids (is_update-projected valid) (backends_after x) (met-itself found)

    abbrev pub tasks_after : List Task
    tasks_after = if is_empty (material t projected) then tables.tasks else rows_after
