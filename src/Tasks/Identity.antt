-- ===== src/Tasks/Identity.antt =====
-- soma/tasks/store.py: a task stays the task that its request made, over every sequence of writes.
use codex_bridge.Prelude.{
  ℕ, ◌≤◌, String, Bool, ◌≡◌, refl, ◌∙◌, Option, none, some, List, [], ◌∷◌, arith, string_eq, nat_eq,
  Bool-cases, inl, inr,
}
use codex_bridge.Prelude.Table.{find, keyed, find-update_where}
use codex_bridge.Tasks.States.{TaskState}
use codex_bridge.Tasks.Tables.{TaskKind, BackendKind, Task, TaskTables, task_key, request_key}
use codex_bridge.Tasks.Update.{TaskField, set_other, set_field, set_fields, updated_task, fits_task}
use codex_bridge.Tasks.Create.{IsFresh}
use codex_bridge.Tasks.Changes.{
  Change, unchanged, added, updated, after_update, TaskWrite, write_task, write_tasks,
  write_task-Change,
}
use codex_bridge.Tasks.Indexes.{task_id-updated, request-updated}

-- What the request of a task settled.
abbrev pub settled : Task → String × String × String × String × TaskKind × BackendKind × String
settled t = (
  t.task_id, t.controller_request_id, t.request_hash, t.parent_task_id, t.task_kind, t.backend_kind,
  t.created_at,
)

-- The same task, later.
pub record IsLater (t t' : Task) : Type 0 where
  pub same_task : settled t' ≡ settled t
  pub version_grows : t.state_version ≤ t'.state_version

IsLater-refl : (t : Task) → IsLater t t
IsLater-refl t = record { same_task = refl; version_grows = omega arith }

IsLater-trans : {a b c : Task} → IsLater a b → IsLater b c → IsLater a c
IsLater-trans x y = record {
  same_task = y.same_task ∙ x.same_task;
  version_grows = omega (arith, x.version_grows, y.version_grows);
}

settled-set_field : (f : TaskField) (t : Task) → settled (set_field f t) ≡ settled t
unfolding set_field
settled-set_field (set_other v) t = refl
settled-set_field _ t = refl

settled-set_fields : (fs : List TaskField) (t : Task) → settled (set_fields fs t) ≡ settled t
unfolding set_fields
settled-set_fields [] t = refl
settled-set_fields (f ∷ fs) t = settled-set_fields fs (set_field f t) ∙ settled-set_field f t

updated-IsLater :
    (fs : List TaskField) (b : Bool) (now : String) (t : Task) → IsLater t (updated_task fs b now t)
unfolding updated_task
updated-IsLater fs b now t = record {
  same_task = settled-set_fields fs t;
  version_grows = ground arith;
}

-- Every task of one table is in the other, later, under a key that stays.
abbrev AllLater : (Task → String) → List Task → List Task → Type 0
AllLater key rows after =
    (k : String) (t : Task)
    → find key k rows ≡ some t
    → (t' : Task) × (find key k after ≡ some t') × IsLater t t'

module _ (key : Task → String)
    (kept : (fs : List TaskField) (b : Bool) (now : String) (t : Task)
      → key (updated_task fs b now t) ≡ key t)
    (fresh : (t : Task) (rows : List Task) → IsFresh t rows → find key (key t) rows ≡ none) where
  update-AllLater :
      (i : String) (fs : List TaskField) (v : ℕ) (s : Option (List TaskState)) (b : Bool)
      (now : String) (rows : List Task)
      → AllLater key rows (after_update i fs v s b now rows)
  update-AllLater i fs v s b now rows k t h =
      elim (Bool-cases (keyed task_key i (fits_task v s) t)) [
        | inl meets ↦ (
          updated_task fs b now t,
          ground (
            arith,
            find-update_where key (keyed task_key i (fits_task v s)) (updated_task fs b now)
                (kept fs b now) k rows,
          ),
          updated-IsLater fs b now t,
        )
        | inr misses ↦ (
          t,
          ground (
            arith,
            find-update_where key (keyed task_key i (fits_task v s)) (updated_task fs b now)
                (kept fs b now) k rows,
          ),
          IsLater-refl t,
        )
      ]

  find-added :
      (t u : Task) (rows : List Task) (k : String)
      → IsFresh t rows
      → find key k rows ≡ some u
      → find key k (t ∷ rows) ≡ some u
  unfolding find
  find-added t u rows k new h = ground (arith, fresh t rows new)

  Change-AllLater : {rows after : List Task} → Change rows after → AllLater key rows after
  Change-AllLater unchanged k t h = (t, h, IsLater-refl t)
  Change-AllLater {rows} (added u new) k t h = (t, find-added u t rows k new h, IsLater-refl t)
  Change-AllLater {rows} (updated i f v s b now known backends) k t h =
      update-AllLater i f v s b now rows k t h

  write_tasks_keyed-IsLater :
      (ws : List TaskWrite) (tables : TaskTables) (k : String) (t : Task)
      → find key k tables.tasks ≡ some t
      → (t' : Task) × (find key k (write_tasks ws tables).tasks ≡ some t') × IsLater t t'
  unfolding write_tasks
  write_tasks_keyed-IsLater [] tables k t h = (t, h, IsLater-refl t)
  write_tasks_keyed-IsLater (w ∷ ws) tables k t h =
      let (u, found, x) = Change-AllLater (write_task-Change w tables) k t h in
      let (t', found', y) = write_tasks_keyed-IsLater ws (write_task w tables) k u found in
      (t', found', IsLater-trans x y)

-- No call of the task store loses a task or changes what its request settled: after every sequence
-- of calls the task is there, with its request, its hash, its parent, its kinds and its creation
-- time, and its version has not fallen.
pub write_tasks-IsLater :
    (ws : List TaskWrite) (tables : TaskTables) (task_id : String) (t : Task)
    → find task_key task_id tables.tasks ≡ some t
    → (t' : Task) × (find task_key task_id (write_tasks ws tables).tasks ≡ some t') × IsLater t t'
write_tasks-IsLater =
    write_tasks_keyed-IsLater task_key task_id-updated (λ t rows fresh. fresh.no_task)

pub request-IsLater :
    (ws : List TaskWrite) (tables : TaskTables) (request : String) (t : Task)
    → find request_key request tables.tasks ≡ some t
    → (t' : Task) × (find request_key request (write_tasks ws tables).tasks ≡ some t')
      × IsLater t t'
request-IsLater =
    write_tasks_keyed-IsLater request_key request-updated (λ t rows fresh. fresh.no_request)
