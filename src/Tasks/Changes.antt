-- ===== src/Tasks/Changes.antt =====
-- soma/tasks/store.py: how a write changes the table of tasks, as a step relation, and the calls of
-- the store as its steps.
use codex_bridge.Prelude.{
  ℕ, String, Bool, ◌≡◌, refl, ap, ◌⊎◌, inl, inr, true, Option, List, [], ◌∷◌, arith, nat_eq,
  string_eq,
}
use codex_bridge.Prelude.Table.{update_where, keyed}
use codex_bridge.Prelude.Text.{Object}
use codex_bridge.Tasks.States.{TaskState}
use codex_bridge.Tasks.Tables.{
  LinkType, LinkTargetKind, EventLevel, CommandKind, CommandStatus, Task, TaskTables, task_key,
}
use codex_bridge.Tasks.Reserve.{Reserve, new_task, reserve_task, add_link}
use codex_bridge.Tasks.Update.{
  TaskField, updated_task, fits_task, is_backend_unique, update_task, conditional_update_task,
  all_updatable,
}
use codex_bridge.Tasks.Records.{
  append_task_event, record_command, complete_command, create_checkpoint,
}
use codex_bridge.Tasks.Create.{IsFresh, reserve_task-cases, tasks-insert_link}

abbrev pub after_update :
    String → List TaskField → ℕ → Option (List TaskState) → Bool → String → List Task → List Task
after_update i f v s b now rows =
    update_where (keyed task_key i (fits_task v s)) (updated_task f b now) rows

-- One write: nothing, a new row that no index forbids, or an update of a row under the indexes.
pub data Change (rows : List Task) : List Task → Type 0 where
  unchanged : Change rows rows
  added : (t : Task) → IsFresh t rows → Change rows (t ∷ rows)
  updated :
      (task_id : String) (fields : List TaskField) (version : ℕ) (states : Option (List TaskState))
      (bump : Bool) (now : String)
      → all_updatable fields ≡ true
      → is_backend_unique
          (after_update task_id fields version states bump now rows)
          (after_update task_id fields version states bump now rows)
        ≡ true
      → Change rows (after_update task_id fields version states bump now rows)

pub data Changes (rows : List Task) : List Task → Type 0 where
  start : Changes rows rows
  later : {mid last : List Task} → Changes rows mid → Change mid last → Changes rows last

-- The calls of the store that write.
pub data TaskWrite : Type 0 where
  reserve : Reserve → String → TaskWrite
  link : String → LinkType → LinkTargetKind → String → Object → String → TaskWrite
  update : String → List TaskField → ℕ → Option (List TaskState) → Bool → String → TaskWrite
  log_event : String → EventLevel → String → String → String → ℕ → Object → String → TaskWrite
  command :
      String → String → CommandKind → ℕ → ℕ → CommandStatus → String → String → String → TaskWrite
  complete : String → CommandStatus → String → String → TaskWrite
  checkpoint : String → String → String → ℕ → String → Object → String → String → String → TaskWrite

unfoldable pub write_task : TaskWrite → TaskTables → TaskTables
write_task (reserve q now) tables = (reserve_task q now tables).1
write_task (link i l k t o now) tables = (add_link i l k t o now tables).1
write_task (update i f v s b now) tables = (conditional_update_task i f v s b now tables).1
write_task (log_event i l g m s v o now) tables = (append_task_event i l g m s v o now tables).1
write_task (command c i k a b s q r now) tables = (record_command c i k a b s q r now tables).1
write_task (complete c s r now) tables = (complete_command c s r now tables).1
write_task (checkpoint c i k v p o x e now) tables =
    (create_checkpoint c i k v p o x e now tables).1

unfoldable pub write_tasks : List TaskWrite → TaskTables → TaskTables
unfolding write_task
write_tasks [] tables = tables
write_tasks (w ∷ rest) tables = write_tasks rest (write_task w tables)

Change-of :
    {rows after after' : List Task} → after' ≡ after → Change rows after → Change rows after'
Change-of same c = rw same c

module _ (tables : TaskTables) where
  reserve-Change :
      (q : Reserve) (now : String) → Change tables.tasks (reserve_task q now tables).1.tasks
  reserve-Change q now = elim (reserve_task-cases q now tables) [
    | inl same ↦ Change-of same unchanged
    | inr a ↦ Change-of a.1 (added (new_task q now) a.0)
  ]

  tasks-add_link :
      (i : String) (l : LinkType) (k : LinkTargetKind) (t : String) (o : Object) (now : String)
      → (add_link i l k t o now tables).1.tasks ≡ tables.tasks
  unfolding add_link
  tasks-add_link i l k t o now = ground (arith, tasks-insert_link i l k t o now tables)

  tasks-append_task_event :
      (i : String) (l : EventLevel) (g m s : String) (v : ℕ) (o : Object) (now : String)
      → (append_task_event i l g m s v o now tables).1.tasks ≡ tables.tasks
  unfolding append_task_event
  tasks-append_task_event i l g m s v o now = ground arith

  tasks-record_command :
      (c i : String) (k : CommandKind) (a b : ℕ) (s : CommandStatus) (q r now : String)
      → (record_command c i k a b s q r now tables).1.tasks ≡ tables.tasks
  unfolding record_command
  tasks-record_command c i k a b s q r now = ground arith

  tasks-create_checkpoint :
      (c i k : String) (v : ℕ) (p : String) (o : Object) (x e now : String)
      → (create_checkpoint c i k v p o x e now tables).1.tasks ≡ tables.tasks
  unfolding create_checkpoint
  tasks-create_checkpoint c i k v p o x e now = ground arith

  tasks-complete_command :
      (c : String) (s : CommandStatus) (r now : String)
      → (complete_command c s r now tables).1.tasks ≡ tables.tasks
  unfolding complete_command
  tasks-complete_command c s r now = refl

  -- The tasks after an update, whatever it returned.
  pub update-cases :
      (i : String) (f : List TaskField) (v : ℕ) (s : Option (List TaskState)) (b : Bool)
      (now : String)
      → let after = after_update i f v s b now tables.tasks in
        ((conditional_update_task i f v s b now tables).1 ≡ tables)
        ⊎ ((all_updatable f ≡ true)
            × (is_backend_unique after after ≡ true)
            × ((conditional_update_task i f v s b now tables).1.tasks ≡ after))
  unfolding conditional_update_task update_task
  update-cases i f v s b now = ground arith

  update-Change :
      (i : String) (f : List TaskField) (v : ℕ) (s : Option (List TaskState)) (b : Bool)
      (now : String)
      → Change tables.tasks (conditional_update_task i f v s b now tables).1.tasks
  update-Change i f v s b now = elim (update-cases i f v s b now) [
    | inl same ↦ Change-of (ap (λ t. t.tasks) same) unchanged
    | inr a ↦ Change-of a.2 (updated i f v s b now a.0 a.1)
  ]

-- Every call of the store is one step.
pub write_task-Change :
    (w : TaskWrite) (tables : TaskTables) → Change tables.tasks (write_task w tables).tasks
unfolding write_task
write_task-Change (reserve q now) tables = reserve-Change tables q now
write_task-Change (link i l k t o now) tables =
    Change-of (tasks-add_link tables i l k t o now) unchanged
write_task-Change (update i f v s b now) tables = update-Change tables i f v s b now
write_task-Change (log_event i l g m s v o now) tables =
    Change-of (tasks-append_task_event tables i l g m s v o now) unchanged
write_task-Change (command c i k a b s q r now) tables =
    Change-of (tasks-record_command tables c i k a b s q r now) unchanged
write_task-Change (complete c s r now) tables =
    Change-of (tasks-complete_command tables c s r now) unchanged
write_task-Change (checkpoint c i k v p o x e now) tables =
    Change-of (tasks-create_checkpoint tables c i k v p o x e now) unchanged
