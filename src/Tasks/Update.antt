-- ===== src/Tasks/Update.antt =====
-- soma/tasks/store.py: the conditional update of a task.
use codex_bridge.Prelude.{
  ℕ, ◌+◌, String, Bool, true, false, not, ◌&&◌, Option, none, some, List, [], ◌∷◌, ◌==◌, contains,
  leb, string_eq, nat_eq, if◌then◌else◌, Action, ok, raised, value_error, integrity_error,
  operational_error,
}
use codex_bridge.Prelude.Table.{find, update_where, count_where, keyed}
use codex_bridge.Prelude.Text.{Object}
use codex_bridge.Runs.Update.{is_empty}
use codex_bridge.Tasks.States.{TaskState, task_state_eq, TaskPhase}
use codex_bridge.Tasks.Tables.{RecoveryState, Task, TaskTables, task_key, is_task_id}
use codex_bridge.Tasks.Reserve.{owns_backend}

-- One `column = value` of `conditional_update`; the columns of `_UPDATABLE_TASK_FIELDS`, or another.
pub data TaskField : Type 0 where
  set_state : TaskState → TaskField
  set_phase : TaskPhase → TaskField
  set_backend_ref : String → TaskField
  set_backend_executor : String → TaskField
  set_backend_identity : Object → TaskField
  set_objective_ref : String → TaskField
  set_constraints_ref : String → TaskField
  set_workspace_kind : String → TaskField
  set_workspace_ref : String → TaskField
  set_checkpoint_ref : String → TaskField
  set_result_ref : String → TaskField
  set_result_hash : String → TaskField
  set_evidence_ref : String → TaskField
  set_recovery_state : RecoveryState → TaskField
  set_task_recovery_reason : String → TaskField
  set_reconciled_at : Option String → TaskField
  set_task_started_at : Option String → TaskField
  set_task_ended_at : Option String → TaskField
  set_other : String → TaskField

unfoldable pub is_updatable : TaskField → Bool
is_updatable (set_other _) = false
is_updatable _ = true

unfoldable pub all_updatable : List TaskField → Bool
unfolding is_updatable
all_updatable [] = true
all_updatable (f ∷ rest) = is_updatable f && all_updatable rest

unfoldable pub set_field : TaskField → Task → Task
set_field (set_state v) t = record t { state = v }
set_field (set_phase v) t = record t { phase = v }
set_field (set_backend_ref v) t = record t { backend_ref = v }
set_field (set_backend_executor v) t = record t { backend_executor = v }
set_field (set_backend_identity v) t = record t { backend_identity = v }
set_field (set_objective_ref v) t = record t { objective_ref = v }
set_field (set_constraints_ref v) t = record t { constraints_ref = v }
set_field (set_workspace_kind v) t = record t { workspace_kind = v }
set_field (set_workspace_ref v) t = record t { workspace_ref = v }
set_field (set_checkpoint_ref v) t = record t { checkpoint_ref = v }
set_field (set_result_ref v) t = record t { result_ref = v }
set_field (set_result_hash v) t = record t { result_hash = v }
set_field (set_evidence_ref v) t = record t { evidence_ref = v }
set_field (set_recovery_state v) t = record t { recovery_state = v }
set_field (set_task_recovery_reason v) t = record t { recovery_reason = v }
set_field (set_reconciled_at v) t = record t { reconciled_at = v }
set_field (set_task_started_at v) t = record t { started_at = v }
set_field (set_task_ended_at v) t = record t { ended_at = v }
set_field (set_other _) t = t

unfoldable pub set_fields : List TaskField → Task → Task
unfolding set_field
set_fields [] t = t
set_fields (f ∷ rest) t = set_fields rest (set_field f t)

-- The row after an update.
unfoldable pub updated_task : List TaskField → Bool → String → Task → Task
unfolding set_fields
updated_task fields bump now t = record (set_fields fields t) {
  updated_at = now;
  state_version = if bump then t.state_version + 1 else t.state_version;
}

in_states : Option (List TaskState) → TaskState → Bool
in_states none s = true
in_states (some []) s = true
in_states (some (x ∷ rest)) s = contains (x ∷ rest) s

-- The `WHERE` clause after `task_id = ?`; no states, or none given, are no condition.
unfoldable pub fits_task : ℕ → Option (List TaskState) → Task → Bool
unfolding in_states
fits_task version states t = t.state_version == version && in_states states t.state

-- The unique index on backend references.
unfoldable pub is_backend_unique : List Task → List Task → Bool
unfolding owns_backend nat_eq
is_backend_unique [] rows = true
is_backend_unique (t ∷ ts) rows =
    leb (count_where (owns_backend t.backend_kind t.backend_ref) rows) 1
    && is_backend_unique ts rows

-- The statement, in its transaction; with no fields its text is no SQL.
unfoldable pub update_task :
    String
    → List TaskField
    → ℕ
    → Option (List TaskState)
    → Bool
    → String
    → Action TaskTables (Option Task)
unfolding updated_task fits_task is_empty is_backend_unique
update_task task_id fields version states bump now tables =
    let p = keyed task_key task_id (fits_task version states) in
    let after = record tables {
      tasks = update_where p (updated_task fields bump now) tables.tasks;
    } in
    if is_empty fields
    then (raised operational_error, tables)
    else if not (is_backend_unique after.tasks after.tasks)
    then (raised integrity_error, tables)
    else if not (count_where p tables.tasks == 1)
    then (ok none, after)
    else elim (find task_key task_id after.tasks) [
      | none ↦ (raised value_error, tables)
      | some t ↦ (ok (some t), after)
    ]

-- `conditional_update`
unfoldable pub conditional_update_task :
    String
    → List TaskField
    → ℕ
    → Option (List TaskState)
    → Bool
    → String
    → Action TaskTables (Option Task)
unfolding update_task
conditional_update_task task_id fields version states bump now tables =
    if not (is_task_id task_id)
    then (raised value_error, tables)
    else if not (all_updatable fields)
    then (raised value_error, tables)
    else update_task task_id fields version states bump now tables
