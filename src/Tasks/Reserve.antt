-- ===== src/Tasks/Reserve.antt =====
-- soma/tasks/store.py: the reservation of tasks, and their links. The fresh identifiers and the time
-- are arguments.
use codex_bridge.Prelude.{
  suc, String, Bool, true, false, not, ◌&&◌, none, some, [], ◌∷◌, ◌++◌, ◌==◌, string_eq, nat_eq,
  if◌then◌else◌, Action, pure, atomic, ◌>>=◌, ◌>>◌, ok, raised, value_error, integrity_error,
}
use codex_bridge.Prelude.Table.{find, insert, count_where}
use codex_bridge.Prelude.Text.{Object, text}
use codex_bridge.Tasks.States.{TaskState, task_state_eq, TaskPhase}
use codex_bridge.Tasks.Tables.{
  TaskKind, BackendKind, backend_kind_eq, soma_durable_run, LinkType, link_type_eq, parent_link,
  backend_run_link, LinkTargetKind, link_target_kind_eq, task_target, durable_run_target,
  recovery_none, Task, TaskLink, TaskTables, task_key, request_key, is_task_id,
}

-- The arguments of `reserve_task`.
pub record Reserve : Type 0 where
  pub task_id : String
  pub task_kind : TaskKind
  pub controller_request_id : String
  pub request_hash : String
  pub backend_kind : BackendKind
  pub backend_executor : String
  pub backend_ref : String
  pub backend_identity : Object
  pub objective_ref : String
  pub constraints_ref : String
  pub workspace_kind : String
  pub workspace_ref : String
  pub parent_task_id : String
  pub state : TaskState
  pub phase : TaskPhase

abbrev pub new_task : Reserve → String → Task
new_task q now = record {
  task_id = q.task_id;
  parent_task_id = q.parent_task_id;
  task_kind = q.task_kind;
  controller_request_id = q.controller_request_id;
  request_hash = q.request_hash;
  objective_ref = q.objective_ref;
  constraints_ref = q.constraints_ref;
  backend_kind = q.backend_kind;
  backend_executor = q.backend_executor;
  backend_ref = q.backend_ref;
  backend_identity = q.backend_identity;
  workspace_kind = q.workspace_kind;
  workspace_ref = q.workspace_ref;
  state = q.state;
  phase = q.phase;
  state_version = 0;
  checkpoint_ref = "";
  result_ref = "";
  result_hash = "";
  evidence_ref = "";
  recovery_state = recovery_none;
  recovery_reason = "";
  reconciled_at = none;
  created_at = now;
  updated_at = now;
  started_at = none;
  ended_at = none;
}

-- The row owns this backend reference.
unfoldable pub owns_backend : BackendKind → String → Task → Bool
unfolding backend_kind_eq
owns_backend kind reference t =
    not (reference == "") && t.backend_kind == kind && t.backend_ref == reference

-- `INSERT INTO tasks`, under the primary key and both unique indexes.
unfoldable pub insert_task : Task → Action TaskTables (Unit {0})
insert_task t tables = elim (insert task_key t tables.tasks) [
  | none ↦ (raised integrity_error, tables)
  | some rows ↦ elim (find request_key t.controller_request_id tables.tasks) [
    | some _ ↦ (raised integrity_error, tables)
    | none ↦
        if count_where (owns_backend t.backend_kind t.backend_ref) tables.tasks == 0
        then (ok tt, record tables { tasks = rows })
        else (raised integrity_error, tables)
  ]
]

-- The unique index on links.
same_link : String → LinkType → LinkTargetKind → String → TaskLink → Bool
unfolding link_type_eq link_target_kind_eq
same_link task_id link_type target_kind target_id l =
    l.task_id == task_id
    && l.link_type == link_type
    && l.target_kind == target_kind
    && l.target_id == target_id

-- `_insert_link`: `INSERT OR IGNORE`, which still raises where the foreign key finds no task.
unfoldable pub insert_link :
    String → LinkType → LinkTargetKind → String → Object → String → Action TaskTables (Unit {0})
unfolding same_link
insert_link task_id link_type target_kind target_id metadata now tables =
    let link : TaskLink = record {
      id = tables.next_link_id;
      task_id = task_id;
      link_type = link_type;
      target_kind = target_kind;
      target_id = target_id;
      created_at = now;
      metadata = metadata;
    } in
    if not (count_where (same_link task_id link_type target_kind target_id) tables.links == 0)
    then (ok tt, tables)
    else elim (find task_key task_id tables.tasks) [
      | none ↦ (raised integrity_error, tables)
      | some _ ↦ (
        ok tt,
        record tables {
          links = tables.links ++ (link ∷ []);
          next_link_id = suc tables.next_link_id;
        },
      )
    ]

kind_text : BackendKind → String
kind_text soma_durable_run = "soma_durable_run"

-- The link to the backend run, for a task that has one.
unfoldable pub link_backend : Reserve → String → Action TaskTables (Unit {0})
unfolding insert_link kind_text
link_backend q now =
    if q.backend_ref == ""
    then pure tt
    else insert_link q.task_id backend_run_link durable_run_target q.backend_ref
        (("backend_kind", text (kind_text q.backend_kind))
          ∷ ("backend_executor", text q.backend_executor)
          ∷ [])
        now

-- The link to the parent, for a task that has one.
unfoldable pub link_parent : Reserve → String → Action TaskTables (Unit {0})
unfolding insert_link
link_parent q now =
    if q.parent_task_id == ""
    then pure tt
    else insert_link q.task_id parent_link task_target q.parent_task_id [] now

-- The read of the row at the end of a write.
abbrev pub read_row : String → Action TaskTables Task
read_row task_id tables = elim (find task_key task_id tables.tasks) [
  | none ↦ (raised value_error, tables)
  | some t ↦ (ok t, tables)
]

-- The branch for a request that has no task yet.
unfoldable pub create_task : Reserve → String → Action TaskTables (Task × Bool)
unfolding insert_task link_backend link_parent
create_task q now = do
  insert_task (new_task q now)
  link_backend q now
  link_parent q now
  t ← read_row q.task_id
  pure (t, true)

-- `reserve_task_in_connection`; a conflict is a `TaskRequestConflict`, which is a `ValueError`.
unfoldable pub reserve_in_connection : Reserve → String → Action TaskTables (Task × Bool)
unfolding create_task
reserve_in_connection q now tables =
    if not (is_task_id q.task_id)
    then (raised value_error, tables)
    else elim (find request_key q.controller_request_id tables.tasks) [
      | some t ↦
          if t.request_hash == q.request_hash
          then (ok (t, false), tables)
          else (raised value_error, tables)
      | none ↦ create_task q now tables
    ]

-- `reserve_task`
unfoldable pub reserve_task : Reserve → String → Action TaskTables (Task × Bool)
unfolding reserve_in_connection
reserve_task q now = atomic (reserve_in_connection q now)

-- `add_link`
unfoldable pub add_link :
    String → LinkType → LinkTargetKind → String → Object → String → Action TaskTables (Unit {0})
unfolding insert_link
add_link task_id link_type target_kind target_id metadata now tables =
    if is_task_id task_id
    then atomic (insert_link task_id link_type target_kind target_id metadata now) tables
    else (raised value_error, tables)
