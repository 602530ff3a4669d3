-- ===== src/Tasks/Records.antt =====
-- soma/tasks/store.py: the events, the commands and the checkpoints of a task.
use codex_bridge.Prelude.{
  ℕ, suc, String, Bool, true, not, Option, none, some, [], ◌∷◌, ◌++◌, string_eq, nat_eq,
  if◌then◌else◌, Action, ok, raised, value_error, integrity_error,
}
use codex_bridge.Prelude.Table.{find, insert, update_where, keyed}
use codex_bridge.Prelude.Text.{Object}
use codex_bridge.Tasks.States.{task_state_eq}
use codex_bridge.Tasks.Tables.{
  backend_kind_eq, link_type_eq, link_target_kind_eq, CommandKind, CommandStatus, command_accepted,
  rejected_stale_version, command_completed, command_failed, checkpoint_open, EventLevel,
  TaskCommand, TaskCheckpoint, TaskEvent, TaskTables, task_key, command_key, checkpoint_key,
  is_task_id,
}

-- The foreign key of events, commands and checkpoints.
abbrev pub with_task : String → Action TaskTables (Unit {0})
with_task task_id tables = elim (find task_key task_id tables.tasks) [
  | none ↦ (raised integrity_error, tables)
  | some _ ↦ (ok tt, tables)
]

-- `append_event`
unfoldable pub append_task_event :
    String
    → EventLevel
    → String
    → String
    → String
    → ℕ
    → Object
    → String
    → Action TaskTables TaskEvent
append_task_event task_id level stage message state version payload now tables =
    let event : TaskEvent = record {
      id = tables.next_event_id;
      task_id = task_id;
      timestamp = now;
      level = level;
      stage = stage;
      message = message;
      state = state;
      state_version = version;
      payload = payload;
    } in
    if not (is_task_id task_id)
    then (raised value_error, tables)
    else elim (with_task task_id tables).0 [
      | raised e ↦ (raised e, tables)
      | ok _ ↦ (
        ok event,
        record tables {
          events = tables.events ++ (event ∷ []);
          next_event_id = suc tables.next_event_id;
        },
      )
    ]

unfoldable pub completion : CommandStatus → String → Option String
completion command_accepted now = none
completion rejected_stale_version now = some now
completion command_completed now = some now
completion command_failed now = some now

-- `record_command`
unfoldable pub record_command :
    String
    → String
    → CommandKind
    → ℕ
    → ℕ
    → CommandStatus
    → String
    → String
    → String
    → Action TaskTables TaskCommand
unfolding completion
record_command command_id task_id kind requested observed status request reason now tables =
    let command : TaskCommand = record {
      command_id = command_id;
      task_id = task_id;
      command_kind = kind;
      controller_request_id = request;
      requested_state_version = requested;
      observed_state_version = observed;
      status = status;
      reason = reason;
      created_at = now;
      completed_at = completion status now;
    } in
    if not (is_task_id task_id)
    then (raised value_error, tables)
    else elim (with_task task_id tables).0 [
      | raised e ↦ (raised e, tables)
      | ok _ ↦ elim (insert command_key command tables.commands) [
        | none ↦ (raised integrity_error, tables)
        | some rows ↦ (ok command, record tables { commands = rows })
      ]
    ]

abbrev pub every_command : TaskCommand → Bool
every_command c = true

-- `complete_command`
unfoldable pub complete_command :
    String → CommandStatus → String → String → Action TaskTables (Unit {0})
complete_command command_id status reason now tables = (
  ok tt,
  record tables {
    commands =
        update_where (keyed command_key command_id every_command)
          (λ c. record c { status = status; reason = reason; completed_at = some now })
          tables.commands;
  },
)

-- `create_checkpoint`
unfoldable pub create_checkpoint :
    String
    → String
    → String
    → ℕ
    → String
    → Object
    → String
    → String
    → String
    → Action TaskTables TaskCheckpoint
create_checkpoint checkpoint_id task_id kind version prompt schema context evidence now tables =
    let checkpoint : TaskCheckpoint = record {
      checkpoint_id = checkpoint_id;
      task_id = task_id;
      kind = kind;
      prompt = prompt;
      expected_input_schema = schema;
      context_ref = context;
      evidence_ref = evidence;
      required_state_version = version;
      status = checkpoint_open;
      created_at = now;
      resolved_at = none;
    } in
    if not (is_task_id task_id)
    then (raised value_error, tables)
    else elim (with_task task_id tables).0 [
      | raised e ↦ (raised e, tables)
      | ok _ ↦ elim (insert checkpoint_key checkpoint tables.checkpoints) [
        | none ↦ (raised integrity_error, tables)
        | some rows ↦ (ok checkpoint, record tables { checkpoints = rows })
      ]
    ]
