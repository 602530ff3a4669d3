-- ===== src/Tasks/Closed.antt =====
-- soma/tasks/manager.py: the commands that are closed, and the events that leave them.
use codex_bridge.Prelude.{
  suc, ◌++◌, ℕ, String, true, some, [], ◌∷◌, ◌≡◌, ◌≢◌, refl, string_eq, nat_eq, ok,
}
use codex_bridge.Prelude.Table.{find, find-update_same}
use codex_bridge.Prelude.Text.{Object}
use codex_bridge.Tasks.Tables.{
  Task, TaskTables, TaskCommand, TaskEvent, EventLevel, CommandStatus, command_accepted,
  rejected_stale_version, command_completed, command_failed, task_key, command_key, is_task_id,
}
use codex_bridge.Tasks.Records.{append_task_event, complete_command, every_command}

-- The statuses of a command that was carried out or refused.
pub completed-find :
    (i : String) (s : CommandStatus) (r now : String) (c : TaskCommand) (tables : TaskTables)
    → find command_key i tables.commands ≡ some c
    → find command_key i (complete_command i s r now tables).1.commands
      ≡ some (record c { status = s; reason = r; completed_at = some now })
unfolding complete_command
completed-find i s r now c tables found =
    find-update_same command_key i every_command _ (λ x. refl) tables.commands c found refl

pub appended :
    (i : String) (l : EventLevel) (g m s : String) (v : ℕ) (o : Object) (now : String) (t : Task)
    (tables : TaskTables)
    → is_task_id i ≡ true
    → find task_key i tables.tasks ≡ some t
    → (event : TaskEvent) × (after : TaskTables) × (append_task_event i l g m s v o now tables
        ≡ (ok event, after))
      × (after.tasks ≡ tables.tasks)
      × (after.commands ≡ tables.commands)
unfolding append_task_event
appended i l g m s v o now t tables valid found =
    let event : TaskEvent = record {
      id = tables.next_event_id;
      task_id = i;
      timestamp = now;
      level = l;
      stage = g;
      message = m;
      state = s;
      state_version = v;
      payload = o;
    } in
    (
      event,
      record tables {
        events = tables.events ++ (event ∷ []);
        next_event_id = suc tables.next_event_id;
      },
      rw valid (rw found refl),
      refl,
      refl,
    )

pub failed-closed : command_failed ≢ command_accepted
failed-closed = λ e. cc e

pub rejected-closed : rejected_stale_version ≢ command_accepted
rejected-closed = λ e. cc e

pub completed-closed : command_completed ≢ command_accepted
completed-closed = λ e. cc e
