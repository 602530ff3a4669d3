-- ===== src/Tasks/Reads.antt =====
-- soma/tasks/store.py: the reads of the task store. A read changes nothing, so it is a function of
-- the tables.
use codex_bridge.Prelude.{
  ℕ, String, Bool, true, not, ◌&&◌, Option, none, some, List, [], ◌∷◌, ltb, length, take, ◌==◌,
  string_eq, nat_eq, if◌then◌else◌, Result, ok, raised, value_error, key_error,
}
use codex_bridge.Prelude.Table.{find}
use codex_bridge.Prelude.Order.{text_leb, select, sort_by}
use codex_bridge.Tasks.States.{is_terminal_task}
use codex_bridge.Tasks.Tables.{
  BackendKind, checkpoint_status_eq, checkpoint_open, Task, TaskLink, TaskCommand, TaskCheckpoint,
  TaskEvent, TaskTables, task_key, request_key, is_task_id,
}
use codex_bridge.Tasks.Reserve.{owns_backend}

-- `get_task`
unfoldable pub get_task : String → TaskTables → Result Task
get_task task_id tables =
    if not (is_task_id task_id)
    then raised value_error
    else elim (find task_key task_id tables.tasks) [ none ↦ raised key_error | some t ↦ ok t ]

-- `find_by_controller_request`
unfoldable pub find_by_controller_request : String → TaskTables → Option Task
find_by_controller_request request tables = find request_key request tables.tasks

first : List Task → Option Task
first [] = none
first (t ∷ ts) = some t

-- `find_by_backend_ref`
unfoldable pub find_by_backend_ref : BackendKind → String → TaskTables → Option Task
unfolding owns_backend first
find_by_backend_ref kind reference tables =
    if reference == "" then none else first (select (owns_backend kind reference) tables.tasks)

is_older : Task → Task → Bool
unfolding text_leb
is_older s t = text_leb s.created_at t.created_at

-- `list_active_tasks`
unfoldable pub list_active_tasks : ℕ → TaskTables → List Task
unfolding is_older
list_active_tasks limit tables =
    take limit (sort_by is_older (select (λ t. not (is_terminal_task t.state)) tables.tasks))

-- `list_links`
unfoldable pub list_links : String → ℕ → TaskTables → Result (List TaskLink)
list_links task_id limit tables =
    if is_task_id task_id
    then ok (take limit (select (λ l. l.task_id == task_id) tables.links))
    else raised value_error

is_after : Option ℕ → TaskEvent → Bool
is_after none e = true
is_after (some i) e = ltb i e.id

-- `list_events`
unfoldable pub list_events : String → ℕ → Option ℕ → TaskTables → Result (List TaskEvent)
unfolding is_after
list_events task_id limit after_id tables =
    if is_task_id task_id
    then ok (take limit (select (λ e. e.task_id == task_id && is_after after_id e) tables.events))
    else raised value_error

-- `MAX(id)`, and `row[0] or 0` where no row is met.
greatest_id : List TaskEvent → ℕ
greatest_id [] = 0
greatest_id (e ∷ es) = let rest = greatest_id es in if ltb e.id rest then rest else e.id

-- `latest_event_id`
unfoldable pub latest_event_id : String → TaskTables → Result ℕ
unfolding greatest_id
latest_event_id task_id tables =
    if is_task_id task_id
    then ok (greatest_id (select (λ e. e.task_id == task_id) tables.events))
    else raised value_error

-- `ORDER BY created_at ASC, command_id ASC`
is_earlier : TaskCommand → TaskCommand → Bool
unfolding text_leb
is_earlier c d =
    if c.created_at == d.created_at
    then text_leb c.command_id d.command_id
    else text_leb c.created_at d.created_at

-- `list_commands`
unfoldable pub list_commands : String → ℕ → TaskTables → Result (List TaskCommand)
unfolding is_earlier
list_commands task_id limit tables =
    if is_task_id task_id
    then ok (take limit (sort_by is_earlier (select (λ c. c.task_id == task_id) tables.commands)))
    else raised value_error

is_open : String → TaskCheckpoint → Bool
unfolding checkpoint_status_eq
is_open task_id c = c.task_id == task_id && c.status == checkpoint_open

-- `open_checkpoint_count`
unfoldable pub open_checkpoint_count : String → TaskTables → Result ℕ
unfolding is_open
open_checkpoint_count task_id tables =
    if is_task_id task_id
    then ok (length (select (is_open task_id) tables.checkpoints))
    else raised value_error
