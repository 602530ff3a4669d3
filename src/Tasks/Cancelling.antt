-- ===== src/Tasks/Cancelling.antt =====
-- soma/tasks/manager.py: the command of a cancellation, and what it may touch.
use codex_bridge.Prelude.{
  String, true, false, not, ◌&&◌, none, some, [], ◌∷◌, ◌≡◌, ◌≢◌, refl, ap, ◌∙◌, ◌==◌, string_eq,
  nat_eq, arith, Bool-cases, inl, inr, ok, Result, Action,
}
use codex_bridge.Prelude.Table.{find, insert, key-find}
use codex_bridge.Prelude.Text.{text, flag, first_chars}
use codex_bridge.Runs.Model.{Database}
use codex_bridge.Tasks.States.{is_terminal_task}
use codex_bridge.Tasks.Tables.{
  Task, TaskTables, TaskCommand, warning, CommandStatus, command_accepted, rejected_stale_version,
  command_completed, command_failed, cancel_command, task_key, command_key, is_task_id,
}
use codex_bridge.Tasks.Records.{record_command, complete_command, completion}
use codex_bridge.Tasks.Indexes.{HasIndexes}
use codex_bridge.Tasks.Scopes.{Scope}
use codex_bridge.Tasks.Observe.{query}
use codex_bridge.Tasks.Reconcile.{state_text, World, proven, reconcile_task}
use codex_bridge.Tasks.Lookup.{load-found, load-proven}
use codex_bridge.Tasks.Closed.{
  completed-find, appended, failed-closed, rejected-closed, completed-closed,
}
use codex_bridge.Tasks.Settle.{reconcile_task-Leaves}
use codex_bridge.Tasks.Cancel.{
  Plane, Cancelled, CancelReply, CancelRequest, load_task_scope, record_cancel, refuse,
  reconcile_in, delegate, carry_out, cancel_task,
}

module _ (w : World) (cancel_run : String → Action Database Cancelled) (q : CancelRequest)
    (now : String) where
  -- The call returns, and its command is stored and is not open.
  abbrev pub Closes : Result CancelReply × Plane → Type 0
  Closes r =
      (reply : CancelReply) × (r.0 ≡ ok reply)
      × (c : TaskCommand) × (find command_key q.command_id r.1.tables.commands ≡ some c)
      × (c.status ≢ command_accepted)

  abbrev new_command : Task → CommandStatus → String → TaskCommand
  new_command t status reason = record {
    command_id = q.command_id;
    task_id = t.task_id;
    command_kind = cancel_command;
    controller_request_id = q.controller_request_id;
    requested_state_version = q.if_state_version;
    observed_state_version = t.state_version;
    status = status;
    reason = reason;
    created_at = now;
    completed_at = completion status now;
  }

  abbrev with_command : Task → CommandStatus → String → TaskTables → TaskTables
  with_command t status reason tables = record tables {
    commands = new_command t status reason ∷ tables.commands;
  }

  recorded :
      (t : Task) (status : CommandStatus) (reason : String) (tables : TaskTables)
      → is_task_id t.task_id ≡ true
      → find task_key t.task_id tables.tasks ≡ some t
      → find command_key q.command_id tables.commands ≡ none
      → record_cancel w cancel_run q now t status reason tables
        ≡ (ok tt, with_command t status reason tables)
  unfolding record_cancel record_command insert
  recorded t status reason tables valid found fresh = ground (arith, valid, found, fresh)

  find-new :
      (t : Task) (status : CommandStatus) (reason : String) (tables : TaskTables)
      → find command_key q.command_id (with_command t status reason tables).commands
        ≡ some (new_command t status reason)
  unfolding find
  find-new t status reason tables = ground arith

  -- Nothing could be cancelled: the task is reconciled and the command has failed.
  refuse-Closes :
      (t : Task) (code reason : String) (c : TaskCommand) (scope : Scope) (p : Plane)
      → HasIndexes p.tables.tasks
      → is_task_id t.task_id ≡ true
      → find task_key t.task_id p.tables.tasks ≡ some t
      → proven w.scopes t ≡ ok scope
      → find command_key q.command_id p.tables.commands ≡ some c
      → Closes (refuse w cancel_run q now t code reason p)
  unfolding refuse complete_command
  refuse-Closes t code reason c scope p x valid found bound open_command =
      let done = reconcile_task-Leaves w p.db t "cancel" now p.tables scope x valid found bound in
      let step = reconcile_task w p.db t.task_id "cancel" now p.tables in
      rw done.returns (
        _,
        refl,
        _,
        completed-find q.command_id command_failed reason now c step.1
            (ap (find command_key q.command_id) done.commands_left ∙ open_command),
        failed-closed,
      )

  -- The backend returns, and then so does the call.
  delegate-Closes :
      (t : Task) (c : TaskCommand) (scope : Scope) (result : Cancelled) (p : Plane)
      → HasIndexes p.tables.tasks
      → is_task_id t.task_id ≡ true
      → find task_key t.task_id p.tables.tasks ≡ some t
      → proven w.scopes t ≡ ok scope
      → find command_key q.command_id p.tables.commands ≡ some c
      → (cancel_run t.backend_ref p.db).0 ≡ ok result
      → Closes (delegate w cancel_run q now t p)
  unfolding delegate reconcile_in complete_command
  delegate-Closes t c scope result p x valid found bound open_command returned =
      let db = (cancel_run t.backend_ref p.db).1 in
      let (event, after, logged, tasks, commands) =
        appended t.task_id warning "cancel"
          "Cancellation delegated to the durable backend authority" (state_text t.state)
          t.state_version
          (("backend_reference", text t.backend_ref)
            ∷ ("backend_ok", flag result.is_ok)
            ∷ ("backend_status", text result.status)
            ∷ [])
          now t p.tables valid found in
      let done =
        reconcile_task-Leaves w db t "cancel" now after scope (rw tasks x) valid
          (ap (find task_key t.task_id) tasks ∙ found) bound in
      let step = reconcile_task w db t.task_id "cancel" now after in
      rw returned (
        rw logged (
          rw done.returns (
            _,
            refl,
            _,
            completed-find q.command_id command_completed result.reason now c step.1
                (ap (find command_key q.command_id) (done.commands_left ∙ commands) ∙ open_command),
            completed-closed,
          )))

  carry_out-Closes :
      (t : Task) (c : TaskCommand) (scope : Scope) (result : Cancelled) (p : Plane)
      → HasIndexes p.tables.tasks
      → is_task_id t.task_id ≡ true
      → find task_key t.task_id p.tables.tasks ≡ some t
      → proven w.scopes t ≡ ok scope
      → find command_key q.command_id p.tables.commands ≡ some c
      → (cancel_run t.backend_ref p.db).0 ≡ ok result
      → Closes (carry_out w cancel_run q now t p)
  unfolding carry_out complete_command
  carry_out-Closes t c scope result p x valid found bound row returned =
      elim (Bool-cases (is_terminal_task t.state)) [
        | inl ended ↦ rw ended (
          _,
          refl,
          _,
          completed-find q.command_id command_completed "task already terminal" now c p.tables row,
          completed-closed,
        )
        | inr lives ↦ rw lives (elim (Bool-cases (t.backend_ref == "")) [
          | inl empty ↦ rw empty (refuse-Closes t _ _ c scope p x valid found bound row)
          | inr named ↦ rw named (elim (Bool-cases (query t.backend_ref p.db).is_there) [
            | inl there ↦
                rw there (delegate-Closes t c scope result p x valid found bound row returned)
            | inr gone ↦ rw gone (refuse-Closes t _ _ c scope p x valid found bound row)
          ])
        ])
      ]

  -- Where identifiers, requests and backends of tasks are unique, the task is found in its scope,
  -- the identifier of the command is new and the cancellation of its run by the job manager
  -- returns, the cancellation of the task returns too, on every branch, and leaves its command in
  -- the store with a status other than accepted.
  pub cancel_task-Closes :
      (t : Task) (result : Cancelled) (p : Plane)
      → HasIndexes p.tables.tasks
      → load_task_scope w.scopes q.task_id q.project_id p.tables ≡ ok t
      → find command_key q.command_id p.tables.commands ≡ none
      → (cancel_run t.backend_ref p.db).0 ≡ ok result
      → Closes (cancel_task w cancel_run q now p)
  unfolding cancel_task
  cancel_task-Closes t result p x loaded fresh returned =
      let (known, row) = load-found w.scopes q.task_id q.project_id p.tables t loaded in
      let same = key-find task_key q.task_id p.tables.tasks t row in
      let (scope, bound) = load-proven w.scopes q.task_id q.project_id p.tables t loaded in
      let valid = ap is_task_id same ∙ known in
      let found = ap (λ i. find task_key i p.tables.tasks) same ∙ row in
      rw (cancel_task, loaded)
        (elim (Bool-cases (q.if_state_version == t.state_version)) [
          | inl current ↦
              let reason = first_chars 512 (w.redact q.reason) in
              rw current (
                rw (recorded t command_accepted reason p.tables valid found fresh) (
                  carry_out-Closes t (new_command t command_accepted reason) scope result
                    (record p { tables = with_command t command_accepted reason p.tables }) x valid
                    found bound (find-new t command_accepted reason p.tables) returned))
          | inr old ↦ rw old (
              rw (recorded t rejected_stale_version _ p.tables valid found fresh)
                (_, refl, _, find-new t rejected_stale_version _ p.tables, rejected-closed))
        ])

  -- Where the task is found in its scope, a cancellation that comes with another version of the
  -- task, or of a task that has ended, changes neither the runs nor the tasks, whatever the job
  -- manager would do.
  pub cancel_task-untouched :
      (t : Task) (p : Plane)
      → load_task_scope w.scopes q.task_id q.project_id p.tables ≡ ok t
      → (q.if_state_version == t.state_version && not (is_terminal_task t.state)) ≡ false
      → ((cancel_task w cancel_run q now p).1.db ≡ p.db)
        × ((cancel_task w cancel_run q now p).1.tables.tasks ≡ p.tables.tasks)
  unfolding cancel_task carry_out record_cancel record_command complete_command
  cancel_task-untouched t p loaded idle =
      (ground (arith, loaded, idle), ground (arith, loaded, idle))
