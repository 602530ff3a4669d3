-- ===== src/Tasks/Cancel.antt =====
-- soma/tasks/manager.py: the cancellation of a task, which its backend carries out.
use codex_bridge.Prelude.{
  ℕ, String, Bool, not, [], ◌∷◌, ◌==◌, string_eq, nat_eq, if◌then◌else◌, Error, Action, Result, ok,
  raised, pure, ◌>>=◌, ◌>>◌,
}
use codex_bridge.Prelude.Text.{first_chars, text, flag}
use codex_bridge.Runs.Model.{Database}
use codex_bridge.Tasks.States.{is_terminal_task}
use codex_bridge.Tasks.Tables.{
  cancel_command, command_accepted, rejected_stale_version, command_completed, command_failed,
  CommandStatus, warning, Task, TaskTables,
}
use codex_bridge.Tasks.Records.{append_task_event, record_command, complete_command}
use codex_bridge.Tasks.Reads.{get_task}
use codex_bridge.Tasks.Scopes.{
  ScopeTables, Scope, scope_for_task, require_task, require_task_attempt,
}
use codex_bridge.Tasks.Observe.{query}
use codex_bridge.Tasks.Reconcile.{World, state_text, reconcile_task}

-- The tables of the tasks and of the runs.
pub record Plane : Type 0 where
  pub tables : TaskTables
  pub db : Database

abbrev pub on_tables {ℓ} : {A : Type ℓ} → Action TaskTables A → Action Plane A
on_tables m p = ((m p.tables).0, record p { tables = (m p.tables).1 })

abbrev pub on_runs {ℓ} : {A : Type ℓ} → Action Database A → Action Plane A
on_runs m p = ((m p.db).0, record p { db = (m p.db).1 })

-- What the backend returns.
pub record Cancelled : Type 0 where
  pub is_ok : Bool
  pub status : String
  pub reason : String

-- What the caller is told: the lookup failed, the version was stale, the task had ended, nothing
-- could be cancelled, or the backend has cancelled.
pub data CancelReply : Type 0 where
  lookup_error : Error → CancelReply
  stale_version : Task → CancelReply
  already_terminal : Task → CancelReply
  not_cancelled : String → Task → CancelReply
  delegated : Cancelled → Task → CancelReply

-- The scope of a task, in its project if one is given.
unfoldable pub scope_of : ScopeTables → String → Task → Result Scope
scope_of scopes project_id t =
    if project_id == ""
    then ok (scope_for_task t.task_id scopes)
    else require_task project_id t.task_id scopes

-- `_load_task_scope`
unfoldable pub load_task_scope : ScopeTables → String → String → TaskTables → Result Task
load_task_scope scopes task_id project_id tables = elim (get_task task_id tables) [
  | raised e ↦ raised e
  | ok t ↦ elim (scope_of scopes project_id t) [
    | raised e ↦ raised e
    | ok scope ↦
        if scope.project_id == ""
        then ok t
        else (elim (require_task_attempt scope.project_id t.task_id t.backend_ref scopes) [
          | raised e ↦ raised e
          | ok _ ↦ ok t
        ])
  ]
]

-- One request: the task, the version that the caller saw, the texts of the call, and the identifier
-- that is made for its command.
pub record CancelRequest : Type 0 where
  pub task_id : String
  pub if_state_version : ℕ
  pub reason : String
  pub controller_request_id : String
  pub project_id : String
  pub command_id : String

module _ (w : World) (cancel_run : String → Action Database Cancelled) (q : CancelRequest)
    (now : String) where
  unfoldable pub record_cancel : Task → CommandStatus → String → Action TaskTables (Unit {0})
  record_cancel t status reason = do
    command ←
        record_command q.command_id t.task_id cancel_command q.if_state_version t.state_version
          status q.controller_request_id reason now
    pure tt

  -- The backend has nothing to cancel: the task is reconciled and the command has failed.
  unfoldable pub refuse : Task → String → String → Action Plane CancelReply
  refuse t code reason p =
      (on_tables (reconcile_task w p.db t.task_id "cancel" now) >>= λ u.
      on_tables (complete_command q.command_id command_failed reason now)
      >> pure (not_cancelled code u))
        p

  -- The reconciliation sees the runs as the backend has left them.
  unfoldable pub reconcile_in : String → Action Plane Task
  reconcile_in task_id p = on_tables (reconcile_task w p.db task_id "cancel" now) p

  -- The backend cancels, and the task is reconciled with what it left.
  unfoldable pub delegate : Task → Action Plane CancelReply
  delegate t = do
    result ← on_runs (cancel_run t.backend_ref)
    event ← on_tables (
        append_task_event t.task_id warning "cancel"
          "Cancellation delegated to the durable backend authority" (state_text t.state)
          t.state_version
          (("backend_reference", text t.backend_ref)
            ∷ ("backend_ok", flag result.is_ok)
            ∷ ("backend_status", text result.status)
            ∷ [])
          now)
    u ← reconcile_in t.task_id
    done ← on_tables (complete_command q.command_id command_completed result.reason now)
    pure (delegated result u)

  -- The command is accepted.
  unfoldable pub carry_out : Task → Action Plane CancelReply
  carry_out t p =
      if is_terminal_task t.state
      then (on_tables (complete_command q.command_id command_completed "task already terminal" now)
            >> pure (already_terminal t))
          p
      else if t.backend_ref == ""
      then refuse t "backend_reference_missing" "task has no backend reference to cancel" p
      else if not (query t.backend_ref p.db).is_there
      then refuse t "backend_run_not_found" "backend run record is not present" p
      else delegate t p

  -- `cancel_task`
  unfoldable pub cancel_task : Action Plane CancelReply
  unfolding nat_eq
  cancel_task p = elim (load_task_scope w.scopes q.task_id q.project_id p.tables) [
    | raised e ↦ (ok (lookup_error e), p)
    | ok t ↦
        if not (q.if_state_version == t.state_version)
        then (on_tables (record_cancel t rejected_stale_version "state version guard did not match")
              >> pure (stale_version t))
            p
        else (on_tables (record_cancel t command_accepted (first_chars 512 (w.redact q.reason)))
              >> carry_out t)
            p
  ]
