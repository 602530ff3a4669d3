-- ===== src/Tasks/Bindings.antt =====
-- soma/tasks/store.py: a reservation binds a request of the controller to one task for good. The
-- abstract view is a ledger that knows, of every request, only its task and the hash it came with.
use codex_bridge.Prelude.{
  String, Bool, ◌≡◌, refl, ◌∙◌, ap, true, false, Option, none, some, List, ◌==◌, Action,
  if◌then◌else◌, arith, string_eq, Result, ok, raised, Option-cases, inl, inr, value_error,
}
use mathlib.Core.Option
use codex_bridge.Prelude.Table.{find}
use codex_bridge.Tasks.Tables.{Task, TaskTables, request_key, is_task_id}
use codex_bridge.Tasks.Reserve.{Reserve, reserve_task, reserve_in_connection, new_task}
use codex_bridge.Tasks.Create.{IsFresh, reserve_task-created, tasks-created}
use codex_bridge.Tasks.Changes.{TaskWrite, write_tasks}
use codex_bridge.Tasks.Identity.{request-IsLater}

-- The task of a request, and the hash of the request.
abbrev pub Ledger : Type 0
Ledger = String → Option (String × String)

-- What a controller that asks for a task is promised: a free request is bound, a bound one gets its
-- task again, and a bound one with another hash is refused.
abbrev pub promise : String → String → String → Action Ledger (String × Bool)
promise request task_id hash ledger = elim (ledger request) [
  | none ↦ (ok (task_id, true), λ r. if request == r then some (task_id, hash) else ledger r)
  | some b ↦ (if b.1 == hash then ok (b.0, false) else raised value_error, ledger)
]

abbrev binding : Task → String × String
binding t = (t.task_id, t.request_hash)

abbrev pub ledger_of : TaskTables → Ledger
ledger_of tables request = Option.map binding (find request_key request tables.tasks)

abbrev pub promised : Result (Task × Bool) → Result (String × Bool)
promised (raised e) = raised e
promised (ok (t, created)) = ok (t.task_id, created)

-- A call for a request that is bound.
module _ (q : Reserve) (now : String) (tables : TaskTables) (t : Task) where
  pub reserve_task-bound :
      is_task_id q.task_id ≡ true
      → find request_key q.controller_request_id tables.tasks ≡ some t
      → reserve_task q now tables
        ≡ (if t.request_hash == q.request_hash then ok (t, false) else raised value_error, tables)
  unfolding reserve_task reserve_in_connection
  reserve_task-bound valid h = ground (arith, valid, h)

-- A call that creates its task.
module _ (q : Reserve) (now : String) (tables : TaskTables) where
  find-created :
      is_task_id q.task_id ≡ true
      → IsFresh (new_task q now) tables.tasks
      → (r : String)
      → find request_key r (reserve_task q now tables).1.tasks ≡ (
          if q.controller_request_id == r
          then some (new_task q now)
          else find request_key r tables.tasks)
  unfolding find
  find-created valid fresh r = rw (tasks-created q now tables valid fresh) refl

  ledger-created :
      is_task_id q.task_id ≡ true
      → IsFresh (new_task q now) tables.tasks
      → (r : String)
      → ledger_of (reserve_task q now tables).1 r ≡ (
          if q.controller_request_id == r
          then some (q.task_id, q.request_hash)
          else ledger_of tables r)
  ledger-created valid fresh r = ground (arith, find-created valid fresh r)

-- With a valid identifier, and indexes that do not stand against a task for a free request, the
-- call does what the ledger of requests is promised, in its result and in every entry of the
-- ledger: a free request is bound to the new task, a bound one gets its task again, and a bound
-- one with another hash is refused.
pub reserve_task-promise :
    (q : Reserve) (now : String) (tables : TaskTables)
    → is_task_id q.task_id ≡ true
    → (find request_key q.controller_request_id tables.tasks ≡ none
        → IsFresh (new_task q now) tables.tasks)
    → let spec = promise q.controller_request_id q.task_id q.request_hash (ledger_of tables) in
      (promised (reserve_task q now tables).0 ≡ spec.0)
      × ((r : String) → ledger_of (reserve_task q now tables).1 r ≡ spec.1 r)
reserve_task-promise q now tables valid fresh =
    elim (Option-cases (find request_key q.controller_request_id tables.tasks)) [
      | inr a ↦ (
        ground (arith, reserve_task-bound q now tables a.0 valid a.1, a.1),
        λ r. ground (arith, reserve_task-bound q now tables a.0 valid a.1, a.1),
      )
      | inl free ↦ (
        ground (arith, reserve_task-created q now tables valid (fresh free), free),
        λ r. ground (arith, ledger-created q now tables valid (fresh free) r, free),
      )
    ]

-- Once a fresh task was reserved, then after every sequence of calls of the store the same request
-- comes back to that task: with the same hash the call returns it as not created, with another
-- hash it raises a value error, and in both cases it writes nothing.
pub reserve_task-replay :
    (q q' : Reserve) (now now' : String) (ws : List TaskWrite) (tables : TaskTables)
    → is_task_id q.task_id ≡ true
    → is_task_id q'.task_id ≡ true
    → q'.controller_request_id ≡ q.controller_request_id
    → IsFresh (new_task q now) tables.tasks
    → let after = write_tasks ws (reserve_task q now tables).1 in
      (t : Task) × (t.task_id ≡ q.task_id)
      × (reserve_task q' now' after ≡ (
        if q.request_hash == q'.request_hash then ok (t, false) else raised value_error,
        after,
      ))
reserve_task-replay q q' now now' ws tables valid valid' same fresh =
    let made = (reserve_task q now tables).1 in
    let (t, found, later) =
      request-IsLater ws made q.controller_request_id (new_task q now)
        (find-created q now tables valid fresh q.controller_request_id ∙ ground arith) in
    let after = write_tasks ws made in
    (
      t,
      ap (λ s. s.0) later.same_task,
      ground (
        arith,
        reserve_task-bound q' now' after t valid' (rw same found),
        ap (λ s. s.2) later.same_task,
      ),
    )
