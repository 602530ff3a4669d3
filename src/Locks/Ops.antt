-- ===== src/Locks/Ops.antt =====
-- soma/operation_locks.py: the lock that a repository operation holds, in the database of the runs.
-- A statement's conditions after `repo_name = ?` are tests on the row of that primary key.
use codex_bridge.Prelude.{
  ℕ, ◌+◌, String, Bool, true, false, not, ◌&&◌, ◌||◌, Option, none, some, ◌==◌, string_eq, nat_eq,
  if◌then◌else◌, Action, pure, atomic, ◌>>=◌, ok, raised, runtime_error, integrity_error,
}
use codex_bridge.Prelude.Table.{find, insert, update_where, delete_where, count_where, keyed}
use codex_bridge.Prelude.Text.{Object}
use codex_bridge.Runs.Model.{status_eq, is_terminal, Run, Lock, Database, run_key, lock_key}
use codex_bridge.Runs.Worker.{given}
use codex_bridge.Locks.Processes.{System, process_is_running, process_matches_identity}

abbrev pub any_row {ℓ} : {R : Type ℓ} → R → Bool
any_row r = true

abbrev pub bumped : Run → Run
bumped r = record r { state_version = r.state_version + 1 }

abbrev pub write_runs : (Run → Bool) → (Run → Run) → Database → Database
write_runs p f db = record db { runs = update_where p f db.runs }

abbrev pub write_locks : (Lock → Bool) → (Lock → Lock) → Database → Database
write_locks p f db = record db { locks = update_where p f db.locks }

abbrev pub drop_locks : (Lock → Bool) → Database → Database
drop_locks p db = record db { locks = delete_where p db.locks }

-- `_bump_run_state_version`: whether it met one run, and the database.
unfoldable pub bump_run_state_version : String → Database → Bool × Database
bump_run_state_version run_id db = (
  count_where (keyed run_key run_id any_row) db.runs == 1,
  write_runs (keyed run_key run_id any_row) bumped db,
)

-- The row of the repository, if it meets the other conditions.
unfoldable pub select_lock : String → (Lock → Bool) → Database → Option Lock
select_lock repo_name g db = elim (find lock_key repo_name db.locks) [
  | none ↦ none
  | some l ↦ if g l then some l else none
]

-- `run_id = ? AND owner_token = ? AND lease_generation = ?`
abbrev pub owned_by : String → String → ℕ → Lock → Bool
owned_by run_id token generation l =
    l.run_id == run_id && l.owner_token == token && l.lease_generation == generation

-- The same, where the token and the generation may be left out.
abbrev pub matches : String → Option String → Option ℕ → Lock → Bool
matches run_id token generation l =
    l.run_id == run_id
    && l.owner_token == given token l.owner_token
    && l.lease_generation == given generation l.lease_generation

abbrev pub bound : Lock → Lock
bound l = record l { run_state_version_bound = true }

abbrev pub unbound_of : String → String → ℕ → Lock → Bool
unbound_of run_id token generation l =
    owned_by run_id token generation l && not l.run_state_version_bound

bind_found : String → String → String → ℕ → Lock → Action Database Bool
bind_found repo_name run_id token generation l db =
    if l.run_state_version_bound
    then (ok true, db)
    else let (met, db') = bump_run_state_version run_id db in
      let p = keyed lock_key repo_name (unbound_of run_id token generation) in
      if not met
      then (ok false, db')
      else if count_where p db'.locks == 1
      then (ok true, write_locks p bound db')
      else (raised runtime_error, write_locks p bound db')

-- `_bind_run_ownership_in_connection`
unfoldable pub bind_in_connection : String → String → String → ℕ → Action Database Bool
unfolding bind_found
bind_in_connection repo_name run_id token generation db =
    elim (select_lock repo_name (owned_by run_id token generation) db) [
      | none ↦ (ok false, db)
      | some l ↦ bind_found repo_name run_id token generation l db
    ]

-- `bind_run_ownership`
unfoldable pub bind_run_ownership : String → String → String → ℕ → Action Database Bool
bind_run_ownership repo_name run_id token generation =
    atomic (bind_in_connection repo_name run_id token generation)

-- `value or 0`, of a process number that may be missing.
abbrev pub or_zero : Option ℕ → ℕ
or_zero none = 0
or_zero (some n) = n

-- `_is_stale`
unfoldable pub is_stale : System → Database → Lock → Bool
unfolding process_is_running process_matches_identity
is_stale os db l = elim (find run_key l.run_id db.runs) [
  | none ↦ not (process_is_running os (or_zero l.owner_pid))
  | some run ↦
      is_terminal run.status
      && not (
          process_matches_identity os (or_zero run.worker_pid) run.worker_identity
          || process_is_running os (or_zero run.launcher_pid)
          || process_is_running os (or_zero run.pid))
]

-- `LockAcquisition`
pub data Acquisition : Type 0 where
  acquired : Acquisition
  refused : (duplicate : Bool) → Acquisition

pub record Request : Type 0 where
  pub repo_name : String
  pub tool : String
  pub normalized_input : Object
  pub run_id : String
  pub owner_pid : Option ℕ
  pub owner_token : String
  pub lease_generation : ℕ

-- What a request has seen before it writes.
pub data Seen : Type 0 where
  no_lock : Seen
  stale_lock : Lock → Seen
  busy_lock : Lock → Seen

-- `digest` is `normalize_input_fingerprint`: the SHA-256 text of the sorted JSON.
module _ (os : System) (digest : Object → String) where
  unfoldable pub new_lock : Request → String → Lock
  new_lock q now = record {
    repo_name = q.repo_name;
    tool = q.tool;
    input_fingerprint = digest q.normalized_input;
    run_id = q.run_id;
    owner_pid = q.owner_pid;
    owner_token = q.owner_token;
    lease_generation = q.lease_generation;
    acquired_at = now;
    heartbeat_at = now;
    run_state_version_bound = false;
  }

  -- The stale row goes, and the version of its run rises.
  unfoldable pub evict : String → Lock → Database → Database
  evict repo_name l db =
      let p = keyed lock_key repo_name any_row in
      if count_where p db.locks == 1
      then (bump_run_state_version l.run_id (drop_locks p db)).1
      else drop_locks p db

  unfoldable pub insert_lock : Request → String → Action Database Acquisition
  insert_lock q now db = elim (insert lock_key (new_lock q now) db.locks) [
    | none ↦ (raised integrity_error, db)
    | some locks ↦ (ok acquired, record db { locks = locks })
  ]

  -- The reads of `acquire`, outside of any transaction: the row of the repository, and then the row
  -- of its run, each in the database of its moment.
  unfoldable pub look : Request → Database → Database → Seen
  look q db db' = elim (find lock_key q.repo_name db.locks) [
    | none ↦ no_lock
    | some l ↦ if is_stale os db' l then stale_lock l else busy_lock l
  ]

  -- The first transaction of `acquire`, with what was seen. The row that it deletes may be another.
  unfoldable pub take_seen : Seen → Request → String → Action Database Acquisition
  take_seen no_lock q now db = insert_lock q now db
  take_seen (stale_lock l) q now db = insert_lock q now (evict q.repo_name l db)
  take_seen (busy_lock l) q now db =
      (ok (refused (l.tool == q.tool && l.input_fingerprint == digest q.normalized_input)), db)

  unfoldable pub bind_acquired : Request → Acquisition → Action Database Acquisition
  bind_acquired q (refused duplicate) = pure (refused duplicate)
  bind_acquired q acquired = do
    _ ← bind_run_ownership q.repo_name q.run_id q.owner_token q.lease_generation
    pure acquired

  -- The writes of `acquire`, with what was seen.
  unfoldable pub acquire_seen : Seen → Request → String → Action Database Acquisition
  unfolding bind_acquired
  acquire_seen seen q now = do a ← atomic (take_seen seen q now); bind_acquired q a

  -- `acquire`, where no other writer comes between its reads and its writes.
  unfoldable pub acquire : Request → String → Action Database Acquisition
  unfolding acquire_seen look
  acquire q now db = acquire_seen (look q db db) q now db
