-- ===== src/Locks/Owner.antt =====
-- soma/operation_locks.py: what the owner of a lock does with it, the next launch under it, and the
-- removal of stale locks.
use codex_bridge.Prelude.{
  ℕ, zero, suc, ◌+◌, String, Bool, true, false, not, ◌&&◌, Option, none, some, List, [], ◌∷◌, ◌==◌,
  contains, string_eq, nat_eq, if◌then◌else◌, Action, atomic, ◌>>=◌, ok, raised, runtime_error,
}
use codex_bridge.Prelude.Table.{find, count_where, keyed}
use codex_bridge.Prelude.Text.{Object}
use codex_bridge.Runs.Model.{
  Status, status_eq, launch_pending, Run, Lock, Database, run_key, lock_key,
}
use codex_bridge.Runs.Update.{is_empty}
use codex_bridge.Locks.Processes.{System}
use codex_bridge.Locks.Ops.{
  write_runs, write_locks, drop_locks, bump_run_state_version, select_lock, owned_by, matches,
  bind_in_connection, is_stale, or_zero, acquired, refused, Request, acquire,
}

-- `int(row["lease_generation"] or 1)`
abbrev pub one_or : ℕ → ℕ
one_or zero = 1
one_or (suc n) = suc n

abbrev pub claimed : ℕ → String → Lock → Lock
claimed owner_pid now l = record l { owner_pid = some owner_pid; heartbeat_at = now }

-- The update of `claim_owner`, after the binding.
unfoldable pub claim_row :
    String → String → (Lock → Bool) → ℕ → String → Lock → Action Database Bool
claim_row repo_name run_id g owner_pid now l db =
    let p = keyed lock_key repo_name g in
    let db' = write_locks p (claimed owner_pid now) db in
    if not (count_where p db.locks == 1)
    then (ok false, db)
    else if or_zero l.owner_pid == owner_pid
    then (ok true, db')
    else (ok true, (bump_run_state_version run_id db').1)

unfoldable pub claim_selected :
    String → String → String → (Lock → Bool) → ℕ → String → Lock → Action Database Bool
claim_selected repo_name run_id token g owner_pid now l = do
  _ ← bind_in_connection repo_name run_id token (one_or l.lease_generation)
  claim_row repo_name run_id g owner_pid now l

-- `rollback` where a call returns without success.
abbrev undo : Action Database Bool → Action Database Bool
undo m db = elim (m db).0 [
  | ok done ↦ if done then (ok true, (m db).1) else (ok false, db)
  | raised e ↦ (raised e, db)
]

-- `claim_owner`
unfoldable pub claim_owner : String → String → ℕ → String → Option ℕ → String → Action Database Bool
claim_owner repo_name run_id owner_pid token generation now db =
    let g = matches run_id (some token) generation in
    elim (select_lock repo_name g db) [
      | none ↦ (ok false, db)
      | some l ↦ undo (claim_selected repo_name run_id token g owner_pid now l) db
    ]

-- `heartbeat`
unfoldable pub heartbeat_lock :
    String → String → Option String → Option ℕ → String → Action Database Bool
heartbeat_lock repo_name run_id token generation now db =
    let p = keyed lock_key repo_name (matches run_id token generation) in
    (ok (count_where p db.locks == 1), write_locks p (λ l. record l { heartbeat_at = now }) db)

-- `release`
unfoldable pub release : String → String → Option String → Option ℕ → Action Database Bool
release repo_name run_id token generation db =
    let p = keyed lock_key repo_name (matches run_id token generation) in
    if count_where p db.locks == 1
    then (ok true, (bump_run_state_version run_id (drop_locks p db)).1)
    else (ok false, drop_locks p db)

-- The arguments of `reserve_next_launch`.
pub record Launch : Type 0 where
  pub repo_name : String
  pub run_id : String
  pub statuses : List Status
  pub state_version : ℕ
  pub owner_token : String
  pub lease_generation : ℕ
  pub new_owner_token : String
  pub owner_pid : Option ℕ

-- `Reservation` is the dictionary that the call returns.
pub record Reservation : Type 0 where
  pub owner_token : String
  pub lease_generation : ℕ
  pub state_version : ℕ
  pub launch_attempts : ℕ

abbrev pub launched : Launch → String → Run → Run
launched q now r = record r {
  status = launch_pending;
  current_phase = "launch_pending";
  worker_lease_token = q.new_owner_token;
  lease_generation = q.lease_generation + 1;
  state_version = r.state_version + 1;
  launch_attempts = r.launch_attempts + 1;
  launcher_pid = none;
  worker_pid = none;
  worker_identity = "";
  worker_claimed_at = none;
  pid = none;
  heartbeat_at = some now;
  recovery_reason = "";
  ended_at = none;
}

abbrev pub is_expected : Launch → Run → Bool
is_expected q r =
    r.state_version == q.state_version
    && r.worker_lease_token == q.owner_token
    && r.lease_generation == q.lease_generation
    && contains q.statuses r.status

abbrev pub relocked : Launch → String → Lock → Lock
relocked q now l = record l {
  owner_pid = q.owner_pid;
  owner_token = q.new_owner_token;
  lease_generation = q.lease_generation + 1;
  heartbeat_at = now;
  run_state_version_bound = true;
}

abbrev pub reservation : Launch → Run → Reservation
reservation q r = record {
  owner_token = q.new_owner_token;
  lease_generation = r.lease_generation;
  state_version = r.state_version;
  launch_attempts = r.launch_attempts;
}

-- Both updates of `reserve_next_launch`; the database before them is kept where one meets no row.
unfoldable pub reserve_next_launch : Launch → String → Action Database (Option Reservation)
unfolding is_empty
reserve_next_launch q now db =
    let p = keyed run_key q.run_id (is_expected q) in
    let o = keyed lock_key q.repo_name (owned_by q.run_id q.owner_token q.lease_generation) in
    let db' = write_locks o (relocked q now) (write_runs p (launched q now) db) in
    if is_empty q.statuses
    then (ok none, db)
    else if not (count_where p db.runs == 1)
    then (ok none, db)
    else if not (count_where o db.locks == 1)
    then (ok none, db)
    else elim (find run_key q.run_id db'.runs) [
      | none ↦ (ok none, db')
      | some r ↦ (ok (some (reservation q r)), db')
    ]

-- One row of the loop of `recover_stale`, with the count of removed rows.
unfoldable pub recover_row : System → Lock → ℕ → Action Database ℕ
recover_row os l removed = do
  _ ← bind_in_connection l.repo_name l.run_id l.owner_token (one_or l.lease_generation)
  λ db.
      let p =
        keyed lock_key l.repo_name (owned_by l.run_id l.owner_token (one_or l.lease_generation)) in
      if is_stale os db l
      then (if count_where p db.locks == 1
          then (ok (removed + 1), (bump_run_state_version l.run_id (drop_locks p db)).1)
          else (ok (removed + count_where p db.locks), drop_locks p db))
      else (ok removed, db)

unfoldable pub recover_rows : System → List Lock → ℕ → Action Database ℕ
recover_rows os [] removed db = (ok removed, db)
recover_rows os (l ∷ rest) removed db = elim (recover_row os l removed db).0 [
  | ok n ↦ recover_rows os rest n (recover_row os l removed db).1
  | raised e ↦ (raised e, (recover_row os l removed db).1)
]

-- `recover_stale`
unfoldable pub recover_stale : System → Action Database ℕ
recover_stale os db = atomic (recover_rows os db.locks 0) db

-- The lock of a synchronous operation: its owner is this process, under a fresh identifier.
abbrev pub sync_request : String → String → Object → String → ℕ → Request
sync_request repo_name tool normalized_input owner_id pid = record {
  repo_name = repo_name;
  tool = tool;
  normalized_input = normalized_input;
  run_id = owner_id;
  owner_pid = some pid;
  owner_token = "";
  lease_generation = 1;
}

-- `repository_operation_lock`: a block under the lock of its repository. The lock is released
-- also where the block raises.
unfoldable pub repository_operation_lock {ℓ} :
    {A : Type ℓ}
    → System
    → (Object → String)
    → String
    → String
    → Object
    → String
    → ℕ
    → String
    → Action Database A
    → Action Database A
repository_operation_lock os digest repo_name tool normalized_input owner_id pid now body db =
    let a = acquire os digest (sync_request repo_name tool normalized_input owner_id pid) now db in
    elim a.0 [
      | raised e ↦ (raised e, a.1)
      | ok (refused duplicate) ↦ (raised runtime_error, a.1)
      | ok acquired ↦
          let after = body a.1 in (after.0, (release repo_name owner_id none none after.1).1)
    ]
