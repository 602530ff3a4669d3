-- ===== src/Locks/Calls.antt =====
-- soma/operation_locks.py: the operations as calls, and what every call keeps.
use codex_bridge.Prelude.{
  ℕ, String, Option, none, List, [], ◌∷◌, string_eq, nat_eq, arith, ok, raised, Result, Action,
}
use codex_bridge.Prelude.Text.{Object}
use codex_bridge.Runs.Model.{Lock, Database}
use codex_bridge.Locks.Processes.{System}
use codex_bridge.Locks.Ops.{bind_run_ownership, acquire, Request, owned_by}
use codex_bridge.Locks.Owner.{
  recover_row, recover_rows, one_or, claim_owner, heartbeat_lock, release, Launch,
  reserve_next_launch, recover_stale, sync_request, repository_operation_lock,
}
use codex_bridge.Locks.Validity.{
  IsValid, drop_locks-IsValid, bump-IsValid, heartbeat_lock-IsValid, release-IsValid,
  bind_in_connection-IsValid, bind_run_ownership-IsValid, claim_owner-IsValid,
  reserve_next_launch-IsValid, acquire-IsValid,
}

pub recover_row-IsValid :
    (os : System) (l : Lock) (removed : ℕ) (db : Database)
    → IsValid db
    → IsValid (recover_row os l removed db).1
unfolding recover_row
recover_row-IsValid os l removed db v =
    let b =
      bind_in_connection-IsValid l.repo_name l.run_id l.owner_token (one_or l.lease_generation) db
        v in
    let d =
      drop_locks-IsValid _ b l.repo_name
        (owned_by l.run_id l.owner_token (one_or l.lease_generation)) in
    ground (arith, b, d, bump-IsValid _ d l.run_id)

recover_rows-IsValid :
    (os : System) (ls : List Lock) (removed : ℕ) (db : Database)
    → IsValid db
    → IsValid (recover_rows os ls removed db).1
unfolding recover_rows
recover_rows-IsValid os [] removed db v = v
recover_rows-IsValid os (l ∷ rest) removed db v =
    let w = recover_row-IsValid os l removed db v in
    elim (recover_row os l removed db).0
      as (λ r.
        IsValid
          (elim r as (λ _. Result ℕ × Database) [
            | ok n ↦ recover_rows os rest n (recover_row os l removed db).1
            | raised e ↦ (raised e, (recover_row os l removed db).1)
          ]).1) [
            | ok n ↦ recover_rows-IsValid os rest n (recover_row os l removed db).1 w
            | raised e ↦ w
          ]

pub recover_stale-IsValid :
    (os : System) (db : Database) → IsValid db → IsValid (recover_stale os db).1
unfolding recover_stale
recover_stale-IsValid os db v = ground (arith, recover_rows-IsValid os db.locks 0 db v)

-- The operations on the locks, one step each.
pub data LockCall : Type 0 where
  take : (Object → String) → Request → String → LockCall
  bind : String → String → String → ℕ → LockCall
  own : String → String → ℕ → String → Option ℕ → String → LockCall
  beat : String → String → Option String → Option ℕ → String → LockCall
  free : String → String → Option String → Option ℕ → LockCall
  relaunch : Launch → String → LockCall
  sweep : LockCall

pub call : System → LockCall → Database → Database
call os (take digest q now) db = (acquire os digest q now db).1
call os (bind repo_name run_id token generation) db =
    (bind_run_ownership repo_name run_id token generation db).1
call os (own repo_name run_id owner_pid token generation now) db =
    (claim_owner repo_name run_id owner_pid token generation now db).1
call os (beat repo_name run_id token generation now) db =
    (heartbeat_lock repo_name run_id token generation now db).1
call os (free repo_name run_id token generation) db =
    (release repo_name run_id token generation db).1
call os (relaunch q now) db = (reserve_next_launch q now db).1
call os sweep db = (recover_stale os db).1

-- Every operation on the locks, successful or not, keeps unique keys: one lock for each repository
-- and one run for each identifier.
call-IsValid : (os : System) (c : LockCall) (db : Database) → IsValid db → IsValid (call os c db)
unfolding call
call-IsValid os (take digest q now) db v = acquire-IsValid os digest q now db v
call-IsValid os (bind repo_name run_id token generation) db v =
    bind_run_ownership-IsValid repo_name run_id token generation db v
call-IsValid os (own repo_name run_id owner_pid token generation now) db v =
    claim_owner-IsValid repo_name run_id owner_pid token generation now db v
call-IsValid os (beat repo_name run_id token generation now) db v =
    heartbeat_lock-IsValid repo_name run_id token generation now db v
call-IsValid os (free repo_name run_id token generation) db v =
    release-IsValid repo_name run_id token generation db v
call-IsValid os (relaunch q now) db v = reserve_next_launch-IsValid q now db v
call-IsValid os sweep db v = recover_stale-IsValid os db v

-- A block that keeps the keys of both tables, whether it returns or raises, keeps them under the
-- lock of its repository too.
repository_operation_lock-IsValid :
    {A : Type 0} (os : System) (digest : Object → String) (repo_name tool : String) (input : Object)
    (owner_id : String) (pid : ℕ) (now : String) (body : Action Database A) (db : Database)
    → IsValid db
    → ((d : Database) → IsValid d → IsValid (body d).1)
    → IsValid (repository_operation_lock os digest repo_name tool input owner_id pid now body db).1
unfolding repository_operation_lock
repository_operation_lock-IsValid os digest repo_name tool input owner_id pid now body db v keeps =
    let a = acquire-IsValid os digest (sync_request repo_name tool input owner_id pid) now db v in
    let b = keeps _ a in ground (arith, a, b, release-IsValid repo_name owner_id none none _ b)
