-- ===== src/Locks/Acquire.antt =====
-- soma/operation_locks.py: who gets a lock, and the version of its run.

use codex_bridge.Prelude.{
  String, ◌≡◌, ◌≢◌, refl, ◌∙◌, true, false, ◌&&◌, none, some, ◌∷◌, ◌==◌, string_eq, nat_eq, arith,
  ok, if◌then◌else◌,
}
use codex_bridge.Prelude.Table.{find, insert}
use codex_bridge.Prelude.Text.{Object}
use codex_bridge.Runs.Model.{Run, Lock, Database, run_key, lock_key, is_terminal}
use codex_bridge.Locks.Processes.{System}
use codex_bridge.Locks.Ops.{
  bumped, bound, bind_run_ownership, insert_lock, look, take_seen, bind_acquired, acquire, new_lock,
  acquired, refused, Request, owned_by, is_stale,
}
use codex_bridge.Locks.Validity.{IsValid}
use codex_bridge.Locks.Binding.{
  binding, lock-binding, atomic_fresh, run-binding, locks-binding_other,
}

-- The lock of a run that has not ended is not stale.
pub is_stale_of_live :
    (os : System) (db : Database) (l : Lock) (r : Run)
    → find run_key l.run_id db.runs ≡ some r
    → is_terminal r.status ≡ false
    → is_stale os db l ≡ false
unfolding is_stale
is_stale_of_live os db l r f live = ground arith

-- While a repository is locked for a run that has not ended, every request for the lock is refused
-- and changes nothing; it is told to be a duplicate exactly if it has the tool and the fingerprint
-- of the holder.
pub acquire_held :
    (os : System) (digest : Object → String) (q : Request) (now : String) (db : Database) (l : Lock)
    (r : Run)
    → find lock_key q.repo_name db.locks ≡ some l
    → find run_key l.run_id db.runs ≡ some r
    → is_terminal r.status ≡ false
    → acquire os digest q now db
      ≡ (ok (refused (l.tool == q.tool && l.input_fingerprint == digest q.normalized_input)), db)
unfolding acquire look take_seen
acquire_held os digest q now db l r f g live = ground (arith, is_stale_of_live os db l r g live)

-- The database after the first transaction of a request for a free repository.
abbrev pub with_lock :
    (os : System) (digest : Object → String) → Request → String → Database → Database
with_lock os digest q now db = record db { locks = new_lock os digest q now ∷ db.locks }

pub take_free :
    (os : System) (digest : Object → String) (q : Request) (now : String) (db : Database)
    → find lock_key q.repo_name db.locks ≡ none
    → take_seen os digest (look os digest q db db) q now db
      ≡ (ok acquired, with_lock os digest q now db)
unfolding take_seen look insert_lock insert new_lock
take_free os digest q now db free = ground arith

pub with_lock-IsValid :
    (os : System) (digest : Object → String) (q : Request) (now : String) (db : Database)
    → find lock_key q.repo_name db.locks ≡ none
    → IsValid db
    → IsValid (with_lock os digest q now db)
unfolding new_lock
with_lock-IsValid os digest q now db free v = record {
  unique_runs = v.unique_runs;
  unique_locks = (free, v.unique_locks);
}

pub find-with_lock :
    (os : System) (digest : Object → String) (q : Request) (now : String) (db : Database)
    (j : String)
    → find lock_key j (with_lock os digest q now db).locks
      ≡ (if q.repo_name == j then some (new_lock os digest q now) else find lock_key j db.locks)
unfolding find new_lock
find-with_lock os digest q now db j = refl

acquire_steps :
    (os : System) (digest : Object → String) (q : Request) (now : String) (db after : Database)
    → find lock_key q.repo_name db.locks ≡ none
    → bind_run_ownership q.repo_name q.run_id q.owner_token q.lease_generation
        (with_lock os digest q now db)
      ≡ (ok true, after)
    → acquire os digest q now db ≡ (ok acquired, after)
unfolding acquire bind_acquired
acquire_steps os digest q now db after free e = ground (arith, take_free os digest q now db free, e)

pub new_lock-owned :
    (os : System) (digest : Object → String) (q : Request) (now : String)
    → owned_by q.run_id q.owner_token q.lease_generation (new_lock os digest q now) ≡ true
unfolding new_lock
new_lock-owned os digest q now = ground arith

-- With unique keys, a request for a free repository by an existing run gets the lock: the lock
-- that is found is the requester's, bound, the version of its run is one higher, and the locks of
-- other repositories stay.
pub acquire_free :
    (os : System) (digest : Object → String) (q : Request) (now : String) (db : Database) (r : Run)
    → IsValid db
    → find lock_key q.repo_name db.locks ≡ none
    → find run_key q.run_id db.runs ≡ some r
    → let (result, after) = acquire os digest q now db in
      (result ≡ ok acquired)
      × (find lock_key q.repo_name after.locks ≡ some (bound (new_lock os digest q now)))
      × (find run_key q.run_id after.runs ≡ some (bumped r))
      × ((j : String) → j ≢ q.repo_name → find lock_key j after.locks ≡ find lock_key j db.locks)
unfolding new_lock
acquire_free os digest q now db r v free g =
    let d = with_lock os digest q now db in
    let l = new_lock os digest q now in
    let w = with_lock-IsValid os digest q now db free v in
    let f : find lock_key q.repo_name d.locks ≡ some l =
      find-with_lock os digest q now db q.repo_name ∙ ground arith in
    let o = new_lock-owned os digest q now in
    let e = atomic_fresh q.repo_name q.run_id q.owner_token q.lease_generation d w l f o r refl g in
    rw
      (acquire_steps os digest q now db
        (binding q.repo_name q.run_id q.owner_token q.lease_generation d w l f o) free e)
      (
        refl,
        lock-binding q.repo_name q.run_id q.owner_token q.lease_generation d w l f o refl,
        run-binding q.repo_name q.run_id q.owner_token q.lease_generation d w l f o r g,
        λ j other.
            locks-binding_other q.repo_name q.run_id q.owner_token q.lease_generation d w l f o j
              other
            ∙ find-with_lock os digest q now db j
            ∙ ground arith,
      )
