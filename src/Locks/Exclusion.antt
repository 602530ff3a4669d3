-- ===== src/Locks/Exclusion.antt =====
-- soma/operation_locks.py: the block of `repository_operation_lock` runs alone.

use codex_bridge.Prelude.{
  ℕ, String, ◌≡◌, refl, ap, ◌∙◌, true, false, ◌&&◌, none, some, ◌==◌, string_eq, nat_eq, arith, ok,
}
use codex_bridge.Prelude.Table.{find}
use codex_bridge.Prelude.Text.{Object}
use codex_bridge.Runs.Model.{Lock, Database, run_key, lock_key}
use codex_bridge.Locks.Processes.{System, process_is_running}
use codex_bridge.Locks.Ops.{
  bump_run_state_version, select_lock, owned_by, bind_in_connection, bind_run_ownership,
  bind_acquired, look, take_seen, acquire, new_lock, acquired, refused, Request, is_stale,
}
use codex_bridge.Locks.Owner.{sync_request}
use codex_bridge.Locks.Validity.{IsValid}
use codex_bridge.Locks.Binding.{find-bump, bump-met, locks-bump}
use codex_bridge.Locks.Acquire.{
  take_free, with_lock, with_lock-IsValid, find-with_lock, new_lock-owned,
}

-- A lock whose owner is no run stays unbound.
bind_unknown :
    (repo_name run_id token : String) (generation : ℕ) (db : Database) (l : Lock)
    → IsValid db
    → find lock_key repo_name db.locks ≡ some l
    → owned_by run_id token generation l ≡ true
    → l.run_state_version_bound ≡ false
    → find run_key run_id db.runs ≡ none
    → bind_run_ownership repo_name run_id token generation db
      ≡ (ok false, (bump_run_state_version run_id db).1)
unfolding bind_run_ownership bind_in_connection select_lock
bind_unknown repo_name run_id token generation db l v f owned fresh missing =
    ground (arith, bump-met run_id db v.unique_runs)

module _ (os : System) (digest : Object → String) (q : Request) (now : String) (db : Database)
    (v : IsValid db) (free : find lock_key q.repo_name db.locks ≡ none)
    (missing : find run_key q.run_id db.runs ≡ none) where
  abbrev entered : Database
  entered = (bump_run_state_version q.run_id (with_lock os digest q now db)).1

  entered-lock : find lock_key q.repo_name entered.locks ≡ some (new_lock os digest q now)
  entered-lock =
      ap (find lock_key q.repo_name) (locks-bump q.run_id (with_lock os digest q now db))
      ∙ find-with_lock os digest q now db q.repo_name
      ∙ ground arith

  entered-run : find run_key q.run_id entered.runs ≡ none
  entered-run = find-bump q.run_id q.run_id (with_lock os digest q now db) ∙ ground (arith, missing)

  acquire-entered : acquire os digest q now db ≡ (ok acquired, entered)
  unfolding acquire bind_acquired new_lock
  acquire-entered = ground (
    arith,
    take_free os digest q now db free,
    bind_unknown q.repo_name q.run_id q.owner_token q.lease_generation
        (with_lock os digest q now db) (new_lock os digest q now)
        (with_lock-IsValid os digest q now db free v)
        (find-with_lock os digest q now db q.repo_name ∙ ground arith)
        (new_lock-owned os digest q now) refl missing,
  )

acquire_refused :
    (os : System) (digest : Object → String) (q : Request) (now : String) (db : Database) (l : Lock)
    → find lock_key q.repo_name db.locks ≡ some l
    → is_stale os db l ≡ false
    → acquire os digest q now db
      ≡ (ok (refused (l.tool == q.tool && l.input_fingerprint == digest q.normalized_input)), db)
unfolding acquire look take_seen
acquire_refused os digest q now db l f held = ground arith

-- The owner of the lock is no run, and its process is alive.
is_stale_of_alive :
    (os : System) (db : Database) (l : Lock) (pid : ℕ)
    → find run_key l.run_id db.runs ≡ none
    → l.owner_pid ≡ some pid
    → process_is_running os pid ≡ true
    → is_stale os db l ≡ false
unfolding is_stale
is_stale_of_alive os db l pid missing owner alive = ground (arith, missing, owner, alive)

-- With unique keys, a synchronous operation whose owner is no run gets the lock of a free
-- repository. In every state in which the lock of the repository is still that owner's, the owner
-- is still no run and its process is alive, every request that begins there for the repository is
-- refused and changes nothing; it is told to be a duplicate exactly if it has the tool and the
-- fingerprint of the lock.
pub acquire_sync-excludes :
    (os : System) (digest : Object → String) (repo_name tool : String) (input : Object)
    (owner_id : String) (pid : ℕ) (now : String) (db : Database) (q : Request) (later : String)
    (held : Database) (l : Lock)
    → IsValid db
    → find lock_key repo_name db.locks ≡ none
    → find run_key owner_id db.runs ≡ none
    → process_is_running os pid ≡ true
    → q.repo_name ≡ repo_name
    → find lock_key repo_name held.locks ≡ some l
    → l.run_id ≡ owner_id
    → l.owner_pid ≡ some pid
    → find run_key owner_id held.runs ≡ none
    → let p = sync_request repo_name tool input owner_id pid in
      let (result, after) = acquire os digest p now db in
      (result ≡ ok acquired)
      × (find lock_key repo_name after.locks ≡ some (new_lock os digest p now))
      × (find run_key owner_id after.runs ≡ none)
      × (acquire os digest q later held ≡ (
        ok (refused (l.tool == q.tool && l.input_fingerprint == digest q.normalized_input)),
        held,
      ))
acquire_sync-excludes os digest repo_name tool input owner_id pid now db q later held l v free
      missing alive same there owner owner_pid unknown =
    let p = sync_request repo_name tool input owner_id pid in
    let fresh =
      is_stale_of_alive os held l pid (ap (λ k. find run_key k held.runs) owner ∙ unknown) owner_pid
        alive in
    rw (acquire-entered os digest p now db v free missing) (
      refl,
      entered-lock os digest p now db v free missing,
      entered-run os digest p now db v free missing,
      acquire_refused os digest q later held l (ap (λ k. find lock_key k held.locks) same ∙ there)
          fresh,
    )
