-- ===== src/Locks/Eviction.antt =====
-- soma/operation_locks.py: a request that saw a stale lock, and what it evicts.
use mathlib.Core.Path.{subst}
use codex_bridge.Prelude.{
  String, ◌≡◌, ◌≢◌, refl, sym, ap, ◌∙◌, true, none, some, string_eq, nat_eq, arith, ok,
}
use codex_bridge.Prelude.Table.{find, keyed, key-find, count-find, find-delete, find-update_other}
use codex_bridge.Prelude.Text.{Object}
use codex_bridge.Runs.Model.{Run, Lock, Database, run_key, lock_key}
use codex_bridge.Locks.Processes.{System}
use codex_bridge.Locks.Ops.{
  bumped, bound, any_row, drop_locks, bump_run_state_version, evict, look, take_seen, acquire_seen,
  stale_lock, acquire, new_lock, acquired, Request, is_stale,
}
use codex_bridge.Locks.Validity.{IsValid, evict-IsValid, acquire-IsValid}
use codex_bridge.Locks.Acquire.{with_lock, take_free, acquire_free}

-- The row that is there now need not be the one that was seen.
module _ (os : System) (digest : Object → String) (q : Request) (now : String) (db : Database)
    (l there : Lock) (v : IsValid db) (f : find lock_key q.repo_name db.locks ≡ some there) where
  abbrev evicted : Database
  evicted = (bump_run_state_version l.run_id (drop_locks (keyed lock_key q.repo_name any_row) db)).1

  evict_lem : evict os digest q.repo_name l db ≡ evicted
  unfolding evict nat_eq
  evict_lem = ground (arith, f, count-find lock_key q.repo_name any_row db.locks v.unique_locks)

  evicted-free : find lock_key q.repo_name evicted.locks ≡ none
  unfolding bump_run_state_version
  evicted-free =
      find-delete lock_key q.repo_name q.repo_name any_row db.locks v.unique_locks
      ∙ ground (arith, f, key-find lock_key q.repo_name db.locks there f)

  evicted-run : (j : String) → j ≢ l.run_id → find run_key j evicted.runs ≡ find run_key j db.runs
  unfolding bump_run_state_version
  evicted-run j other =
      find-update_other run_key l.run_id any_row bumped (λ r. refl) j db.runs other

  take_stale :
      take_seen os digest (stale_lock l) q now db ≡ (ok acquired, with_lock os digest q now evicted)
  unfolding take_seen look
  take_stale =
      ground (arith, evict_lem, evicted-free, take_free os digest q now evicted evicted-free)

  acquire_seen_lem :
      acquire_seen os digest (stale_lock l) q now db ≡ acquire os digest q now evicted
  unfolding acquire acquire_seen
  acquire_seen_lem = ground (arith, take_stale, take_free os digest q now evicted evicted-free)

  acquire_seen_stale :
      (r : Run)
      → find run_key q.run_id db.runs ≡ some r
      → q.run_id ≢ l.run_id
      → let (result, after) = acquire_seen os digest (stale_lock l) q now db in
        (result ≡ ok acquired)
        × (find lock_key q.repo_name after.locks ≡ some (bound (new_lock os digest q now)))
        × (find run_key q.run_id after.runs ≡ some (bumped r))
  acquire_seen_stale r g other =
      let valid = evict-IsValid os digest q.repo_name l db v in
      let won =
        acquire_free os digest q now evicted r (rw (sym evict_lem) valid) evicted-free
          (evicted-run q.run_id other ∙ g) in
      rw acquire_seen_lem (won.0, won.1, won.2)

look-stale :
    (os : System) (digest : Object → String) (q : Request) (db : Database) (l : Lock)
    → find lock_key q.repo_name db.locks ≡ some l
    → is_stale os db l ≡ true
    → look os digest q db db ≡ stale_lock l
unfolding look
look-stale os digest q db l f stale = ground (arith, f, stale)

-- With unique keys, of two requests for a repository that both saw its stale lock both get the
-- lock, where their runs exist and neither is the run of the stale lock: the first one's lock is
-- found bound and its run one version higher, and then the second, which writes with what it had
-- seen before, gets the lock as well, and the lock that is found is its own, bound.
pub acquire_seen-evicts :
    (os : System) (digest : Object → String) (q q' : Request) (now now' : String) (db : Database)
    (l : Lock) (r r' : Run)
    → IsValid db
    → q'.repo_name ≡ q.repo_name
    → find lock_key q.repo_name db.locks ≡ some l
    → is_stale os db l ≡ true
    → find run_key q.run_id db.runs ≡ some r
    → find run_key q'.run_id (acquire os digest q now db).1.runs ≡ some r'
    → q.run_id ≢ l.run_id
    → q'.run_id ≢ l.run_id
    → let (first, between) = acquire os digest q now db in
      let (second, after) = acquire_seen os digest (look os digest q' db db) q' now' between in
      (first ≡ ok acquired)
      × (find lock_key q.repo_name between.locks ≡ some (bound (new_lock os digest q now)))
      × (find run_key q.run_id between.runs ≡ some (bumped r))
      × (second ≡ ok acquired)
      × (find lock_key q.repo_name after.locks ≡ some (bound (new_lock os digest q' now')))
unfolding acquire
acquire_seen-evicts os digest q q' now now' db l r r' v same f stale g g' other other' =
    let seen = look-stale os digest q db l f stale in
    let seen' = look-stale os digest q' db l (ap (λ k. find lock_key k db.locks) same ∙ f) stale in
    let first = acquire_seen_stale os digest q now db l l v f r g other in
    let between = (acquire_seen os digest (stale_lock l) q now db).1 in
    let w : IsValid between =
      subst (λ s. IsValid (acquire_seen os digest s q now db).1) seen
        (acquire-IsValid os digest q now db v) in
    let found' : find lock_key q'.repo_name between.locks
        ≡ some (bound (new_lock os digest q now)) =
      ap (λ k. find lock_key k between.locks) same ∙ first.1 in
    let runs : find run_key q'.run_id between.runs ≡ some r' =
      sym (ap (λ s. find run_key q'.run_id (acquire_seen os digest s q now db).1.runs) seen) ∙ g' in
    let second =
      acquire_seen_stale os digest q' now' between l (bound (new_lock os digest q now)) w found' r'
        runs other' in
    let after = (acquire_seen os digest (stale_lock l) q' now' between).1 in
    rw (seen, seen')
      (
        first.0,
        first.1,
        first.2,
        second.0,
        ap (λ k. find lock_key k after.locks) (sym same) ∙ second.1,
      )
