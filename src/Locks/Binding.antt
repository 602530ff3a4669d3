-- ===== src/Locks/Binding.antt =====
-- soma/operation_locks.py: the version of a run is raised once for each lock.
use mathlib.Core.Option
use codex_bridge.Prelude.{
  ℕ, String, ◌≡◌, ◌≢◌, refl, ◌∙◌, Bool, true, false, Option, none, some, string_eq, nat_eq, arith,
  ok, if◌then◌else◌,
}
use codex_bridge.Prelude.Table.{find, Unique, keyed, count_where, count-find, find-update, key-find}
use codex_bridge.Runs.Model.{Run, Lock, Database, run_key, lock_key}
use codex_bridge.Locks.Ops.{
  bumped, bound, any_row, write_locks, bump_run_state_version, bind_in_connection,
  bind_run_ownership, unbound_of, owned_by, select_lock,
}
use codex_bridge.Locks.Validity.{IsValid}

-- A bump raises the version of the run by one, and changes no other run.
pub find-bump :
    (run_id j : String) (db : Database)
    → find run_key j (bump_run_state_version run_id db).1.runs
      ≡ Option.map
          (λ r. if keyed run_key run_id any_row r then bumped r else r)
          (find run_key j db.runs)
unfolding bump_run_state_version
find-bump run_id j db = find-update run_key run_id any_row bumped (λ r. refl) j db.runs

pub bump-met :
    (run_id : String) (db : Database)
    → Unique run_key db.runs
    → (bump_run_state_version run_id db).0
      ≡ elim (find run_key run_id db.runs) [ none ↦ false | some _ ↦ true ]
unfolding bump_run_state_version nat_eq
bump-met run_id db u = ground (arith, count-find run_key run_id any_row db.runs u)

pub locks-bump :
    (run_id : String) (db : Database) → (bump_run_state_version run_id db).1.locks ≡ db.locks
unfolding bump_run_state_version
locks-bump run_id db = refl

-- The rows that the binding updates.
abbrev unbound_rows : String → String → String → ℕ → Lock → Bool
unbound_rows repo_name run_id token generation =
    keyed lock_key repo_name (unbound_of run_id token generation)

module _ (repo_name run_id token : String) (generation : ℕ) (db : Database) (v : IsValid db)
    (l : Lock) (f : find lock_key repo_name db.locks ≡ some l)
    (owned : owned_by run_id token generation l ≡ true) where
  abbrev pub binding : Database
  binding =
      write_locks (unbound_rows repo_name run_id token generation) bound
        (bump_run_state_version run_id db).1

  count-unbound :
      l.run_state_version_bound ≡ false
      → count_where
          (unbound_rows repo_name run_id token generation)
          (bump_run_state_version run_id db).1.locks
        ≡ 1
  count-unbound fresh = rw (locks-bump run_id db) (
      count-find lock_key repo_name (unbound_of run_id token generation) db.locks v.unique_locks
      ∙ ground (arith, f))

  bind_fresh :
      (r : Run)
      → l.run_state_version_bound ≡ false
      → find run_key run_id db.runs ≡ some r
      → bind_in_connection repo_name run_id token generation db ≡ (ok true, binding)
  unfolding bind_in_connection select_lock nat_eq
  bind_fresh r fresh g = ground (arith, count-unbound fresh, bump-met run_id db v.unique_runs)

  bind_bound :
      l.run_state_version_bound ≡ true
      → bind_in_connection repo_name run_id token generation db ≡ (ok true, db)
  unfolding bind_in_connection select_lock
  bind_bound old = ground arith

  pub lock-binding :
      l.run_state_version_bound ≡ false → find lock_key repo_name binding.locks ≡ some (bound l)
  lock-binding fresh = rw (locks-bump run_id db) (
      find-update lock_key repo_name (unbound_of run_id token generation) bound (λ x. refl)
        repo_name db.locks
      ∙ ground (arith, f, key-find lock_key repo_name db.locks l f))

  pub atomic_fresh :
      (r : Run)
      → l.run_state_version_bound ≡ false
      → find run_key run_id db.runs ≡ some r
      → bind_run_ownership repo_name run_id token generation db ≡ (ok true, binding)
  unfolding bind_run_ownership
  atomic_fresh r fresh g = ground (arith, bind_fresh r fresh g)

  pub run-binding :
      (r : Run)
      → find run_key run_id db.runs ≡ some r
      → find run_key run_id binding.runs ≡ some (bumped r)
  run-binding r g =
      find-bump run_id run_id db ∙ ground (arith, g, key-find run_key run_id db.runs r g)

  pub locks-binding_other :
      (j : String) → j ≢ repo_name → find lock_key j binding.locks ≡ find lock_key j db.locks
  locks-binding_other j other = rw (locks-bump run_id db) (
      find-update lock_key repo_name (unbound_of run_id token generation) bound (λ x. refl) j
        db.locks
      ∙ kept (find lock_key j db.locks) refl)
    where
      kept :
          (o : Option Lock)
          → find lock_key j db.locks ≡ o
          → Option.map
              (λ x. if unbound_rows repo_name run_id token generation x then bound x else x)
              o
            ≡ o
      kept none e = refl
      kept (some x) e = ground (arith, key-find lock_key j db.locks x e)

bind_again :
    (repo_name run_id token : String) (generation : ℕ) (db : Database) (l : Lock)
    → find lock_key repo_name db.locks ≡ some l
    → owned_by run_id token generation l ≡ true
    → l.run_state_version_bound ≡ true
    → bind_run_ownership repo_name run_id token generation db ≡ (ok true, db)
unfolding bind_run_ownership bind_in_connection select_lock
bind_again repo_name run_id token generation db l f owned old = ground arith

-- With unique keys the version of a run is raised once for a lock: the first binding of an unbound
-- lock by its owner, an existing run, raises it and marks the lock, and the next one returns true
-- and changes nothing.
bind_once :
    (repo_name run_id token : String) (generation : ℕ) (db : Database) (l : Lock) (r : Run)
    → IsValid db
    → find lock_key repo_name db.locks ≡ some l
    → owned_by run_id token generation l ≡ true
    → l.run_state_version_bound ≡ false
    → find run_key run_id db.runs ≡ some r
    → let (result, after) = bind_run_ownership repo_name run_id token generation db in
      (result ≡ ok true)
      × (find run_key run_id after.runs ≡ some (bumped r))
      × (find lock_key repo_name after.locks ≡ some (bound l))
      × (bind_run_ownership repo_name run_id token generation after ≡ (ok true, after))
bind_once repo_name run_id token generation db l r v f owned fresh g =
    let e = atomic_fresh repo_name run_id token generation db v l f owned r fresh g in
    let b = binding repo_name run_id token generation db v l f owned in
    let lb = lock-binding repo_name run_id token generation db v l f owned fresh in
    rw e (
      refl,
      run-binding repo_name run_id token generation db v l f owned r g,
      lb,
      bind_again repo_name run_id token generation b (bound l) lb owned refl,
    )
