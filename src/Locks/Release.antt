-- ===== src/Locks/Release.antt =====
-- soma/operation_locks.py: what a release does to the lock, and to the version of the run.
use mathlib.Core.Option
use codex_bridge.Prelude.{
  ℕ, String, ◌≡◌, ◌≢◌, refl, ◌∙◌, Bool, true, false, Option, none, some, ◌==◌, string_eq, nat_eq,
  arith, ok, Option-cases, inl, inr, if◌then◌else◌,
}
use codex_bridge.Prelude.Table.{
  find, keyed, count_where, count-find, find-update, find-delete, find-delete_other,
  delete_where_of_count, key-find,
}
use codex_bridge.Runs.Model.{Lock, Database, run_key, lock_key}
use codex_bridge.Locks.Ops.{
  bumped, any_row, bump_run_state_version, drop_locks, matches, write_runs,
}
use codex_bridge.Locks.Owner.{release}
use codex_bridge.Locks.Validity.{IsValid}

module _ (repo_name run_id : String) (token : Option String) (generation : Option ℕ) (db : Database)
    (v : IsValid db) where
  abbrev rows : Lock → Bool
  rows = keyed lock_key repo_name (matches run_id token generation)

  abbrev released : Database
  released = write_runs (keyed run_key run_id any_row) bumped (drop_locks rows db)

  release_owned :
      (l : Lock)
      → find lock_key repo_name db.locks ≡ some l
      → matches run_id token generation l ≡ true
      → release repo_name run_id token generation db ≡ (ok true, released)
  unfolding release bump_run_state_version nat_eq
  release_owned l f owned = ground (
    arith,
    count-find lock_key repo_name (matches run_id token generation) db.locks v.unique_locks,
  )

  -- With unique keys, the owner of a lock releases it: the repository is free, the version of the
  -- run that is named is one higher, and other locks and runs stay.
  pub release_lem :
      (l : Lock)
      → find lock_key repo_name db.locks ≡ some l
      → matches run_id token generation l ≡ true
      → let (result, after) = release repo_name run_id token generation db in
        (result ≡ ok true)
        × (find lock_key repo_name after.locks ≡ none)
        × ((j : String) → j ≢ repo_name → find lock_key j after.locks ≡ find lock_key j db.locks)
        × ((j : String)
            → find run_key j after.runs
              ≡ Option.map
                  (λ r. if r.run_id == run_id then bumped r else r)
                  (find run_key j db.runs))
  release_lem l f owned = rw (release_owned l f owned) (
    refl,
    find-delete lock_key repo_name repo_name (matches run_id token generation) db.locks
          v.unique_locks
        ∙ ground (arith, key-find lock_key repo_name db.locks l f),
    λ j other.
        find-delete_other lock_key repo_name j (matches run_id token generation) db.locks other,
    λ j. find-update run_key run_id any_row bumped (λ r. refl) j db.runs ∙ ground arith,
  )

  -- With unique keys, a release that does not match the lock of the repository, or finds none,
  -- returns false and changes nothing.
  release_foreign :
      ((l : Lock)
        → find lock_key repo_name db.locks ≡ some l
        → matches run_id token generation l ≡ false)
      → release repo_name run_id token generation db ≡ (ok false, db)
  unfolding release nat_eq
  release_foreign foreign =
      let none_met : count_where rows db.locks ≡ 0 =
        count-find lock_key repo_name (matches run_id token generation) db.locks v.unique_locks
        ∙ elim (Option-cases (find lock_key repo_name db.locks)) [
          | inl missing ↦ ground arith
          | inr p ↦ ground (arith, foreign p.0 p.1)
        ] in
      ground (arith, none_met, delete_where_of_count rows db.locks none_met)
