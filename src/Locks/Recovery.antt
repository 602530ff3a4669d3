-- ===== src/Locks/Recovery.antt =====
-- soma/operation_locks.py: the removal of stale locks spares the lock of a run that has not ended.
use mathlib.Core.Option
use codex_bridge.Prelude.{
  ℕ, String, ◌≡◌, refl, ap, ◌∙◌, Bool, true, false, some, List, [], ◌∷◌, ◌==◌, string_eq, nat_eq,
  arith, ok, raised, Result, Bool-cases, inl, inr, if◌then◌else◌,
}
use codex_bridge.Prelude.Table.{find, keyed, find-update, find-delete}
use codex_bridge.Runs.Model.{Run, Lock, Database, run_key, lock_key, is_terminal}
use codex_bridge.Locks.Processes.{System}
use codex_bridge.Locks.Ops.{
  bumped, bound, any_row, write_locks, drop_locks, bump_run_state_version, bind_in_connection,
  unbound_of, owned_by, is_stale,
}
use codex_bridge.Locks.Owner.{one_or, recover_row, recover_rows, recover_stale}
use codex_bridge.Locks.Validity.{IsValid, bind_in_connection-IsValid}
use codex_bridge.Locks.Binding.{find-bump}
use codex_bridge.Locks.Acquire.{is_stale_of_live}
use codex_bridge.Locks.Calls.{recover_row-IsValid}

-- The repository is locked for the run, and the run has not ended.
pub record IsLive (repo_name run_id : String) (db : Database) : Type 0 where
  pub lock : Lock
  pub run : Run
  pub lock_found : find lock_key repo_name db.locks ≡ some lock
  pub lock_run : lock.run_id ≡ run_id
  pub run_found : find run_key run_id db.runs ≡ some run
  pub run_lives : is_terminal run.status ≡ false

abbrev bumped_if : String → Run → Run
bumped_if id r = if keyed run_key id any_row r then bumped r else r

status-bumped_if : (id : String) (r : Run) → (bumped_if id r).status ≡ r.status
status-bumped_if id r = elim (Bool-cases (keyed run_key id any_row r)) [
  | inl meets ↦ rw meets refl
  | inr misses ↦ rw misses refl
]

module _ (repo_name run_id : String) (db : Database) (live : IsLive repo_name run_id db) where
  bump-IsLive : (id : String) → IsLive repo_name run_id (bump_run_state_version id db).1
  unfolding bump_run_state_version
  bump-IsLive id = record {
    lock = live.lock;
    run = bumped_if id live.run;
    lock_found = live.lock_found;
    lock_run = live.lock_run;
    run_found = find-bump id run_id db ∙ ap (Option.map (bumped_if id)) live.run_found;
    run_lives = ap is_terminal (status-bumped_if id live.run) ∙ live.run_lives;
  }

  abbrev bound_if : (Lock → Bool) → Lock → Lock
  bound_if p l = if p l then bound l else l

  run-bound_if : (p : Lock → Bool) (l : Lock) → (bound_if p l).run_id ≡ l.run_id
  run-bound_if p l = elim (Bool-cases (p l)) [
    | inl meets ↦ rw meets refl
    | inr misses ↦ rw misses refl
  ]

  bound-IsLive :
      (k : String) (g : Lock → Bool)
      → IsLive repo_name run_id (write_locks (keyed lock_key k g) bound db)
  bound-IsLive k g = record {
    lock = bound_if (keyed lock_key k g) live.lock;
    run = live.run;
    lock_found =
        find-update lock_key k g bound (λ l. refl) repo_name db.locks
        ∙ ap (Option.map (bound_if (keyed lock_key k g))) live.lock_found;
    lock_run = run-bound_if (keyed lock_key k g) live.lock ∙ live.lock_run;
    run_found = live.run_found;
    run_lives = live.run_lives;
  }

  -- The lock of the repository does not belong to a row that is stale.
  spared :
      (os : System) (l : Lock) (token : String) (generation : ℕ)
      → is_stale os db l ≡ true
      → owned_by l.run_id token generation live.lock ≡ false
  spared os l token generation stale = elim (Bool-cases (live.lock.run_id == l.run_id)) [
    | inr other ↦ ground arith
    | inl same ↦
        ground
          (arith, is_stale_of_live os db l live.run, live.run_found, live.lock_run, live.run_lives)
  ]

  drop-IsLive :
      (os : System) (l : Lock) (k token : String) (generation : ℕ)
      → IsValid db
      → is_stale os db l ≡ true
      → IsLive repo_name run_id
          (drop_locks (keyed lock_key k (owned_by l.run_id token generation)) db)
  drop-IsLive os l k token generation v stale = record {
    lock = live.lock;
    run = live.run;
    lock_found =
        find-delete lock_key k repo_name (owned_by l.run_id token generation) db.locks
          v.unique_locks
        ∙ ground (arith, live.lock_found, spared os l token generation stale);
    lock_run = live.lock_run;
    run_found = live.run_found;
    run_lives = live.run_lives;
  }

bind-IsLive :
    (repo_name run_id k id token : String) (generation : ℕ) (db : Database)
    → IsLive repo_name run_id db
    → IsLive repo_name run_id (bind_in_connection k id token generation db).1
unfolding bind_in_connection
bind-IsLive repo_name run_id k id token generation db live =
    let b = bump-IsLive repo_name run_id db live id in
    let w = bound-IsLive repo_name run_id _ b k (unbound_of id token generation) in
    ground (arith, b, w)

recover_row-IsLive :
    (repo_name run_id : String) (os : System) (l : Lock) (removed : ℕ) (db : Database)
    → IsValid db
    → IsLive repo_name run_id db
    → IsLive repo_name run_id (recover_row os l removed db).1
unfolding recover_row
recover_row-IsLive repo_name run_id os l removed db v live =
    let k = one_or l.lease_generation in
    let b = bind-IsLive repo_name run_id l.repo_name l.run_id l.owner_token k db live in
    let w = bind_in_connection-IsValid l.repo_name l.run_id l.owner_token k db v in
    let after = (bind_in_connection l.repo_name l.run_id l.owner_token k db).1 in
    elim (Bool-cases (is_stale os after l)) [
      | inr alive ↦ ground (arith, b)
      | inl stale ↦
          let d = drop-IsLive repo_name run_id after b os l l.repo_name l.owner_token k w stale in
          ground (arith, b, d, bump-IsLive repo_name run_id _ d l.run_id)
    ]

recover_rows-IsLive :
    (repo_name run_id : String) (os : System) (ls : List Lock) (removed : ℕ) (db : Database)
    → IsValid db
    → IsLive repo_name run_id db
    → IsLive repo_name run_id (recover_rows os ls removed db).1
unfolding recover_rows
recover_rows-IsLive repo_name run_id os [] removed db v live = live
recover_rows-IsLive repo_name run_id os (l ∷ rest) removed db v live =
    let after = (recover_row os l removed db).1 in
    let w = recover_row-IsValid os l removed db v in
    let next = recover_row-IsLive repo_name run_id os l removed db v live in
    elim (recover_row os l removed db).0
      as (λ r.
        IsLive repo_name run_id
          (elim r as (λ _. Result ℕ × Database) [
            | ok n ↦ recover_rows os rest n after
            | raised e ↦ (raised e, after)
          ]).1) [
            | ok n ↦ recover_rows-IsLive repo_name run_id os rest n after w next
            | raised e ↦ next
          ]

-- With unique keys, the removal of stale locks never takes the lock of a repository from a run
-- that has not ended, and neither loses nor ends the run, whatever processes are alive.
pub recover_stale-IsLive :
    (repo_name run_id : String) (os : System) (db : Database)
    → IsValid db
    → IsLive repo_name run_id db
    → IsLive repo_name run_id (recover_stale os db).1
unfolding recover_stale
recover_stale-IsLive repo_name run_id os db v live =
    ground (arith, live, recover_rows-IsLive repo_name run_id os db.locks 0 db v live)
