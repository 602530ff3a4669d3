-- ===== src/Locks/Validity.antt =====
-- soma/operation_locks.py: every operation keeps the primary keys of both tables.
use codex_bridge.Prelude.{
  ℕ, String, ◌≡◌, refl, Bool, Option, some, string_eq, nat_eq, arith, Option-cases, inl, inr,
}
use codex_bridge.Prelude.Table.{insert, Unique, keyed, update-Unique, delete-Unique, insert-Unique}
use codex_bridge.Prelude.Text.{Object}
use codex_bridge.Runs.Model.{Run, Lock, Database, run_key, lock_key}
use codex_bridge.Locks.Processes.{System}
use codex_bridge.Locks.Ops.{
  bumped, bound, any_row, write_runs, write_locks, drop_locks, bump_run_state_version,
  bind_in_connection, bind_run_ownership, bind_acquired, evict, insert_lock, Seen, no_lock,
  stale_lock, busy_lock, look, take_seen, acquire_seen, acquire, new_lock, Request, unbound_of,
  matches, owned_by, select_lock,
}
use codex_bridge.Locks.Owner.{
  claim_row, claim_selected, claimed, one_or, claim_owner, heartbeat_lock, release, Launch,
  launched, is_expected, relocked, reserve_next_launch,
}

-- One run for each identifier, and one lock for each repository.
pub record IsValid (db : Database) : Type 0 where
  pub unique_runs : Unique run_key db.runs
  pub unique_locks : Unique lock_key db.locks

module _ (db : Database) (v : IsValid db) where
  write_runs-IsValid :
      (k : String) (g : Run → Bool) (f : Run → Run)
      → ((r : Run) → run_key (f r) ≡ run_key r)
      → IsValid (write_runs (keyed run_key k g) f db)
  write_runs-IsValid k g f same = record {
    unique_runs = update-Unique run_key k g f same db.runs v.unique_runs;
    unique_locks = v.unique_locks;
  }

  write_locks-IsValid :
      (k : String) (g : Lock → Bool) (f : Lock → Lock)
      → ((l : Lock) → lock_key (f l) ≡ lock_key l)
      → IsValid (write_locks (keyed lock_key k g) f db)
  write_locks-IsValid k g f same = record {
    unique_runs = v.unique_runs;
    unique_locks = update-Unique lock_key k g f same db.locks v.unique_locks;
  }

  pub drop_locks-IsValid :
      (k : String) (g : Lock → Bool) → IsValid (drop_locks (keyed lock_key k g) db)
  drop_locks-IsValid k g = record {
    unique_runs = v.unique_runs;
    unique_locks = delete-Unique lock_key k g db.locks v.unique_locks;
  }

  pub bump-IsValid : (run_id : String) → IsValid (bump_run_state_version run_id db).1
  unfolding bump_run_state_version
  bump-IsValid run_id = write_runs-IsValid run_id any_row bumped (λ r. refl)

pub heartbeat_lock-IsValid :
    (repo_name run_id : String) (token : Option String) (generation : Option ℕ) (now : String)
    (db : Database)
    → IsValid db
    → IsValid (heartbeat_lock repo_name run_id token generation now db).1
unfolding heartbeat_lock
heartbeat_lock-IsValid repo_name run_id token generation now db v =
    write_locks-IsValid db v repo_name _ _ (λ l. refl)

pub release-IsValid :
    (repo_name run_id : String) (token : Option String) (generation : Option ℕ) (db : Database)
    → IsValid db
    → IsValid (release repo_name run_id token generation db).1
unfolding release
release-IsValid repo_name run_id token generation db v =
    let d = drop_locks-IsValid db v repo_name (matches run_id token generation) in
    ground (arith, d, bump-IsValid _ d run_id)

pub bind_in_connection-IsValid :
    (repo_name run_id token : String) (generation : ℕ) (db : Database)
    → IsValid db
    → IsValid (bind_in_connection repo_name run_id token generation db).1
unfolding bind_in_connection
bind_in_connection-IsValid repo_name run_id token generation db v =
    let b = bump-IsValid db v run_id in
    let w =
      write_locks-IsValid _ b repo_name (unbound_of run_id token generation) bound (λ l. refl) in
    ground (arith, b, w)

pub bind_run_ownership-IsValid :
    (repo_name run_id token : String) (generation : ℕ) (db : Database)
    → IsValid db
    → IsValid (bind_run_ownership repo_name run_id token generation db).1
unfolding bind_run_ownership
bind_run_ownership-IsValid repo_name run_id token generation db v =
    ground (arith, bind_in_connection-IsValid repo_name run_id token generation db v)

claim_row-IsValid :
    (repo_name run_id : String) (g : Lock → Bool) (owner_pid : ℕ) (now : String) (l : Lock)
    (db : Database)
    → IsValid db
    → IsValid (claim_row repo_name run_id g owner_pid now l db).1
unfolding claim_row
claim_row-IsValid repo_name run_id g owner_pid now l db v =
    let w = write_locks-IsValid db v repo_name g (claimed owner_pid now) (λ l. refl) in
    ground (arith, w, bump-IsValid _ w run_id)

pub claim_owner-IsValid :
    (repo_name run_id : String) (owner_pid : ℕ) (token : String) (generation : Option ℕ)
    (now : String) (db : Database)
    → IsValid db
    → IsValid (claim_owner repo_name run_id owner_pid token generation now db).1
unfolding claim_owner claim_selected
claim_owner-IsValid repo_name run_id owner_pid token generation now db v =
    elim (Option-cases (select_lock repo_name (matches run_id (some token) generation) db)) [
      | inl missing ↦ ground arith
      | inr p ↦
          let b =
            bind_in_connection-IsValid repo_name run_id token (one_or p.0.lease_generation) db v in
          ground (
            arith,
            b,
            claim_row-IsValid repo_name run_id (matches run_id (some token) generation) owner_pid
                now p.0 _ b,
          )
    ]

pub reserve_next_launch-IsValid :
    (q : Launch) (now : String) (db : Database)
    → IsValid db
    → IsValid (reserve_next_launch q now db).1
unfolding reserve_next_launch
reserve_next_launch-IsValid q now db v =
    let r = write_runs-IsValid db v q.run_id (is_expected q) (launched q now) (λ r. refl) in
    let w =
      write_locks-IsValid _ r q.repo_name (owned_by q.run_id q.owner_token q.lease_generation)
        (relocked q now) (λ l. refl) in
    ground (arith, w)

module _ (os : System) (digest : Object → String) where
  insert_lock-IsValid :
      (q : Request) (now : String) (db : Database)
      → IsValid db
      → IsValid (insert_lock os digest q now db).1
  unfolding insert_lock
  insert_lock-IsValid q now db v =
      elim (Option-cases (insert lock_key (new_lock os digest q now) db.locks)) [
        | inl taken ↦ ground arith
        | inr p ↦ ground (
          arith,
          insert-Unique lock_key (new_lock os digest q now) db.locks p.0 p.1 v.unique_locks,
        )
      ]

  pub evict-IsValid :
      (repo_name : String) (l : Lock) (db : Database)
      → IsValid db
      → IsValid (evict os digest repo_name l db)
  unfolding evict
  evict-IsValid repo_name l db v =
      let d = drop_locks-IsValid db v repo_name any_row in
      ground (arith, d, bump-IsValid _ d l.run_id)

  take_seen-IsValid :
      (seen : Seen) (q : Request) (now : String) (db : Database)
      → IsValid db
      → IsValid (take_seen os digest seen q now db).1
  unfolding take_seen
  take_seen-IsValid no_lock q now db v = insert_lock-IsValid q now db v
  take_seen-IsValid (stale_lock l) q now db v =
      insert_lock-IsValid q now (evict os digest q.repo_name l db)
        (evict-IsValid q.repo_name l db v)
  take_seen-IsValid (busy_lock l) q now db v = v

  -- Whatever the request has seen before.
  pub acquire_seen-IsValid :
      (seen : Seen) (q : Request) (now : String) (db : Database)
      → IsValid db
      → IsValid (acquire_seen os digest seen q now db).1
  unfolding acquire_seen bind_acquired
  acquire_seen-IsValid seen q now db v =
      let t = take_seen-IsValid seen q now db v in
      ground (
        arith,
        v,
        t,
        bind_run_ownership-IsValid q.repo_name q.run_id q.owner_token q.lease_generation _ t,
      )

  pub acquire-IsValid :
      (q : Request) (now : String) (db : Database)
      → IsValid db
      → IsValid (acquire os digest q now db).1
  unfolding acquire
  acquire-IsValid q now db v = acquire_seen-IsValid (look os digest q db db) q now db v
