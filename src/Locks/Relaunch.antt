-- ===== src/Locks/Relaunch.antt =====
-- soma/operation_locks.py: the next launch takes the run and the lock together, and fences the
-- worker that had them before.

use codex_bridge.Prelude.{
  ℕ, String, ◌+◌, ◌≡◌, ◌≢◌, refl, sym, ap, ◌∙◌, ◌⊎◌, inl, inr, Bool, true, false, none, some, List,
  string_eq, nat_eq, arith, ok, Option-cases,
}
use codex_bridge.Prelude.Table.{
  find, keyed, count_where, count-find, find-update_same, find-update_other,
}
use codex_bridge.Prelude.Text.{Object}
use codex_bridge.Runs.RunId.{is_run_id}
use codex_bridge.Runs.Model.{launch_pending, status_eq, Run, Lock, Database, run_key, lock_key}
use codex_bridge.Runs.Update.{is_empty}
use codex_bridge.Runs.Worker.{update_worker_progress, attach_child_pid, heartbeat_worker}
use codex_bridge.Runs.Untouched.{held_lease}
use codex_bridge.Runs.Lifecycle.{perform_all-AllEvolve}
use codex_bridge.Runs.Writes.{Write, perform_all, all_careful}
use codex_bridge.Runs.Keys.{perform_all-HasKeys}
use codex_bridge.Runs.Leases.{holds_lease, worker_writes_lem}
use codex_bridge.Locks.Ops.{write_runs, write_locks, owned_by}
use codex_bridge.Locks.Owner.{
  Launch, reservation, launched, is_expected, relocked, reserve_next_launch,
}
use codex_bridge.Locks.Validity.{IsValid, reserve_next_launch-IsValid}

abbrev pub owned : Launch → Lock → Bool
owned q = owned_by q.run_id q.owner_token q.lease_generation

module _ (q : Launch) (now : String) (db : Database) (v : IsValid db) where
  abbrev reserved : Database
  reserved =
      write_locks (keyed lock_key q.repo_name (owned q)) (relocked q now)
        (write_runs (keyed run_key q.run_id (is_expected q)) (launched q now) db)

  module _ (r : Run) (l : Lock) (f : find run_key q.run_id db.runs ≡ some r)
      (expected : is_expected q r ≡ true) (g : find lock_key q.repo_name db.locks ≡ some l)
      (held : owned q l ≡ true) where
    find-reserved : find run_key q.run_id reserved.runs ≡ some (launched q now r)
    find-reserved =
        find-update_same run_key q.run_id (is_expected q) (launched q now) (λ r. refl) db.runs r f
          expected

    reserve_taken :
        reserve_next_launch q now db ≡ (ok (some (reservation q (launched q now r))), reserved)
    unfolding reserve_next_launch nat_eq is_empty
    reserve_taken = ground (
      arith,
      count-find run_key q.run_id (is_expected q) db.runs v.unique_runs,
      count-find lock_key q.repo_name (owned q) db.locks v.unique_locks,
      find-reserved,
    )

    reserve_next_launch_rows :
        let (result, after) = reserve_next_launch q now db in
        (result ≡ ok (some (reservation q (launched q now r))))
        × (find run_key q.run_id after.runs ≡ some (launched q now r))
        × (find lock_key q.repo_name after.locks ≡ some (relocked q now l))
        × ((j : String) → j ≢ q.run_id → find run_key j after.runs ≡ find run_key j db.runs)
        × ((j : String) → j ≢ q.repo_name → find lock_key j after.locks ≡ find lock_key j db.locks)
    reserve_next_launch_rows = rw reserve_taken (
      refl,
      find-reserved,
      find-update_same lock_key q.repo_name (owned q) (relocked q now) (λ l. refl) db.locks l g
          held,
      λ j other.
          find-update_other run_key q.run_id (is_expected q) (launched q now) (λ r. refl) j db.runs
            other,
      λ j other.
          find-update_other lock_key q.repo_name (owned q) (relocked q now) (λ l. refl) j db.locks
            other,
    )

    -- The old lease of the run is the one that the launch names.
    expected-lease : r.lease_generation ≡ q.lease_generation
    unfolding nat_eq
    expected-lease = ground (arith, expected)

    -- With unique keys, a launch that the run expects and that owns the lock of the repository
    -- gets both. The run waits for a worker under the new token, its generation, its version and
    -- its launch attempts are one higher, and it has no worker, launcher or child process; the
    -- lock is still the run's, bound, with the new owner process and with the token and the
    -- generation that the run has; the result tells token, generation, version and attempts of the
    -- run; and other runs and locks stay.
    pub reserve_next_launch_lem :
        let (result, after) = reserve_next_launch q now db in
        (r' : Run) × (l' : Lock) × (find run_key q.run_id after.runs ≡ some r')
        × (find lock_key q.repo_name after.locks ≡ some l')
        × (result
            ≡ ok (
                some (record {
                  owner_token = r'.worker_lease_token;
                  lease_generation = r'.lease_generation;
                  state_version = r'.state_version;
                  launch_attempts = r'.launch_attempts;
                })))
        × (r'.status ≡ launch_pending)
        × (r'.worker_lease_token ≡ q.new_owner_token)
        × (r'.lease_generation ≡ r.lease_generation + 1)
        × (r'.state_version ≡ r.state_version + 1)
        × (r'.launch_attempts ≡ r.launch_attempts + 1)
        × (r'.worker_pid ≡ none)
        × (r'.launcher_pid ≡ none)
        × (r'.pid ≡ none)
        × (l'.run_id ≡ q.run_id)
        × (l'.owner_token ≡ r'.worker_lease_token)
        × (l'.lease_generation ≡ r'.lease_generation)
        × (l'.owner_pid ≡ q.owner_pid)
        × (l'.run_state_version_bound ≡ true)
        × ((j : String) → j ≢ q.run_id → find run_key j after.runs ≡ find run_key j db.runs)
        × ((j : String) → j ≢ q.repo_name → find lock_key j after.locks ≡ find lock_key j db.locks)
    reserve_next_launch_lem =
        let (result, row, lock, runs, locks) = reserve_next_launch_rows in
        (
          launched q now r,
          relocked q now l,
          row,
          lock,
          result,
          refl,
          refl,
          ap (λ n. n + 1) (sym expected-lease),
          refl,
          refl,
          refl,
          refl,
          refl,
          ground (arith, held),
          refl,
          refl,
          refl,
          refl,
          runs,
          locks,
        )

  -- With unique keys, a launch that the run does not expect, or that does not own the lock,
  -- returns none and changes neither the run nor the lock.
  reserve_next_launch-refused :
      ((r : Run) → find run_key q.run_id db.runs ≡ some r → is_expected q r ≡ false)
        ⊎ ((l : Lock) → find lock_key q.repo_name db.locks ≡ some l → owned q l ≡ false)
      → reserve_next_launch q now db ≡ (ok none, db)
  unfolding reserve_next_launch nat_eq
  reserve_next_launch-refused (inl unexpected) =
      let none_met : count_where (keyed run_key q.run_id (is_expected q)) db.runs ≡ 0 =
        count-find run_key q.run_id (is_expected q) db.runs v.unique_runs
        ∙ elim (Option-cases (find run_key q.run_id db.runs)) [
          | inl missing ↦ ground arith
          | inr p ↦ ground (arith, unexpected p.0 p.1)
        ] in
      ground (arith, none_met)
  reserve_next_launch-refused (inr foreign) =
      let none_met : count_where (keyed lock_key q.repo_name (owned q)) db.locks ≡ 0 =
        count-find lock_key q.repo_name (owned q) db.locks v.unique_locks
        ∙ elim (Option-cases (find lock_key q.repo_name db.locks)) [
          | inl missing ↦ ground arith
          | inr p ↦ ground (arith, foreign p.0 p.1)
        ] in
      ground (arith, none_met)

not-holds_old :
    (token : String) (generation : ℕ) (q : Launch) (now : String) (r r' : Run)
    → held_lease r' ≡ held_lease (launched q now r)
    → generation ≢ q.lease_generation + 1
    → holds_lease token generation r' ≡ false
not-holds_old token generation q now r r' same old = ground (arith, ap (λ p. p.1) same)

-- With unique keys, after a launch of a run of well-formed identifier, which the run expects and
-- which owns the lock, over every sequence of careful writes to the run store, of all its writes
-- other than update_run, each progress, child process or heartbeat write that comes with a
-- generation other than the new one returns false. A direct conditional_update is careful if it
-- writes no lease, and what a run reports (status, end, duration, exit code, summary, error,
-- safety flag, result) only if it rejects terminal runs; every other write is.
pub reserve_next_launch-fences :
    (q : Launch) (now : String) (db : Database) (r : Run) (l : Lock) (ws : List Write)
    (token : String) (generation : ℕ) (phase : String) (elapsed child_pid : ℕ) (p : Object)
    (later : String)
    → IsValid db
    → is_run_id q.run_id ≡ true
    → find run_key q.run_id db.runs ≡ some r
    → is_expected q r ≡ true
    → find lock_key q.repo_name db.locks ≡ some l
    → owned q l ≡ true
    → generation ≢ q.lease_generation + 1
    → all_careful ws ≡ true
    → let after = perform_all ws (reserve_next_launch q now db).1 in
      ((update_worker_progress q.run_id token generation phase elapsed p later after).0 ≡ ok false)
      × ((attach_child_pid q.run_id child_pid token generation later after).0 ≡ ok false)
      × ((heartbeat_worker q.run_id token elapsed p (some generation) later after).0 ≡ ok false)
reserve_next_launch-fences q now db r l ws token generation phase elapsed child_pid p later v valid
      f expected g held old careful =
    let taken = reserve_next_launch_rows q now db v r l f expected g held in
    let d = (reserve_next_launch q now db).1 in
    let w = reserve_next_launch-IsValid q now db v in
    let e = perform_all-AllEvolve ws d careful q.run_id (launched q now r) taken.1 in
    let lost = not-holds_old token generation q now r e.0 e.2.same_lease old in
    let writes =
      worker_writes_lem q.run_id token generation (perform_all ws d) e.0 phase elapsed child_pid p
        (some generation) later (perform_all-HasKeys ws d w.unique_runs) valid e.1 in
    (writes.0 ∙ ap ok lost, writes.1 ∙ ap ok lost, writes.2 ∙ ap ok lost)
