-- ===== src/Tests/StaleLocks.antt =====
-- The theorems on stale locks at concrete databases.
use text.Mathlib.TextEquality.{eq_iff}
use codex_bridge.Prelude.Table.{find, insert, count_where, delete_where, update_where}
use codex_bridge.Prelude.{
  arith, nat_eq, none, ◌&&◌, ◌==◌, String, ◌≡◌, refl, true, false, some, [], ◌∷◌, string_eq, nat_eq,
  ok,
}
use codex_bridge.Prelude.Text.{Object}
use codex_bridge.Runs.Model.{
  Run, Database, run_key, lock_key, completed, running, is_terminal, status_eq,
}
use codex_bridge.Locks.Processes.{System, process_is_running}
use codex_bridge.Locks.Ops.{Request, acquire, acquired, refused}
use codex_bridge.Locks.Owner.{recover_stale, sync_request}
use codex_bridge.Locks.Exclusion.{acquire_sync-excludes}
use codex_bridge.Locks.Eviction.{acquire_seen-evicts}
use codex_bridge.Locks.Ops.{
  look, acquire_seen, is_stale, new_lock, bound, bumped, take_seen, insert_lock, evict,
  bump_run_state_version, bind_run_ownership, bind_in_connection, select_lock,
}
use codex_bridge.Locks.Processes.{process_matches_identity}
use codex_bridge.Locks.Validity.{IsValid}
use codex_bridge.Locks.Recovery.{IsLive, recover_stale-IsLive}
use codex_bridge.Tests.Sample.{
  processes, waiting_id, working_id, waiting, working, bridge_lock, sample, sample-IsValid,
  working_found, lock_found,
}

abbrev pub finished : Run
finished = record working { status = completed }

-- The run of the lock has ended, and no process is alive.
abbrev pub left_over : Database
left_over = record sample { runs = waiting ∷ finished ∷ [] }

abbrev no_processes : System
no_processes = record { is_alive = λ pid. false; start_identity = λ pid. "" }

left_over-IsValid : IsValid left_over
unfolding find string_eq
left_over-IsValid = record { unique_runs = (refl, (refl, tt)); unique_locks = (refl, tt) }

abbrev digest : Object → String
digest o = "f"

abbrev next_request : Request
next_request = record {
  repo_name = "bridge";
  tool = "codex_task";
  normalized_input = [];
  run_id = waiting_id;
  owner_pid = some 50;
  owner_token = "first";
  lease_generation = 1;
}

working_lives : is_terminal running ≡ false
unfolding is_terminal status_eq
working_lives = refl

sample-IsLive : IsLive "bridge" working_id sample
sample-IsLive = record {
  lock = bridge_lock;
  run = working;
  lock_found = lock_found;
  lock_run = refl;
  run_found = working_found;
  run_lives = working_lives;
}

recover_stale_example : IsLive "bridge" working_id (recover_stale no_processes sample).1
recover_stale_example =
    recover_stale-IsLive "bridge" working_id no_processes sample sample-IsValid sample-IsLive

free_other : find lock_key "other" sample.locks ≡ none
unfolding find string_eq
free_other = refl

unknown_run : find run_key "sync_9" sample.runs ≡ none
unfolding find string_eq
unknown_run = refl

alive : process_is_running processes 9 ≡ true
unfolding process_is_running
alive = refl

abbrev tool_name : String
tool_name = "sync"

abbrev late_request : Request
late_request = record next_request { repo_name = "other" }

abbrev sync_9 : Request
sync_9 = sync_request "other" tool_name [] "sync_9" 9

-- Later the run that works has ended.
abbrev later_held : Database
later_held = record (acquire processes digest sync_9 "t" sample).1 {
  runs = waiting ∷ finished ∷ [];
}

later_held-found :
    find lock_key "other" later_held.locks ≡ some (new_lock processes digest sync_9 "t")
unfolding find string_eq acquire take_seen insert_lock insert new_lock bind_run_ownership
    bind_in_connection select_lock nat_eq bump_run_state_version count_where
later_held-found = refl

later_held-unknown : find run_key "sync_9" later_held.runs ≡ none
unfolding find string_eq
later_held-unknown = refl

acquire_sync-excludes_example :
    let (result, after) = acquire processes digest sync_9 "t" sample in
    (result ≡ ok acquired)
    × (find lock_key "other" after.locks ≡ some (new_lock processes digest sync_9 "t"))
    × (find run_key "sync_9" after.runs ≡ none)
    × (acquire processes digest late_request "u" later_held ≡ (
      ok (
          refused (
            tool_name == late_request.tool
            && (new_lock processes digest sync_9 "t").input_fingerprint
              == digest late_request.normalized_input)),
      later_held,
    ))
unfolding new_lock
acquire_sync-excludes_example =
    acquire_sync-excludes processes digest "other" tool_name [] "sync_9" 9 "t" sample late_request
      "u" later_held (new_lock processes digest sync_9 "t") sample-IsValid free_other unknown_run
      alive refl later_held-found refl refl later_held-unknown

-- Two requests saw the lock of the run that has ended; the first one takes the repository.
abbrev third_run : Run
third_run = record waiting { run_id = "20260726T040506Z_review_2c3d4e5f" }

abbrev three_runs : Database
three_runs = record left_over { runs = waiting ∷ finished ∷ third_run ∷ [] }

three_runs-IsValid : IsValid three_runs
unfolding find string_eq
three_runs-IsValid = record { unique_runs = (refl, (refl, (refl, tt))); unique_locks = (refl, tt) }

abbrev racing_request : Request
racing_request = record next_request { run_id = third_run.run_id; owner_token = "third" }

three_runs-stale : is_stale no_processes three_runs bridge_lock ≡ true
unfolding is_stale find string_eq is_terminal status_eq process_is_running process_matches_identity
three_runs-stale = refl

three_runs-lock : find lock_key "bridge" three_runs.locks ≡ some bridge_lock
unfolding find string_eq
three_runs-lock = refl

three_runs-waiting : find run_key waiting_id three_runs.runs ≡ some waiting
unfolding find string_eq
three_runs-waiting = refl

three_runs-third :
    find run_key third_run.run_id (acquire no_processes digest next_request "t" three_runs).1.runs
    ≡ some third_run
unfolding find string_eq acquire take_seen is_stale is_terminal status_eq insert_lock insert evict
    nat_eq count_where bump_run_state_version delete_where bind_run_ownership bind_in_connection
    select_lock new_lock update_where
three_runs-third = refl

acquire_seen-evicts_example :
    let (first, between) = acquire no_processes digest next_request "t" three_runs in
    let (second, after) =
      acquire_seen no_processes digest
        (look no_processes digest racing_request three_runs three_runs)
        racing_request
        "u"
        between in
    (first ≡ ok acquired)
    × (find lock_key "bridge" between.locks
        ≡ some (bound (new_lock no_processes digest next_request "t")))
    × (find run_key waiting_id between.runs ≡ some (bumped waiting))
    × (second ≡ ok acquired)
    × (find lock_key "bridge" after.locks
        ≡ some (bound (new_lock no_processes digest racing_request "u")))
acquire_seen-evicts_example =
    acquire_seen-evicts no_processes digest next_request racing_request "t" "u" three_runs
      bridge_lock waiting third_run three_runs-IsValid refl three_runs-lock three_runs-stale
      three_runs-waiting three_runs-third (ground (arith, eq_iff waiting_id working_id))
      (ground (arith, eq_iff third_run.run_id working_id))
