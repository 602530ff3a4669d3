-- ===== src/Tests/Repositories.antt =====
-- The theorems of soma/operation_locks.py at concrete requests.
use mathlib.Core.Option
use codex_bridge.Prelude.{
  List, String, ◌≡◌, ◌≢◌, refl, true, false, ◌&&◌, none, some, [], ◌∷◌, ◌==◌, if◌then◌else◌,
  string_eq, nat_eq, ok, arith,
}
use codex_bridge.Prelude.Table.{find}
use codex_bridge.Prelude.Text.{Object}
use codex_bridge.Runs.Model.{
  Run, Lock, launch_pending, run_key, lock_key, is_terminal, status_eq, running,
}
use codex_bridge.Runs.Worker.{update_worker_progress, attach_child_pid, heartbeat_worker}
use codex_bridge.Runs.Writes.{Write, beat, perform_all, is_careful, all_careful}
use codex_bridge.Runs.Direct.{cancel_pending}
use codex_bridge.Runs.Untouched.{sets_report, sets_lease, any_of}
use codex_bridge.Locks.Ops.{Request, acquire, acquired, refused, new_lock, bound, bumped}
use codex_bridge.Locks.Owner.{Launch, is_expected, reserve_next_launch, release}
use codex_bridge.Locks.Acquire.{acquire_held, acquire_free}
use codex_bridge.Locks.Release.{release_lem}
use codex_bridge.Locks.Relaunch.{owned, reserve_next_launch_lem, reserve_next_launch-fences}
use codex_bridge.Tests.Sample.{
  waiting_id, working_id, waiting, working, bridge_lock, sample, processes, sample-IsValid,
  waiting_found, working_found, lock_found, working_valid,
}

abbrev digest : Object → String
digest o = "f"

abbrev request : String → Request
request repo_name = record {
  repo_name = repo_name;
  tool = "codex_task";
  normalized_input = [];
  run_id = waiting_id;
  owner_pid = some 50;
  owner_token = "first";
  lease_generation = 1;
}

acquire_held_example : acquire processes digest (request "bridge") "t" sample ≡ (
  ok (refused (bridge_lock.tool == "codex_task" && bridge_lock.input_fingerprint == "f")),
  sample,
)
unfolding is_terminal status_eq
acquire_held_example =
    acquire_held processes digest (request "bridge") "t" sample bridge_lock working lock_found
      working_found refl

free_repository : find lock_key "other" sample.locks ≡ none
unfolding find string_eq
free_repository = refl

acquire_free_example :
    let (result, after) = acquire processes digest (request "other") "t" sample in
    (result ≡ ok acquired)
    × (find lock_key "other" after.locks
        ≡ some (bound (new_lock processes digest (request "other") "t")))
    × (find run_key waiting_id after.runs ≡ some (bumped waiting))
    × ((j : String) → j ≢ "other" → find lock_key j after.locks ≡ find lock_key j sample.locks)
acquire_free_example =
    acquire_free processes digest (request "other") "t" sample waiting sample-IsValid
      free_repository waiting_found

release_example :
    let (result, after) = release "bridge" working_id (some "second") none sample in
    (result ≡ ok true)
    × (find lock_key "bridge" after.locks ≡ none)
    × ((j : String) → j ≢ "bridge" → find lock_key j after.locks ≡ find lock_key j sample.locks)
    × ((j : String)
        → find run_key j after.runs
          ≡ Option.map
              (λ r. if r.run_id == working_id then bumped r else r)
              (find run_key j sample.runs))
unfolding string_eq nat_eq
release_example =
    release_lem "bridge" working_id (some "second") none sample sample-IsValid bridge_lock
      lock_found refl

abbrev next_launch : Launch
next_launch = record {
  repo_name = "bridge";
  run_id = working_id;
  statuses = running ∷ [];
  state_version = 7;
  owner_token = "second";
  lease_generation = 2;
  new_owner_token = "third";
  owner_pid = none;
}

working_expected : is_expected next_launch working ≡ true
unfolding string_eq nat_eq status_eq
working_expected = refl

bridge_owned : owned next_launch bridge_lock ≡ true
unfolding string_eq nat_eq
bridge_owned = refl

reserve_next_launch_example :
    let (result, after) = reserve_next_launch next_launch "t" sample in
    (r' : Run) × (l' : Lock) × (find run_key working_id after.runs ≡ some r')
    × (find lock_key "bridge" after.locks ≡ some l')
    × (result
        ≡ ok (
            some (record {
              owner_token = r'.worker_lease_token;
              lease_generation = r'.lease_generation;
              state_version = r'.state_version;
              launch_attempts = r'.launch_attempts;
            })))
    × (r'.status ≡ launch_pending)
    × (r'.worker_lease_token ≡ "third")
    × (r'.lease_generation ≡ 3)
    × (r'.state_version ≡ 8)
    × (r'.launch_attempts ≡ 1)
    × (r'.worker_pid ≡ none)
    × (r'.launcher_pid ≡ none)
    × (r'.pid ≡ none)
    × (l'.run_id ≡ working_id)
    × (l'.owner_token ≡ r'.worker_lease_token)
    × (l'.lease_generation ≡ r'.lease_generation)
    × (l'.owner_pid ≡ none)
    × (l'.run_state_version_bound ≡ true)
    × ((j : String) → j ≢ working_id → find run_key j after.runs ≡ find run_key j sample.runs)
    × ((j : String) → j ≢ "bridge" → find lock_key j after.locks ≡ find lock_key j sample.locks)
reserve_next_launch_example =
    reserve_next_launch_lem next_launch "t" sample sample-IsValid working bridge_lock working_found
      working_expected lock_found bridge_owned

abbrev late_beat : List Write
late_beat = beat working_id "second" 9 [] (some 2) "t" working ∷ cancel_pending working "t" ∷ []

late_beat-careful : all_careful late_beat ≡ true
unfolding all_careful is_careful cancel_pending sets_report sets_lease any_of
late_beat-careful = refl

reserve_next_launch-fences_example :
    let after = perform_all late_beat (reserve_next_launch next_launch "t" sample).1 in
    ((update_worker_progress working_id "second" 2 "worker" 10 [] "u" after).0 ≡ ok false)
    × ((attach_child_pid working_id 77 "second" 2 "u" after).0 ≡ ok false)
    × ((heartbeat_worker working_id "second" 10 [] (some 2) "u" after).0 ≡ ok false)
reserve_next_launch-fences_example =
    reserve_next_launch-fences next_launch "t" sample working bridge_lock late_beat "second" 2
      "worker" 10 77 [] "u" sample-IsValid working_valid working_found working_expected lock_found
      bridge_owned (λ e. omega (arith, e)) late_beat-careful
