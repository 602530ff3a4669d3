-- ===== src/Tests/Sample.antt =====
-- A small database of runs and locks, on which the theorems are instantiated.
use codex_bridge.Prelude.{String, ◌≡◌, refl, true, false, none, some, [], ◌∷◌, string_eq}
use codex_bridge.Prelude.Table.{find, Unique}
use codex_bridge.Runs.RunId.{is_run_id}
use codex_bridge.Runs.Model.{launch_pending, running, Run, Lock, Database, run_key, lock_key}
use codex_bridge.Locks.Validity.{IsValid}
use codex_bridge.Locks.Processes.{System}

abbrev pub waiting_id : String
waiting_id = "20260726T010203Z_codex_task_0a1b2c3d"

abbrev pub working_id : String
working_id = "20260726T020304Z_review_1b2c3d4e"

-- A run that waits for its worker.
abbrev pub waiting : Run
waiting = record {
  run_id = waiting_id;
  repo_name = "bridge";
  tool = "codex_task";
  status = launch_pending;
  risk_level = "";
  requires_human = false;
  created_at = "2026-07-26T01:02:03";
  started_at = none;
  ended_at = none;
  duration_seconds = none;
  pid = none;
  launcher_pid = none;
  worker_pid = none;
  worker_lease_token = "first";
  lease_generation = 1;
  state_version = 4;
  worker_identity = "";
  worker_claimed_at = none;
  launch_attempts = 0;
  recovery_reason = "";
  exit_code = none;
  run_dir = "";
  summary = "";
  error = "";
  safety_failure = false;
  current_phase = "launch_pending";
  elapsed_seconds = 0;
  heartbeat_at = none;
  last_output_at = "";
  cancellation_requested_at = "";
  progress = [];
  input = [];
  result = [];
  result_publication_status = "not_required";
  result_published_hash = "";
  result_published_at = none;
  result_publication_error = "";
  public_result = [];
  public_result_schema_version = "";
  public_result_source_sha256 = "";
  public_result_status = "not_materialized";
  public_result_error = "";
}

-- A run under the second lease of its worker.
abbrev pub working : Run
working = record waiting {
  run_id = working_id;
  status = running;
  worker_lease_token = "second";
  lease_generation = 2;
  state_version = 7;
}

-- The lock of the run that works.
abbrev pub bridge_lock : Lock
bridge_lock = record {
  repo_name = "bridge";
  tool = "codex_task";
  input_fingerprint = "f";
  run_id = working_id;
  owner_pid = some 41;
  owner_token = "second";
  lease_generation = 2;
  acquired_at = "2026-07-26T02:03:04";
  heartbeat_at = "2026-07-26T02:03:04";
  run_state_version_bound = false;
}

abbrev pub sample : Database
sample = record {
  runs = waiting ∷ working ∷ [];
  events = [];
  next_event_id = 1;
  locks = bridge_lock ∷ [];
}

abbrev pub processes : System
processes = record { is_alive = λ pid. true; start_identity = λ pid. "start" }

pub sample-keys : Unique run_key sample.runs
unfolding find string_eq
sample-keys = (refl, (refl, tt))

pub sample-IsValid : IsValid sample
unfolding find string_eq
sample-IsValid = record { unique_runs = sample-keys; unique_locks = (refl, tt) }

pub waiting_found : find run_key waiting_id sample.runs ≡ some waiting
unfolding find string_eq
waiting_found = refl

pub working_found : find run_key working_id sample.runs ≡ some working
unfolding find string_eq
working_found = refl

pub lock_found : find lock_key "bridge" sample.locks ≡ some bridge_lock
unfolding find string_eq
lock_found = refl

pub waiting_valid : is_run_id waiting_id ≡ true
unfolding is_run_id
waiting_valid = refl

pub working_valid : is_run_id working_id ≡ true
unfolding is_run_id
working_valid = refl
