-- ===== src/Runs/Model.antt =====
-- soma/run_store.py: the tables of the durable run store, and the statuses of a run. The lock table
-- of soma/operation_locks.py stands in the same database. A time is its ISO text, a duration is a
-- number of milliseconds, and a JSON column holds the object that its text stands for.
use codex_bridge.Prelude.{
  ℕ, String, Bool, true, false, Option, List, [], ◌∷◌, ◌&&◌, Eq, contains, String-discrete,
}
use codex_bridge.Prelude.Text.{Object}

-- The status texts that the code names, and any other text.
pub data Status : Type 0 where
  launch_pending queued running cancellation_pending recovery_pending : Status
  completed partial failed cancelled timed_out needs_input : Status
  other_status : String → Status

pub Status-discrete : Discrete Status
unfolding String-discrete
Status-discrete = hlevel String-discrete

instance unfoldable pub status_eq : Eq Status
unfolding Status-discrete
status_eq = record { dec = Status-discrete }

abbrev pub terminal_statuses : List Status
terminal_statuses = completed ∷ partial ∷ failed ∷ cancelled ∷ timed_out ∷ needs_input ∷ []

-- `status in TERMINAL_STATUSES`
unfoldable pub is_terminal : Status → Bool
is_terminal s = contains terminal_statuses s

-- An exit code, which is negative for a process that a signal ended.
pub data ℤ : Type 0 where
  pos : ℕ → ℤ
  negsuc : ℕ → ℤ

-- A row of `runs`.
pub record Run : Type 0 where
  pub run_id : String
  pub repo_name : String
  pub tool : String
  pub status : Status
  pub risk_level : String
  pub requires_human : Bool
  pub created_at : String
  pub started_at : Option String
  pub ended_at : Option String
  pub duration_seconds : Option ℕ
  pub pid : Option ℕ
  pub launcher_pid : Option ℕ
  pub worker_pid : Option ℕ
  pub worker_lease_token : String
  pub lease_generation : ℕ
  pub state_version : ℕ
  pub worker_identity : String
  pub worker_claimed_at : Option String
  pub launch_attempts : ℕ
  pub recovery_reason : String
  pub exit_code : Option ℤ
  pub run_dir : String
  pub summary : String
  pub error : String
  pub safety_failure : Bool
  pub current_phase : String
  pub elapsed_seconds : ℕ
  pub heartbeat_at : Option String
  pub last_output_at : String
  pub cancellation_requested_at : String
  pub progress : Object
  pub input : Object
  pub result : Object
  pub result_publication_status : String
  pub result_published_hash : String
  pub result_published_at : Option String
  pub result_publication_error : String
  pub public_result : Object
  pub public_result_schema_version : String
  pub public_result_source_sha256 : String
  pub public_result_status : String
  pub public_result_error : String

-- A row of `events`.
pub record Event : Type 0 where
  pub id : ℕ
  pub run_id : String
  pub timestamp : String
  pub level : String
  pub stage : String
  pub message : String
  pub payload : Object

-- A row of `operation_locks`; its primary key is the repository.
pub record Lock : Type 0 where
  pub repo_name : String
  pub tool : String
  pub input_fingerprint : String
  pub run_id : String
  pub owner_pid : Option ℕ
  pub owner_token : String
  pub lease_generation : ℕ
  pub acquired_at : String
  pub heartbeat_at : String
  pub run_state_version_bound : Bool

pub record Database : Type 0 where
  pub runs : List Run
  pub events : List Event
  pub next_event_id : ℕ
  pub locks : List Lock

abbrev pub run_key : Run → String
run_key r = r.run_id

abbrev pub lock_key : Lock → String
lock_key l = l.repo_name

-- One `column = value` of an update; `set_unsupported` is a column that a conditional update refuses.
pub data Assignment : Type 0 where
  set_status : Status → Assignment
  set_current_phase : String → Assignment
  set_launcher_pid : Option ℕ → Assignment
  set_worker_pid : Option ℕ → Assignment
  set_worker_lease_token : String → Assignment
  set_lease_generation : ℕ → Assignment
  set_worker_identity : String → Assignment
  set_worker_claimed_at : Option String → Assignment
  set_launch_attempts : ℕ → Assignment
  set_started_at : Option String → Assignment
  set_ended_at : Option String → Assignment
  set_duration_seconds : Option ℕ → Assignment
  set_pid : Option ℕ → Assignment
  set_exit_code : Option ℤ → Assignment
  set_summary : String → Assignment
  set_error : String → Assignment
  set_safety_failure : Bool → Assignment
  set_heartbeat_at : Option String → Assignment
  set_elapsed_seconds : ℕ → Assignment
  set_progress : Object → Assignment
  set_result : Object → Assignment
  set_result_publication_status : String → Assignment
  set_result_published_hash : String → Assignment
  set_result_published_at : Option String → Assignment
  set_result_publication_error : String → Assignment
  set_public_result : Object → Assignment
  set_public_result_schema_version : String → Assignment
  set_public_result_source_sha256 : String → Assignment
  set_public_result_status : String → Assignment
  set_public_result_error : String → Assignment
  set_recovery_reason : String → Assignment
  set_last_output_at : String → Assignment
  set_cancellation_requested_at : String → Assignment
  set_unsupported : String → Assignment

-- `set(fields) - _CONDITIONAL_UPDATE_FIELDS` is empty.
unfoldable pub is_supported : Assignment → Bool
is_supported (set_last_output_at _) = false
is_supported (set_cancellation_requested_at _) = false
is_supported (set_unsupported _) = false
is_supported _ = true

unfoldable pub all_supported : List Assignment → Bool
unfolding is_supported
all_supported [] = true
all_supported (a ∷ rest) = is_supported a && all_supported rest
