-- ===== src/Runs/Progress.antt =====
-- soma/run_store.py: the creation of a run, its events and its progress.
use codex_bridge.Prelude.{
  ℕ, suc, String, Bool, false, Option, none, some, List, [], ◌∷◌, ◌==◌, string_eq, if◌then◌else◌,
  Action, pure, throw, ◌>>=◌, ◌>>◌, value_error, key_error, integrity_error, ok, raised,
}
use codex_bridge.Prelude.Table.{find, insert}
use codex_bridge.Prelude.Text.{Object, merge}
use codex_bridge.Runs.RunId.{is_run_id}
use codex_bridge.Runs.Model.{
  Status, launch_pending, queued, running, cancellation_pending, recovery_pending, completed,
  partial, failed, cancelled, timed_out, needs_input, other_status, Run, Assignment, Event,
  Database, run_key, set_current_phase, set_heartbeat_at, set_elapsed_seconds, set_progress,
}
use codex_bridge.Runs.Update.{Guard, get_run, conditional_update}
use codex_bridge.Runs.Worker.{bump_on_phase, or_else}

-- The text of a status.
unfoldable pub status_text : Status → String
status_text launch_pending = "launch_pending"
status_text queued = "queued"
status_text running = "running"
status_text cancellation_pending = "cancellation_pending"
status_text recovery_pending = "recovery_pending"
status_text completed = "completed"
status_text partial = "partial"
status_text failed = "failed"
status_text cancelled = "cancelled"
status_text timed_out = "timed_out"
status_text needs_input = "needs_input"
status_text (other_status s) = s

-- The arguments of `create_run`.
pub record NewRun : Type 0 where
  pub run_id : String
  pub repo_name : String
  pub tool : String
  pub run_dir : String
  pub input : Object
  pub risk_level : String
  pub requires_human : Bool
  pub status : Status
  pub worker_lease_token : String

-- The inserted row: what the statement gives, and the defaults of the schema.
unfoldable pub new_run : NewRun → String → Run
unfolding status_text
new_run n now = record {
  run_id = n.run_id;
  repo_name = n.repo_name;
  tool = n.tool;
  status = n.status;
  risk_level = n.risk_level;
  requires_human = n.requires_human;
  created_at = now;
  started_at = none;
  ended_at = none;
  duration_seconds = none;
  pid = none;
  launcher_pid = none;
  worker_pid = none;
  worker_lease_token = n.worker_lease_token;
  lease_generation = 1;
  state_version = 0;
  worker_identity = "";
  worker_claimed_at = none;
  launch_attempts = 0;
  recovery_reason = "";
  exit_code = none;
  run_dir = n.run_dir;
  summary = "";
  error = "";
  safety_failure = false;
  current_phase = status_text n.status;
  elapsed_seconds = 0;
  heartbeat_at = some now;
  last_output_at = "";
  cancellation_requested_at = "";
  progress = [];
  input = n.input;
  result = [];
  result_publication_status = "not_published";
  result_published_hash = "";
  result_published_at = none;
  result_publication_error = "";
  public_result = [];
  public_result_schema_version = "";
  public_result_source_sha256 = "";
  public_result_status = "not_materialized";
  public_result_error = "";
}

-- `create_run`
unfoldable pub create_run : NewRun → String → Action Database Run
create_run n now db =
    if is_run_id n.run_id
    then elim (insert run_key (new_run n now) db.runs) [
      | none ↦ (raised integrity_error, db)
      | some runs ↦ get_run n.run_id (record db { runs = runs })
    ]
    else (raised value_error, db)

abbrev pub unguarded : Guard
unguarded = record {
  expected_statuses = none;
  expected_state_version = none;
  expected_lease_token = none;
  expected_lease_generation = none;
  expected_heartbeat_at = none;
  reject_terminal = false;
}

abbrev pub found : Option Run → Action Database Run
found none = throw key_error
found (some r) = pure r

-- The insert of an event; the foreign key asks for the run.
unfoldable pub insert_event :
    String → String → String → String → String → Object → Action Database Event
insert_event run_id timestamp level stage message payload db =
    let event : Event = record {
      id = db.next_event_id;
      run_id = run_id;
      timestamp = timestamp;
      level = level;
      stage = stage;
      message = message;
      payload = payload;
    } in
    elim (find run_key run_id db.runs) [
      | none ↦ (raised integrity_error, db)
      | some _ ↦
          (ok event, record db { events = event ∷ db.events; next_event_id = suc db.next_event_id })
    ]

-- The heartbeat and the phase that an event leaves on its run.
abbrev pub stamp_run : String → String → String → Action Database (Option Run)
stamp_run run_id timestamp stage =
    conditional_update run_id (set_heartbeat_at (some timestamp) ∷ set_current_phase stage ∷ [])
      unguarded bump_on_phase

abbrev pub stamp_and_insert :
    String → String → String → String → String → Object → Action Database Event
stamp_and_insert run_id timestamp level stage message payload = do
  updated ← stamp_run run_id timestamp stage
  found updated
  insert_event run_id timestamp level stage message payload

-- `append_event`; the events are listed latest first.
unfoldable pub append_event :
    String
    → String
    → String
    → String
    → Object
    → Option String
    → Bool
    → String
    → Action Database Event
unfolding insert_event
append_event run_id level stage message payload timestamp update_run_metadata now db =
    if is_run_id run_id
    then (if update_run_metadata
        then stamp_and_insert run_id (or_else timestamp now) level stage message payload db
        else insert_event run_id (or_else timestamp now) level stage message payload db)
    else (raised value_error, db)

abbrev elapsed_field : Option ℕ → List Assignment
elapsed_field none = []
elapsed_field (some n) = set_elapsed_seconds n ∷ []

-- `set_progress`
unfoldable pub set_run_progress :
    String → String → Object → Option ℕ → Option String → String → Action Database Run
set_run_progress run_id phase progress elapsed_seconds heartbeat_at now = do
  updated ←
      conditional_update run_id
        (set_current_phase phase
          ∷ set_heartbeat_at (some (or_else heartbeat_at now))
          ∷ set_progress progress
          ∷ elapsed_field elapsed_seconds)
        unguarded bump_on_phase
  found updated

phase_or_running : String → String
phase_or_running phase = if phase == "" then "running" else phase

-- `heartbeat`
unfoldable pub heartbeat : String → ℕ → Object → String → Action Database Run
unfolding merge phase_or_running set_run_progress
heartbeat run_id elapsed_seconds updates now = do
  current ← get_run run_id
  set_run_progress run_id (phase_or_running current.current_phase) (merge current.progress updates)
      (some elapsed_seconds) none now
