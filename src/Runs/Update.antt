-- ===== src/Runs/Update.antt =====
-- soma/run_store.py: the values that an update writes, and the compare-and-set update.
use codex_bridge.Prelude.{
  ℕ, String, ◌+◌, Bool, true, false, not, ◌&&◌, ◌||◌, Option, none, some, List, [], ◌∷◌, ◌++◌, ◌==◌,
  contains, Eq, string_eq, nat_eq, option_eq, if◌then◌else◌, Action, pure, ◌>>=◌, value_error,
  key_error, ok, raised,
}
use codex_bridge.Prelude.Table.{find, update_where, count_where, keyed}
use codex_bridge.Prelude.Text.{Json, get, first_chars, text_or_empty}
use codex_bridge.Runs.RunId.{is_run_id}
use codex_bridge.Runs.Model.{
  Status, status_eq, is_terminal, Run, Assignment, Database, run_key, all_supported, set_status,
  set_current_phase, set_launcher_pid, set_worker_pid, set_worker_lease_token, set_lease_generation,
  set_worker_identity, set_worker_claimed_at, set_launch_attempts, set_started_at, set_ended_at,
  set_duration_seconds, set_pid, set_exit_code, set_summary, set_error, set_safety_failure,
  set_heartbeat_at, set_elapsed_seconds, set_progress, set_result, set_result_publication_status,
  set_result_published_hash, set_result_published_at, set_result_publication_error,
  set_public_result, set_public_result_schema_version, set_public_result_source_sha256,
  set_public_result_status, set_public_result_error, set_recovery_reason, set_last_output_at,
  set_cancellation_requested_at, set_unsupported,
}

-- The time columns that a progress object carries along.
carried : (String → Assignment) → Option Json → List Assignment
unfolding first_chars text_or_empty
carried column none = []
carried column (some v) = column (first_chars 128 (text_or_empty v)) ∷ []

-- What one field of `_normalize_update_values` becomes.
unfoldable pub normalize_field : Assignment → List Assignment
unfolding carried first_chars get
normalize_field (set_progress p) =
    set_progress p
    ∷ (carried set_last_output_at (get "last_output_at" p)
        ++ carried set_cancellation_requested_at (get "cancellation_requested_at" p))
normalize_field (set_last_output_at s) = set_last_output_at (first_chars 128 s) ∷ []
normalize_field (set_cancellation_requested_at s) =
    set_cancellation_requested_at (first_chars 128 s) ∷ []
normalize_field (set_result_publication_status s) =
    set_result_publication_status (first_chars 32 s) ∷ []
normalize_field (set_result_published_hash s) = set_result_published_hash (first_chars 128 s) ∷ []
normalize_field (set_result_publication_error s) =
    set_result_publication_error (first_chars 2000 s) ∷ []
normalize_field (set_public_result_schema_version s) =
    set_public_result_schema_version (first_chars 128 s) ∷ []
normalize_field (set_public_result_source_sha256 s) =
    set_public_result_source_sha256 (first_chars 128 s) ∷ []
normalize_field (set_public_result_status s) = set_public_result_status (first_chars 32 s) ∷ []
normalize_field (set_public_result_error s) = set_public_result_error (first_chars 2000 s) ∷ []
normalize_field a = a ∷ []

-- `_normalize_update_values` of fields that a conditional update accepts.
unfoldable pub normalize : List Assignment → List Assignment
unfolding normalize_field
normalize [] = []
normalize (a ∷ rest) = normalize_field a ++ normalize rest

unfoldable pub assign : Assignment → Run → Run
assign (set_status v) r = record r { status = v }
assign (set_current_phase v) r = record r { current_phase = v }
assign (set_launcher_pid v) r = record r { launcher_pid = v }
assign (set_worker_pid v) r = record r { worker_pid = v }
assign (set_worker_lease_token v) r = record r { worker_lease_token = v }
assign (set_lease_generation v) r = record r { lease_generation = v }
assign (set_worker_identity v) r = record r { worker_identity = v }
assign (set_worker_claimed_at v) r = record r { worker_claimed_at = v }
assign (set_launch_attempts v) r = record r { launch_attempts = v }
assign (set_started_at v) r = record r { started_at = v }
assign (set_ended_at v) r = record r { ended_at = v }
assign (set_duration_seconds v) r = record r { duration_seconds = v }
assign (set_pid v) r = record r { pid = v }
assign (set_exit_code v) r = record r { exit_code = v }
assign (set_summary v) r = record r { summary = v }
assign (set_error v) r = record r { error = v }
assign (set_safety_failure v) r = record r { safety_failure = v }
assign (set_heartbeat_at v) r = record r { heartbeat_at = v }
assign (set_elapsed_seconds v) r = record r { elapsed_seconds = v }
assign (set_progress v) r = record r { progress = v }
assign (set_result v) r = record r { result = v }
assign (set_result_publication_status v) r = record r { result_publication_status = v }
assign (set_result_published_hash v) r = record r { result_published_hash = v }
assign (set_result_published_at v) r = record r { result_published_at = v }
assign (set_result_publication_error v) r = record r { result_publication_error = v }
assign (set_public_result v) r = record r { public_result = v }
assign (set_public_result_schema_version v) r = record r { public_result_schema_version = v }
assign (set_public_result_source_sha256 v) r = record r { public_result_source_sha256 = v }
assign (set_public_result_status v) r = record r { public_result_status = v }
assign (set_public_result_error v) r = record r { public_result_error = v }
assign (set_recovery_reason v) r = record r { recovery_reason = v }
assign (set_last_output_at v) r = record r { last_output_at = v }
assign (set_cancellation_requested_at v) r = record r { cancellation_requested_at = v }
assign (set_unsupported _) r = r

unfoldable pub assign_all : List Assignment → Run → Run
unfolding assign
assign_all [] r = r
assign_all (a ∷ rest) r = assign_all rest (assign a r)

phase_of : List Assignment → Option String
phase_of [] = none
phase_of (set_current_phase p ∷ rest) = elim (phase_of rest) [ none ↦ some p | some q ↦ some q ]
phase_of (_ ∷ rest) = phase_of rest

-- The arguments of `conditional_update` that are conditions; `none` is an argument not given. The
-- heartbeat may be expected to be `NULL`.
pub record Guard : Type 0 where
  pub expected_statuses : Option (List Status)
  pub expected_state_version : Option ℕ
  pub expected_lease_token : Option String
  pub expected_lease_generation : Option ℕ
  pub expected_heartbeat_at : Option (Option String)
  pub reject_terminal : Bool

-- A condition on a value that may be left out.
expects {ℓ} : {A : Type ℓ} ⦃e : Eq A⦄ → Option A → A → Bool
expects none a = true
expects (some b) a = a == b

unfoldable pub expects_status : Option (List Status) → Status → Bool
expects_status none s = true
expects_status (some statuses) s = contains statuses s

-- The `WHERE` clause after `run_id = ?`.
unfoldable pub admits : Guard → Run → Bool
unfolding expects expects_status is_terminal
admits g r =
    expects_status g.expected_statuses r.status
    && expects g.expected_state_version r.state_version
    && expects g.expected_lease_token r.worker_lease_token
    && expects g.expected_lease_generation r.lease_generation
    && expects g.expected_heartbeat_at r.heartbeat_at
    && not (g.reject_terminal && is_terminal r.status)

-- How an update treats `state_version`: the two Boolean arguments of `conditional_update`.
pub record Bump : Type 0 where
  pub always : Bool
  pub if_phase_changes : Bool

changed : Option String → String → Bool
changed none phase = false
changed (some new_phase) phase = not (phase == new_phase)

-- The new `state_version`, computed from the row as it was.
unfoldable pub next_version : List Assignment → Bump → Run → ℕ
unfolding phase_of changed
next_version fields bump r =
    if bump.always
    then r.state_version + 1
    else if bump.if_phase_changes && changed (phase_of fields) r.current_phase
    then r.state_version + 1
    else r.state_version

-- The row after the update.
unfoldable pub written : List Assignment → Bump → Run → Run
unfolding next_version
written fields bump r = record (assign_all fields r) { state_version = next_version fields bump r }

unfoldable pub is_empty {ℓ} : {A : Type ℓ} → List A → Bool
is_empty [] = true
is_empty (_ ∷ _) = false

is_none {ℓ} : {A : Type ℓ} → Option A → Bool
is_none none = true
is_none (some _) = false

-- The checks of the arguments, each of which raises `ValueError`.
unfoldable pub is_request : String → List Assignment → Bump → Bool
unfolding is_empty is_none phase_of
is_request run_id fields bump =
    is_run_id run_id
    && all_supported fields
    && not (bump.always && bump.if_phase_changes)
    && (not (is_empty fields) || bump.always || bump.if_phase_changes)
    && (not bump.if_phase_changes || not (is_none (phase_of fields)))

-- `get_run`
unfoldable pub get_run : String → Action Database Run
get_run run_id db =
    if is_run_id run_id
    then elim (find run_key run_id db.runs) [ none ↦ (raised key_error, db) | some r ↦ (ok r, db) ]
    else (raised value_error, db)

unfoldable pub rejects_all : Guard → Bool
unfolding is_empty
rejects_all g = elim g.expected_statuses [ none ↦ false | some statuses ↦ is_empty statuses ]

-- The statement itself: the number of rows that it met, and the database after it.
unfoldable pub update_rows : String → List Assignment → Guard → Bump → Database → Database
update_rows run_id fields g bump db = record db {
  runs = update_where (keyed run_key run_id (admits g)) (written (normalize fields) bump) db.runs;
}

unfoldable pub conditional_update :
    String → List Assignment → Guard → Bump → Action Database (Option Run)
unfolding rejects_all update_rows get_run is_empty
conditional_update run_id fields g bump db =
    if not (is_request run_id fields bump)
    then (raised value_error, db)
    else if rejects_all g
    then (ok none, db)
    else if count_where (keyed run_key run_id (admits g)) db.runs == 1
    then (do r ← get_run run_id; pure (some r)) (update_rows run_id fields g bump db)
    else (ok none, update_rows run_id fields g bump db)
