-- ===== src/Tasks/Scopes.antt =====
-- soma/project_scope/store.py: the reads that bind a task to its project and to its run.
use codex_bridge.Prelude.{
  ℕ, String, Bool, not, ◌&&◌, none, some, List, contains, length, ltb, ◌==◌, string_eq, nat_eq,
  if◌then◌else◌, Result, ok, raised, scope_error,
}
use codex_bridge.Prelude.Table.{find, count_where}
use codex_bridge.Prelude.Chars.{codes}

-- A row of `project_task_reservations`.
pub record TaskReservation : Type 0 where
  pub task_id : String
  pub project_id : String
  pub scope_generation : ℕ
  pub status : String

-- A row of `project_run_attempts`.
pub record Attempt : Type 0 where
  pub run_id : String
  pub project_id : String
  pub task_id : String
  pub resource_id : String
  pub scope_generation : ℕ
  pub status : String

-- The tables, and whether they are installed.
pub record ScopeTables : Type 0 where
  pub is_installed : Bool
  pub reservations : List TaskReservation
  pub attempts : List Attempt

-- `ScopeProjection`
pub record Scope : Type 0 where
  pub binding_status : String
  pub project_id : String
  pub resource_id : String
  pub scope_generation : ℕ
  pub attempt_status : String

abbrev reservation_key : TaskReservation → String
reservation_key r = r.task_id

-- `UNIQUE(task_id)`
abbrev attempt_task : Attempt → String
attempt_task a = a.task_id

abbrev pub legacy_unassigned : Scope
legacy_unassigned = record {
  binding_status = "legacy_unassigned";
  project_id = "";
  resource_id = "";
  scope_generation = 0;
  attempt_status = "";
}

-- `scope_for_task`
unfoldable pub scope_for_task : String → ScopeTables → Scope
scope_for_task task_id tables =
    if not tables.is_installed
    then legacy_unassigned
    else elim (find reservation_key task_id tables.reservations) [
      | none ↦ legacy_unassigned
      | some r ↦ record {
        binding_status = r.status;
        project_id = r.project_id;
        resource_id = elim (find attempt_task task_id tables.attempts) [
          | none ↦ ""
          | some a ↦ a.resource_id
        ];
        scope_generation = r.scope_generation;
        attempt_status = elim (find attempt_task task_id tables.attempts) [
          | none ↦ ""
          | some a ↦ a.status
        ];
      }
    ]

-- `validate_opaque_id`
unfoldable pub is_opaque_id : String → Bool
unfolding codes nat_eq
is_opaque_id value =
    not (value == "") && not (ltb 128 (length (codes value))) && not (contains (codes value) 0)

-- `require_task`
unfoldable pub require_task : String → String → ScopeTables → Result Scope
unfolding scope_for_task is_opaque_id
require_task project_id task_id tables =
    let scope = scope_for_task task_id tables in
    if not (is_opaque_id project_id)
    then raised scope_error
    else if scope.project_id == ""
    then raised scope_error
    else if not (scope.project_id == project_id)
    then raised scope_error
    else ok scope

is_attempt : String → String → String → Attempt → Bool
is_attempt project_id task_id run_id a =
    a.project_id == project_id
    && a.task_id == task_id
    && a.run_id == run_id
    && not (a.status == "quarantined")

-- `require_task_attempt`
unfoldable pub require_task_attempt : String → String → String → ScopeTables → Result Scope
unfolding require_task is_attempt nat_eq
require_task_attempt project_id task_id run_id tables =
    elim (require_task project_id task_id tables) [
      | raised e ↦ raised e
      | ok scope ↦
          if count_where (is_attempt project_id task_id run_id) tables.attempts == 0
          then raised scope_error
          else ok scope
    ]
