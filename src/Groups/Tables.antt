-- ===== src/Groups/Tables.antt =====
-- soma/parallel_groups.py: the tables of the groups, which stand in the database of the runs.
use codex_bridge.Prelude.{
  ℕ, String, Bool, true, Option, none, some, List, [], ◌∷◌, leb, ◌==◌, string_eq, Result, ok,
  raised, if◌then◌else◌, value_error, key_error, not,
}
use codex_bridge.Prelude.Table.{find}
use codex_bridge.Prelude.Order.{select, sort_by}
use codex_bridge.Prelude.Text.{Object}
use codex_bridge.Runs.RunId.{is_run_id}
use codex_bridge.Runs.Model.{Status, other_status, status_eq, Run, Database, run_key, ℤ}

-- The status that the run store has no name for.
abbrev pub pending : Status
pending = other_status "pending"

-- A child with its run, as the groups report it.
pub record ChildView : Type 0 where
  pub position : ℕ
  pub run_id : String
  pub idempotency_key : String
  pub status : Status
  pub current_phase : String
  pub summary : String
  pub error : String
  pub exit_code : Option ℤ
  pub started_at : Option String
  pub ended_at : Option String
  pub result : Object

-- The aggregate that `refresh_group` stores.
pub record Snapshot : Type 0 where
  pub group_id : String
  pub repo_name : String
  pub status : Status
  pub child_count : ℕ
  pub terminal_child_count : ℕ
  pub status_counts : List (Status × ℕ)
  pub children : List ChildView

-- A row of `command_groups`; no snapshot is `{}`.
pub record Group : Type 0 where
  pub group_id : String
  pub repo_name : String
  pub status : Status
  pub mode : String
  pub failure_policy : String
  pub repository_lock_policy : String
  pub requested_concurrency : Option ℕ
  pub created_at : String
  pub ended_at : Option String
  pub input : Object
  pub result : Option Snapshot

-- A row of `command_group_children`.
pub record Child : Type 0 where
  pub group_id : String
  pub position : ℕ
  pub run_id : String
  pub idempotency_key : String

pub record GroupTables : Type 0 where
  pub db : Database
  pub groups : List Group
  pub children : List Child

abbrev pub group_key : Group → String
group_key g = g.group_id

abbrev pub child_key : Child → String
child_key c = c.run_id

-- `JOIN runs AS run ON run.run_id = child.run_id`
unfoldable pub view_of : Child → Run → ChildView
view_of c r = record {
  position = c.position;
  run_id = c.run_id;
  idempotency_key = c.idempotency_key;
  status = r.status;
  current_phase = r.current_phase;
  summary = r.summary;
  error = r.error;
  exit_code = r.exit_code;
  started_at = r.started_at;
  ended_at = r.ended_at;
  result = r.result;
}

unfoldable pub join_runs : List Run → List Child → List ChildView
unfolding view_of
join_runs runs [] = []
join_runs runs (c ∷ cs) = elim (find run_key c.run_id runs) [
  | none ↦ join_runs runs cs
  | some r ↦ view_of c r ∷ join_runs runs cs
]

abbrev pub is_in_group : String → Child → Bool
is_in_group group_id c = c.group_id == group_id

abbrev pub is_before : Child → Child → Bool
is_before c d = leb c.position d.position

-- The children of a group with their runs, by position.
unfoldable pub group_children : String → GroupTables → List ChildView
unfolding join_runs
group_children group_id tables =
    join_runs tables.db.runs (sort_by is_before (select (is_in_group group_id) tables.children))

-- `get_group`
unfoldable pub get_group : String → GroupTables → Result (Group × List ChildView)
unfolding group_children
get_group group_id tables =
    if not (is_run_id group_id)
    then raised value_error
    else elim (find group_key group_id tables.groups) [
      | none ↦ raised key_error
      | some g ↦ ok (g, group_children group_id tables)
    ]

-- `get_group_for_child`
unfoldable pub get_group_for_child : String → GroupTables → Result (Group × List ChildView)
unfolding get_group
get_group_for_child run_id tables =
    if not (is_run_id run_id)
    then raised value_error
    else elim (find child_key run_id tables.children) [
      | none ↦ raised key_error
      | some c ↦ get_group c.group_id tables
    ]

-- `repository_lock_required_for_child`
unfoldable pub repository_lock_required_for_child : String → GroupTables → Result Bool
repository_lock_required_for_child run_id tables =
    if not (is_run_id run_id)
    then raised value_error
    else elim (find child_key run_id tables.children) [
      | none ↦ ok true
      | some c ↦ elim (find group_key c.group_id tables.groups) [
        | none ↦ ok true
        | some g ↦ ok (not (g.repository_lock_policy == "none"))
      ]
    ]
