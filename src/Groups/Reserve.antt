-- ===== src/Groups/Reserve.antt =====
-- soma/parallel_groups.py: the reservation of a group. A missing key of a child is an empty text.
use codex_bridge.Prelude.{
  ℕ, suc, String, Bool, true, false, Option, none, some, List, [], ◌∷◌, ◌==◌, ◌&&◌, ◌||◌, contains,
  string_eq, nat_eq, not, if◌then◌else◌, Action, ok, raised, pure, atomic, ◌>>=◌, ◌>>◌, value_error,
  integrity_error, ltb,
}
use codex_bridge.Prelude.Table.{find, insert, count_where}
use codex_bridge.Prelude.Chars.{strip}
use codex_bridge.Prelude.Text.{Object}
use codex_bridge.Runs.RunId.{is_run_id}
use codex_bridge.Runs.Model.{Status, status_eq, launch_pending, run_key}
use codex_bridge.Runs.Progress.{NewRun, new_run}
use codex_bridge.Runs.Update.{is_empty}
use codex_bridge.Groups.Tables.{
  pending, Group, Child, GroupTables, ChildView, group_key, child_key, get_group,
}

-- One entry of `children`.
pub record NewChild : Type 0 where
  pub run_id : String
  pub idempotency_key : String
  pub tool : String
  pub run_dir : Option String
  pub input : Object
  pub risk_level : String
  pub requires_human : Bool
  pub worker_lease_token : String
  pub initial_status : String

-- The arguments of `reserve_group`.
pub record NewGroup : Type 0 where
  pub group_id : String
  pub repo_name : String
  pub children : List NewChild
  pub mode : String
  pub failure_policy : String
  pub repository_lock_policy : String
  pub requested_concurrency : Option ℕ
  pub input : Object

abbrev default_to : String → String → String
default_to fallback s = if s == "" then fallback else s

-- `initial_status`, if it is one of the two that are allowed.
unfoldable pub initial_status_of : NewChild → Option Status
initial_status_of c =
    let status = default_to "launch_pending" c.initial_status in
    if status == "pending"
    then some pending
    else if status == "launch_pending"
    then some launch_pending
    else none

unfoldable pub has_run_dir : NewChild → Bool
unfolding strip
has_run_dir c = elim c.run_dir [ none ↦ false | some d ↦ not (strip d == "") ]

-- The row of the child and of its run.
pub record Normalized : Type 0 where
  pub position : ℕ
  pub idempotency_key : String
  pub run : NewRun

or_empty : Option String → String
or_empty none = ""
or_empty (some s) = s

unfoldable pub normalized : String → ℕ → NewChild → Status → Normalized
unfolding or_empty strip
normalized repo_name position c status = record {
  position = position;
  idempotency_key = strip c.idempotency_key;
  run = record {
    run_id = c.run_id;
    repo_name = repo_name;
    tool = default_to "executable_profile" c.tool;
    run_dir = or_empty c.run_dir;
    input = c.input;
    risk_level = default_to "high" c.risk_level;
    requires_human = c.requires_human;
    status = status;
    worker_lease_token = c.worker_lease_token;
  };
}

-- The guards of the loop over the children, for one of them.
unfoldable pub is_child : List String → List String → NewChild → Bool
unfolding strip has_run_dir
is_child run_ids keys c =
    is_run_id c.run_id
    && not (strip c.idempotency_key == "")
    && not (contains run_ids c.run_id)
    && not (contains keys (strip c.idempotency_key))
    && not (c.worker_lease_token == "")
    && has_run_dir c

-- The loop: the children in order, each with its position, or none where a guard raises.
unfoldable pub normalize_children :
    String → ℕ → List String → List String → List NewChild → Option (List Normalized)
unfolding is_child initial_status_of normalized
normalize_children repo_name position run_ids keys [] = some []
normalize_children repo_name position run_ids keys (c ∷ cs) =
    let rest =
      normalize_children repo_name (suc position) (c.run_id ∷ run_ids)
        (strip c.idempotency_key ∷ keys) cs in
    if is_child run_ids keys c
    then elim (initial_status_of c) [
      | none ↦ none
      | some status ↦ elim rest [
        | none ↦ none
        | some ns ↦ some (normalized repo_name position c status ∷ ns)
      ]
    ]
    else none

abbrev pub new_group : NewGroup → String → Group
new_group n now = record {
  group_id = n.group_id;
  repo_name = n.repo_name;
  status = launch_pending;
  mode = n.mode;
  failure_policy = n.failure_policy;
  repository_lock_policy = n.repository_lock_policy;
  requested_concurrency = n.requested_concurrency;
  created_at = now;
  ended_at = none;
  input = n.input;
  result = none;
}

unfoldable pub insert_group : NewGroup → String → Action GroupTables (Unit {0})
insert_group n now tables = elim (insert group_key (new_group n now) tables.groups) [
  | none ↦ (raised integrity_error, tables)
  | some rows ↦ (ok tt, record tables { groups = rows })
]

unfoldable pub insert_run : NewRun → String → Action GroupTables (Unit {0})
insert_run n now tables = elim (insert run_key (new_run n now) tables.db.runs) [
  | none ↦ (raised integrity_error, tables)
  | some rows ↦ (ok tt, record tables { db = record tables.db { runs = rows } })
]

-- The keys of the table beside that of the run.
unfoldable pub is_taken : Child → Child → Bool
is_taken c d =
    c.group_id == d.group_id && (c.position == d.position || c.idempotency_key == d.idempotency_key)

abbrev pub new_child : String → Normalized → Child
new_child group_id n = record {
  group_id = group_id;
  position = n.position;
  run_id = n.run.run_id;
  idempotency_key = n.idempotency_key;
}

unfoldable pub insert_child : String → Normalized → Action GroupTables (Unit {0})
unfolding is_taken
insert_child group_id n tables = elim (insert child_key (new_child group_id n) tables.children) [
  | none ↦ (raised integrity_error, tables)
  | some rows ↦
      if not (count_where (is_taken (new_child group_id n)) tables.children == 0)
      then (raised integrity_error, tables)
      else elim (find run_key n.run.run_id tables.db.runs) [
        | none ↦ (raised integrity_error, tables)
        | some _ ↦ (ok tt, record tables { children = rows })
      ]
]

unfoldable pub insert_children : String → String → List Normalized → Action GroupTables (Unit {0})
unfolding insert_run insert_child
insert_children group_id now [] = pure tt
insert_children group_id now (n ∷ ns) = do
  insert_run n.run now
  insert_child group_id n
  insert_children group_id now ns

-- The transaction.
unfoldable pub insert_all : NewGroup → List Normalized → String → Action GroupTables (Unit {0})
unfolding insert_group insert_children
insert_all n children now = do insert_group n now; insert_children n.group_id now children

-- `requested_concurrency is not None and int(requested_concurrency) < 1`
unfoldable pub is_concurrency : Option ℕ → Bool
is_concurrency none = true
is_concurrency (some k) = ltb 0 k

-- `reserve_group`
unfoldable pub reserve_group : NewGroup → String → Action GroupTables (Group × List ChildView)
unfolding is_empty is_concurrency normalize_children insert_all get_group
reserve_group n now tables =
    if not (is_run_id n.group_id)
    then (raised value_error, tables)
    else if is_empty n.children
    then (raised value_error, tables)
    else if not (is_concurrency n.requested_concurrency)
    then (raised value_error, tables)
    else elim (normalize_children n.repo_name 0 [] [] n.children) [
      | none ↦ (raised value_error, tables)
      | some children ↦
          (atomic (insert_all n children now) >>= (λ _ d. (get_group n.group_id d, d))) tables
    ]
