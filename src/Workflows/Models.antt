-- ===== src/Workflows/Models.antt =====
-- soma/workflows/models.py: the definition of a workflow, and the check of the graph of its steps.
use codex_bridge.Prelude.{
  ℕ, zero, suc, String, Bool, true, false, Option, none, some, List, [], ◌∷◌, ◌==◌, ◌&&◌, ◌||◌,
  contains, string_eq, not, if◌then◌else◌, Result, ok, raised, value_error, key_error, map, length,
  ltb, leb, Eq,
}
use codex_bridge.Prelude.Chars.{strip}
use codex_bridge.Prelude.Text.{Object}
use codex_bridge.Runs.Update.{is_empty}

-- `WorkflowStepType`
pub data StepType : Type 0 where
  codex_implement project_command pytest_path git_readonly local_summary : StepType

pub StepType-discrete : Discrete StepType
StepType-discrete = hlevel

instance unfoldable pub step_type_eq : Eq StepType
unfolding StepType-discrete
step_type_eq = record { dec = StepType-discrete }

-- `StepOnFailure`
pub data OnFailure : Type 0 where
  stop_workflow continue_workflow : OnFailure

-- `WorkflowStepDefinition`
pub record StepDefinition : Type 0 where
  pub id : String
  pub step_type : StepType
  pub depends_on : List String
  pub on_failure : OnFailure
  pub parameters : Object

-- `MAX_WORKFLOW_STEPS`
abbrev pub max_workflow_steps : ℕ
max_workflow_steps = 50

-- The loop over the identifiers, with those that were seen.
unfoldable pub has_good_ids : List String → List StepDefinition → Bool
unfolding strip
has_good_ids seen [] = true
has_good_ids seen (s ∷ rest) =
    not (strip s.id == "") && not (contains seen s.id) && has_good_ids (s.id ∷ seen) rest

-- `index_by_id`
unfoldable pub index_by_id : ℕ → List StepDefinition → List (String × ℕ)
index_by_id index [] = []
index_by_id index (s ∷ rest) = (s.id, index) ∷ index_by_id (suc index) rest

unfoldable pub index_of : String → List (String × ℕ) → Option ℕ
index_of id [] = none
index_of id ((j, n) ∷ rest) = if j == id then some n else index_of id rest

-- A dependency is there, and stands before the step.
unfoldable pub is_earlier_step : List (String × ℕ) → ℕ → String → Bool
unfolding index_of
is_earlier_step table index dependency = elim (index_of dependency table) [
  | none ↦ false
  | some n ↦ not (leb index n)
]

unfoldable pub all_earlier : List (String × ℕ) → ℕ → List String → Bool
unfolding is_earlier_step
all_earlier table index [] = true
all_earlier table index (d ∷ rest) = is_earlier_step table index d && all_earlier table index rest

-- The loop over the dependencies.
unfoldable pub has_good_dependencies : List (String × ℕ) → ℕ → List StepDefinition → Bool
unfolding all_earlier
has_good_dependencies table index [] = true
has_good_dependencies table index (s ∷ rest) =
    all_earlier table index s.depends_on && has_good_dependencies table (suc index) rest

-- The sets of the search.
pub record Marks : Type 0 where
  pub visiting : List String
  pub visited : List String

-- How a search ends; it is given fuel, and a key that is not in the table raises.
pub data Search : Type 0 where
  found_none : Marks → Search
  found_cycle : Search
  missing : Search
  out_of_fuel : Search

-- `visiting.remove(step_id)`
unfoldable pub remove : String → List String → List String
remove id [] = []
remove id (x ∷ xs) = if x == id then xs else x ∷ remove id xs

-- `self.steps[index_by_id[step_id]]`, whose index is that of the step with the identifier.
unfoldable pub find_step : String → List StepDefinition → Option StepDefinition
find_step id [] = none
find_step id (s ∷ rest) = if s.id == id then some s else find_step id rest

-- The loop over the dependencies, with the call for one of them.
unfoldable pub visit_all : (String → Marks → Search) → List String → Marks → Search
visit_all call [] m = found_none m
visit_all call (d ∷ ds) m = elim (call d m) [
  | found_none after ↦ visit_all call ds after
  | found_cycle ↦ found_cycle
  | missing ↦ missing
  | out_of_fuel ↦ out_of_fuel
]

-- The end of a visit: the step leaves `visiting` and enters `visited`.
unfoldable pub leave : String → Search → Search
unfolding remove
leave id (found_none m) =
    found_none (record { visiting = remove id m.visiting; visited = id ∷ m.visited })
leave id found_cycle = found_cycle
leave id missing = missing
leave id out_of_fuel = out_of_fuel

-- `visit`
unfoldable pub visit : ℕ → List StepDefinition → String → Marks → Search
unfolding find_step visit_all leave
visit zero steps id m = out_of_fuel
visit (suc fuel) steps id m =
    let call = visit fuel steps in
    if contains m.visited id
    then found_none m
    else if contains m.visiting id
    then found_cycle
    else elim (find_step id steps) [
      | none ↦ missing
      | some s ↦ leave id (visit_all call s.depends_on (record m { visiting = id ∷ m.visiting }))
    ]

abbrev pub ids_of : List StepDefinition → List String
ids_of = map (λ s. s.id)

-- The search from every step, with as much fuel as there are steps.
unfoldable pub search_cycles : List StepDefinition → Search
unfolding visit
search_cycles steps =
    visit_all (visit (length steps) steps) (ids_of steps) (record { visiting = []; visited = [] })

-- `validate_graph`; none where the fuel did not do.
unfoldable pub validate_graph : List StepDefinition → Option (Result (Unit {0}))
unfolding is_empty has_good_ids index_by_id has_good_dependencies search_cycles
validate_graph steps =
    if is_empty steps
    then some (raised value_error)
    else if ltb max_workflow_steps (length steps)
    then some (raised value_error)
    else if not (has_good_ids [] steps)
    then some (raised value_error)
    else if not (has_good_dependencies (index_by_id 0 steps) 0 steps)
    then some (raised value_error)
    else elim (search_cycles steps) [
      | found_none _ ↦ some (ok tt)
      | found_cycle ↦ some (raised value_error)
      | missing ↦ some (raised key_error)
      | out_of_fuel ↦ none
    ]

unfoldable pub has_obsolete : List StepDefinition → Bool
unfolding step_type_eq
has_obsolete [] = false
has_obsolete (s ∷ rest) = s.step_type == codex_implement || has_obsolete rest

-- The validators of `WorkflowDefinition`, in order.
unfoldable pub validate_workflow : List StepDefinition → Option (Result (Unit {0}))
unfolding has_obsolete validate_graph
validate_workflow steps =
    if has_obsolete steps then some (raised value_error) else validate_graph steps
