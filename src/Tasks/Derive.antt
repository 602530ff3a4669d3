-- ===== src/Tasks/Derive.antt =====
-- soma/tasks/manager.py: what the observation of its run makes of a task.
use codex_bridge.Prelude.{
  String, Bool, true, false, not, Option, none, some, List, [], ◌∷◌, ◌==◌, option_eq, string_eq,
  if◌then◌else◌,
}
use codex_bridge.Prelude.Order.{text_leb, sort_by}
use codex_bridge.Prelude.Text.{Object, text, other}
use codex_bridge.Runs.Update.{is_empty}
use codex_bridge.Runs.Progress.{status_text}
use codex_bridge.Tasks.States.{task_state_eq, task_phase_eq}
use codex_bridge.Tasks.Tables.{backend_kind_eq, recovery_state_eq, EventLevel, Task}
use codex_bridge.Tasks.Update.{
  TaskField, set_state, set_phase, set_backend_ref, set_backend_executor, set_backend_identity,
  set_objective_ref, set_constraints_ref, set_workspace_kind, set_workspace_ref, set_checkpoint_ref,
  set_result_ref, set_result_hash, set_evidence_ref, set_recovery_state, set_task_recovery_reason,
  set_reconciled_at, set_task_started_at, set_task_ended_at, set_other,
}
use codex_bridge.Tasks.Observe.{Observation}
use codex_bridge.Tasks.Branches.{Derived, append_fields, derive}

-- `fields`, as it is in the end.
unfoldable pub target_fields : Derived → String → List TaskField
unfolding append_fields
target_fields d now = append_fields d.fields (
    set_state d.state
    ∷ set_phase d.phase
    ∷ set_recovery_state d.recovery_state
    ∷ set_task_recovery_reason d.reason
    ∷ set_reconciled_at (some now)
    ∷ [])

-- `name != "reconciled_at" and current.get(name) != value`; a name that `current` has not differs.
unfoldable pub differs : Task → TaskField → Bool
unfolding task_state_eq task_phase_eq recovery_state_eq
differs t (set_state v) = not (t.state == v)
differs t (set_phase v) = not (t.phase == v)
differs t (set_recovery_state v) = not (t.recovery_state == v)
differs t (set_task_recovery_reason v) = not (t.recovery_reason == v)
differs t (set_task_started_at v) = not (t.started_at == v)
differs t (set_task_ended_at v) = not (t.ended_at == v)
differs t (set_result_ref v) = not (t.result_ref == v)
differs t (set_result_hash v) = not (t.result_hash == v)
differs t (set_evidence_ref v) = not (t.evidence_ref == v)
differs t (set_reconciled_at v) = false
differs t _ = true

-- The column that a field is of.
column : TaskField → String
column (set_state v) = "state"
column (set_phase v) = "phase"
column (set_backend_ref v) = "backend_ref"
column (set_backend_executor v) = "backend_executor"
column (set_backend_identity v) = "backend_identity_json"
column (set_objective_ref v) = "objective_ref"
column (set_constraints_ref v) = "constraints_ref"
column (set_workspace_kind v) = "workspace_kind"
column (set_workspace_ref v) = "workspace_ref"
column (set_checkpoint_ref v) = "checkpoint_ref"
column (set_result_ref v) = "result_ref"
column (set_result_hash v) = "result_hash"
column (set_evidence_ref v) = "evidence_ref"
column (set_recovery_state v) = "recovery_state"
column (set_task_recovery_reason v) = "recovery_reason"
column (set_reconciled_at v) = "reconciled_at"
column (set_task_started_at v) = "started_at"
column (set_task_ended_at v) = "ended_at"
column (set_other v) = v

-- The names in `material`.
unfoldable pub material : Task → List TaskField → List String
unfolding differs column
material t [] = []
material t (f ∷ fs) = let rest = material t fs in if differs t f then column f ∷ rest else rest

-- The update and the event that `_derive_target` asks for.
pub record Target : Type 0 where
  pub fields : List TaskField
  pub level : EventLevel
  pub message : String
  pub payload : Object

append_object : Object → Object → Object
append_object [] p = p
append_object (e ∷ o) p = e ∷ append_object o p

-- `_derive_target`; a function prints the list of names.
unfoldable pub derive_target :
    (String → String) → (List String → String) → Task → Observation → String → Option Target
unfolding derive target_fields material status_text text_leb append_object is_empty
derive_target lower show_names t o now =
    let d = derive lower t o in
    let fields = target_fields d now in
    let changed = material t fields in
    if is_empty changed
    then none
    else some (record {
      fields = fields;
      level = d.level;
      message = d.message;
      payload =
          ("backend_reference", text t.backend_ref)
          ∷ ("backend_status", text (status_text o.status))
          ∷ append_object d.noted
              (("changed_fields", other true (show_names (sort_by text_leb changed))) ∷ []);
    })
