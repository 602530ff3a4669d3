-- ===== src/Tasks/Mirror.antt =====
-- soma/tasks/models.py: the state of a task follows its run.
use codex_bridge.Prelude.{String, ◌≡◌, refl, true, ◌||◌, ◌==◌, contains, some, ◌∷◌, [], string_eq}
use codex_bridge.Prelude.Table.{find}
use codex_bridge.Runs.Model.{
  Status, status_eq, is_terminal, Run, Database, run_key, completed, partial, other_status,
}
use codex_bridge.Tasks.States.{
  TaskState, task_state_eq, TaskPhase, awaiting_controller, task_completed, is_terminal_task,
  map_backend_status,
}

-- A task is finished, or waits for its controller, exactly if its run has ended; it counts as
-- completed exactly if the run is completed or partial, so no unknown status becomes a success.
pub map_backend_status-ends :
    (status : Status)
    → let (state, phase) = map_backend_status status in
      ((is_terminal_task state || state == awaiting_controller) ≡ is_terminal status)
      × ((state == task_completed) ≡ contains (completed ∷ partial ∷ []) status)
unfolding map_backend_status is_terminal_task is_terminal task_state_eq status_eq
map_backend_status-ends (other_status s) = (refl, refl)
map_backend_status-ends _ = (refl, refl)

-- The run is found with a terminal status that maps to this state and this phase.
abbrev pub Settled : String → TaskState × TaskPhase → Database → Type 0
Settled run_id told db =
    (r : Run) × (find run_key run_id db.runs ≡ some r)
    × (is_terminal r.status ≡ true)
    × (map_backend_status r.status ≡ told)
