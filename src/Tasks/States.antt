-- ===== src/Tasks/States.antt =====
-- soma/tasks/models.py: the states of a task, and what the status of its run says about them. A
-- status that the tables do not hold is `other_status`.
use codex_bridge.Prelude.{
  Bool, ◌||◌, Option, none, some, List, [], ◌∷◌, Eq, ◌==◌, contains, if◌then◌else◌,
}
use codex_bridge.Runs.Model.{
  Status, launch_pending, queued, running, cancellation_pending, recovery_pending, completed,
  partial, failed, cancelled, timed_out, needs_input, other_status,
}

-- `TaskState`
pub data TaskState : Type 0 where
  task_accepted task_queued task_running awaiting_controller task_paused : TaskState
  task_cancellation_pending task_recovery_pending task_completed task_failed : TaskState
  task_cancelled uncertain : TaskState

pub TaskState-discrete : Discrete TaskState
TaskState-discrete = hlevel

instance unfoldable pub task_state_eq : Eq TaskState
unfolding TaskState-discrete
task_state_eq = record { dec = TaskState-discrete }

-- `TaskPhase`
pub data TaskPhase : Type 0 where
  no_phase phase_accepted backend_reserved backend_launching backend_running : TaskPhase
  backend_terminal cancellation_requested recovery result_published : TaskPhase

pub TaskPhase-discrete : Discrete TaskPhase
TaskPhase-discrete = hlevel

instance unfoldable pub task_phase_eq : Eq TaskPhase
unfolding TaskPhase-discrete
task_phase_eq = record { dec = TaskPhase-discrete }

abbrev pub terminal_task_states : List TaskState
terminal_task_states = task_completed ∷ task_failed ∷ task_cancelled ∷ []

-- `TaskRecord.is_terminal`
unfoldable pub is_terminal_task : TaskState → Bool
is_terminal_task s = contains terminal_task_states s

-- `BACKEND_RUN_STATE_MAP`
backend_run_state : Status → Option TaskState
backend_run_state launch_pending = some task_queued
backend_run_state queued = some task_queued
backend_run_state running = some task_running
backend_run_state cancellation_pending = some task_cancellation_pending
backend_run_state recovery_pending = some task_recovery_pending
backend_run_state completed = some task_completed
backend_run_state partial = some task_completed
backend_run_state timed_out = some task_failed
backend_run_state failed = some task_failed
backend_run_state cancelled = some task_cancelled
backend_run_state needs_input = some awaiting_controller
backend_run_state (other_status s) = none

-- `BACKEND_RUN_PHASE_MAP`
backend_run_phase : Status → Option TaskPhase
backend_run_phase launch_pending = some backend_launching
backend_run_phase queued = some backend_launching
backend_run_phase running = some backend_running
backend_run_phase cancellation_pending = some cancellation_requested
backend_run_phase recovery_pending = some recovery
backend_run_phase _ = none

-- `map_backend_status`
unfoldable pub map_backend_status : Status → TaskState × TaskPhase
unfolding backend_run_state backend_run_phase is_terminal_task task_state_eq
map_backend_status status = elim (backend_run_state status) [
  | none ↦ (uncertain, recovery)
  | some state ↦ elim (backend_run_phase status) [
    | some phase ↦ (state, phase)
    | none ↦ (
      state,
      if is_terminal_task state || state == awaiting_controller then backend_terminal else no_phase,
    )
  ]
]
