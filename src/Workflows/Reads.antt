-- ===== src/Workflows/Reads.antt =====
-- soma/workflows/store.py: the other reads. A read changes nothing, so it is a function of the tables.
use codex_bridge.Prelude.{
  ℕ, max, min, String, Bool, List, [], ◌∷◌, map, take, contains, leb, ◌==◌, string_eq,
}
use codex_bridge.Prelude.Order.{text_leb, select, sort_by}
use codex_bridge.Workflows.Tables.{
  WorkflowStatus, workflow_status_eq, workflow_queued, workflow_running,
  workflow_cancellation_pending, workflow_recovery_pending, needs_approval, workflow_needs_input,
  workflow_completed, workflow_failed, workflow_cancelled, reported, Workflow, WorkflowEvent,
  WorkflowTables, Shown, hydrate, steps_of,
}

is_later_event : WorkflowEvent → WorkflowEvent → Bool
is_later_event e f = leb f.id e.id

is_earlier_event : WorkflowEvent → WorkflowEvent → Bool
is_earlier_event e f = leb e.id f.id

-- `get_events`: the last events, in their order.
unfoldable pub get_events : String → ℕ → WorkflowTables → List WorkflowEvent
unfolding is_later_event is_earlier_event
get_events workflow_id limit tables = sort_by is_earlier_event (
    take (max 1 (min limit 500))
      (sort_by is_later_event (select (λ e. e.workflow_id == workflow_id) tables.events)))

abbrev recoverable_statuses : List WorkflowStatus
recoverable_statuses =
    workflow_queued ∷ workflow_running ∷ workflow_cancellation_pending ∷ workflow_recovery_pending
    ∷ workflow_completed ∷ workflow_failed ∷ workflow_cancelled ∷ workflow_needs_input
    ∷ needs_approval ∷ reported ∷ []

is_recoverable : Workflow → Bool
unfolding workflow_status_eq
is_recoverable w = contains recoverable_statuses w.status

is_created_earlier : Workflow → Workflow → Bool
unfolding text_leb
is_created_earlier v w = text_leb v.created_at w.created_at

-- `iter_recoverable_workflows`
unfoldable pub iter_recoverable_workflows : WorkflowTables → List Shown
unfolding is_recoverable is_created_earlier hydrate steps_of
iter_recoverable_workflows tables =
    map (λ w. (hydrate w, steps_of w.workflow_id tables.steps))
      (sort_by is_created_earlier (select is_recoverable tables.workflows))
