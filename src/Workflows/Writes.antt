-- ===== src/Workflows/Writes.antt =====
-- soma/workflows/store.py: the writes to the workflows as steps, the public
-- conditional_update_workflow with any arguments among them.
use codex_bridge.Prelude.{ℕ, String, Bool, true, ◌&&◌, ◌||◌, Option, List, [], ◌∷◌}
use codex_bridge.Prelude.Text.{Object}
use codex_bridge.Tasks.Tables.{EventLevel}
use codex_bridge.Workflows.Tables.{WorkflowStatus, WorkflowTables, Shown}
use codex_bridge.Workflows.Update.{WorkflowField, WorkflowGuard, conditional_update_workflow}
use codex_bridge.Workflows.Lasting.{keeps_terminal}
use codex_bridge.Workflows.Worker.{
  Lease, record_workflow_launch, claim_workflow_write, heartbeat_workflow, adopt_workflow,
  relaunch_write, request_cancellation, mark_cancellation_retry, mark_workflow_recovery,
  end_workflow,
}
use codex_bridge.Workflows.Reports.{
  begin_publication, mark_publication_complete, mark_publication_failed, mark_reported,
  append_workflow_event,
}
use codex_bridge.Workflows.Steps.{NewWorkflow, create_workflow, claim_step}
use codex_bridge.Workflows.StepUpdate.{
  StepUpdate, conditional_update_step, finalize_cancellation, cancel_workflow,
}

-- A write that follows a read takes the workflow that was read, which another may have changed since.
pub data WorkflowWrite : Type 0 where
  create : NewWorkflow → String → WorkflowWrite
  launch : String → ℕ → Lease → String → String → WorkflowWrite
  claim : String → Lease → ℕ → String → String → Shown → WorkflowWrite
  beat : String → String → ℕ → ℕ → String → WorkflowWrite
  adopt : String → Lease → Option String → String → WorkflowWrite
  relaunch :
      String → List WorkflowStatus → Lease → Option String → String → String → Shown → WorkflowWrite
  ask_cancel : String → List WorkflowStatus → Lease → Object → String → WorkflowWrite
  retry_cancel : String → Lease → Object → String → String → WorkflowWrite
  recover : String → List WorkflowStatus → Lease → String → Option Object → String → WorkflowWrite
  end_with : String → WorkflowStatus → Lease → String → String → String → WorkflowWrite
  publish : String → WorkflowStatus → ℕ → String → String → WorkflowWrite
  complete :
      String → WorkflowStatus → ℕ → String → WorkflowStatus → List String → String → WorkflowWrite
  fail_publication : String → WorkflowStatus → ℕ → String → String → String → WorkflowWrite
  report : String → WorkflowStatus → ℕ → WorkflowStatus → List String → String → WorkflowWrite
  log :
      String → EventLevel → String → String → Object → Bool → WorkflowGuard → String → WorkflowWrite
  take_step :
      String → String → String → ℕ → Option String → Option ℕ → Option ℕ → String → WorkflowWrite
  update_one : StepUpdate → String → WorkflowWrite
  finish_cancel : String → Lease → Object → String → WorkflowWrite
  cancel : String → List WorkflowStatus → Lease → Object → String → WorkflowWrite
  update_with : String → List WorkflowField → WorkflowGuard → Bool → String → WorkflowWrite

unfoldable pub write_workflow : WorkflowWrite → WorkflowTables → WorkflowTables
write_workflow (create n now) t = (create_workflow n now t).1
write_workflow (launch i p l d now) t = (record_workflow_launch i p l d now t).1
write_workflow (claim i l p d now seen) t = (claim_workflow_write i l p d now seen t).1
write_workflow (beat i k g p now) t = (heartbeat_workflow i k g p now t).1
write_workflow (adopt i l h now) t = (adopt_workflow i l h now t).1
write_workflow (relaunch i ss l h k now seen) t = (relaunch_write i ss l h k now seen t).1
write_workflow (ask_cancel i ss l o now) t = (request_cancellation i ss l o now t).1
write_workflow (retry_cancel i l o r now) t = (mark_cancellation_retry i l o r now t).1
write_workflow (recover i ss l r o now) t = (mark_workflow_recovery i ss l r o now t).1
write_workflow (end_with i s l e a now) t = (end_workflow i s l e a now t).1
write_workflow (publish i s v h now) t = (begin_publication i s v h now t).1
write_workflow (complete i s v h e ps now) t = (mark_publication_complete i s v h e ps now t).1
write_workflow (fail_publication i s v h e now) t = (mark_publication_failed i s v h e now t).1
write_workflow (report i s v e ps now) t = (mark_reported i s v e ps now t).1
write_workflow (log i l g m o b q now) t = (append_workflow_event i l g m o b q now t).1
write_workflow (take_step i s k g c v w now) t = (claim_step i s k g c v w now t).1
write_workflow (update_one u now) t = (conditional_update_step u now t).1
write_workflow (finish_cancel i l o now) t = (finalize_cancellation i l o now t).1
write_workflow (cancel i ss l o now) t = (cancel_workflow i ss l o now t).1
write_workflow (update_with i fs g b now) t = (conditional_update_workflow i fs g b now t).1

unfoldable pub write_workflows : List WorkflowWrite → WorkflowTables → WorkflowTables
unfolding write_workflow
write_workflows [] t = t
write_workflows (w ∷ ws) t = write_workflows ws (write_workflow w t)

-- A direct update rejects terminal workflows, or sets no status that is not terminal. The other
-- writes are the store's own.
unfoldable pub is_careful_write : WorkflowWrite → Bool
unfolding keeps_terminal
is_careful_write (update_with i fs g b now) = g.reject_terminal || keeps_terminal fs
is_careful_write _ = true

unfoldable pub all_careful_writes : List WorkflowWrite → Bool
unfolding is_careful_write
all_careful_writes [] = true
all_careful_writes (w ∷ ws) = is_careful_write w && all_careful_writes ws
