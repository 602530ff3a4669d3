-- ===== src/Workflows/Direct.antt =====
-- soma/workflows/manager.py: the calls of conditional_update_workflow that the manager makes itself.
use codex_bridge.Prelude.{ℕ, String, true, Option, none, some, [], ◌∷◌, ◌≡◌, refl}
use codex_bridge.Workflows.Tables.{Workflow, workflow_failed}
use codex_bridge.Workflows.Update.{
  to_status, to_terminal_status, to_ended_at, to_failure_summary, to_recommended_next_action,
}
use codex_bridge.Workflows.Writes.{WorkflowWrite, update_with, is_careful_write}

-- The worker of a workflow could not be started: after the launch of the first one, when the
-- launches are exhausted, which also expects the heartbeat, and after a relaunch, which expects the
-- lease that it has reserved.
unfoldable pub fail_unstarted :
    Workflow → String → ℕ → Option (Option String) → String → String → String → WorkflowWrite
fail_unstarted seen token generation heartbeat reason next_action now =
    update_with seen.workflow_id
      (to_status workflow_failed
        ∷ to_terminal_status (some workflow_failed)
        ∷ to_ended_at (some now)
        ∷ to_failure_summary reason
        ∷ to_recommended_next_action next_action
        ∷ [])
      (record {
        statuses = some (seen.status ∷ []);
        version = some seen.state_version;
        token = some token;
        generation = some generation;
        heartbeat = heartbeat;
        publication_status = none;
        publication_hash = none;
        reject_terminal = true;
      })
      true now

fail_unstarted-is_careful_write :
    (seen : Workflow) (token : String) (generation : ℕ) (heartbeat : Option (Option String))
    (reason next_action now : String)
    → is_careful_write (fail_unstarted seen token generation heartbeat reason next_action now)
      ≡ true
unfolding is_careful_write fail_unstarted
fail_unstarted-is_careful_write seen token generation heartbeat reason next_action now = refl
