-- ===== src/Workflows/Reports.antt =====
-- soma/workflows/store.py: the publication of a workflow's report, and the workflow's events.
use codex_bridge.Prelude.{
  ℕ, suc, String, Bool, true, false, ◌&&◌, ◌||◌, Option, none, some, List, [], ◌∷◌, ◌++◌, ◌==◌,
  string_eq, if◌then◌else◌, Action, ok, raised, integrity_error, nat_eq,
}
use codex_bridge.Prelude.Table.{find, count_where, keyed}
use codex_bridge.Prelude.Text.{Object, first_chars}
use codex_bridge.Tasks.Tables.{EventLevel}
use codex_bridge.Workflows.Tables.{
  WorkflowStatus, reported, Workflow, WorkflowEvent, WorkflowTables, Shown, workflow_key,
}
use codex_bridge.Workflows.Update.{
  to_status, to_terminal_status, to_artifact_paths, to_publication_status, to_publication_hash,
  to_published_at, to_publication_error, WorkflowGuard, allows, expects_nothing,
  conditional_update_workflow, update_workflows,
}

-- The guard of a publisher.
unfoldable pub publishing : WorkflowStatus → ℕ → WorkflowGuard
publishing status version = record {
  statuses = some (status ∷ []);
  version = some version;
  token = none;
  generation = none;
  heartbeat = none;
  publication_status = none;
  publication_hash = none;
  reject_terminal = false;
}

-- `begin_publication`
unfoldable pub begin_publication :
    String → WorkflowStatus → ℕ → String → String → Action WorkflowTables (Option Shown)
unfolding publishing
begin_publication workflow_id status version hash now =
    conditional_update_workflow workflow_id
      (to_publication_status "publishing" ∷ to_publication_hash hash ∷ to_publication_error "" ∷ [])
      (publishing status version) true now

-- The guard of a publisher that has begun.
unfoldable pub has_begun : WorkflowStatus → ℕ → String → WorkflowGuard
unfolding publishing
has_begun status version hash = record (publishing status version) {
  publication_status = some "publishing";
  publication_hash = some hash;
}

-- `mark_publication_complete`
unfoldable pub mark_publication_complete :
    String
    → WorkflowStatus
    → ℕ
    → String
    → WorkflowStatus
    → List String
    → String
    → Action WorkflowTables (Option Shown)
unfolding has_begun
mark_publication_complete workflow_id status version hash terminal paths now =
    conditional_update_workflow workflow_id
      (to_status reported
        ∷ to_terminal_status (some terminal)
        ∷ to_artifact_paths paths
        ∷ to_publication_status "published"
        ∷ to_published_at (some now)
        ∷ to_publication_error ""
        ∷ [])
      (has_begun status version hash) true now

-- `mark_publication_failed`
unfoldable pub mark_publication_failed :
    String → WorkflowStatus → ℕ → String → String → String → Action WorkflowTables (Option Shown)
unfolding has_begun
mark_publication_failed workflow_id status version hash error now =
    conditional_update_workflow workflow_id
      (to_publication_status "failed" ∷ to_publication_error (first_chars 4000 error) ∷ [])
      (has_begun status version hash) true now

-- `mark_reported`
unfoldable pub mark_reported :
    String
    → WorkflowStatus
    → ℕ
    → WorkflowStatus
    → List String
    → String
    → Action WorkflowTables (Option Shown)
unfolding publishing
mark_reported workflow_id status version terminal paths now =
    conditional_update_workflow workflow_id
      (to_status reported ∷ to_terminal_status (some terminal) ∷ to_artifact_paths paths ∷ [])
      (publishing status version) true now

-- The guard of an event, if the caller gave one of its conditions.
unfoldable pub is_guarded : WorkflowGuard → Bool
is_guarded g =
    (elim g.statuses [ none ↦ false | some _ ↦ true ])
    || (elim g.version [ none ↦ false | some _ ↦ true ])
    || (elim g.token [ none ↦ false | some _ ↦ true ])
    || (elim g.generation [ none ↦ false | some _ ↦ true ])

abbrev pub every_workflow : Workflow → Bool
every_workflow w = true

-- The stamp of an event on its workflow.
unfoldable pub stamp_workflow : String → Workflow → Workflow
stamp_workflow timestamp w = record w { heartbeat_at = some timestamp; updated_at = timestamp }

-- `append_event`; the time is that of the event.
unfoldable pub append_workflow_event :
    String
    → EventLevel
    → String
    → String
    → Object
    → Bool
    → WorkflowGuard
    → String
    → Action WorkflowTables (Option WorkflowEvent)
unfolding is_guarded allows expects_nothing update_workflows stamp_workflow nat_eq
append_workflow_event workflow_id level stage message payload stamps g timestamp tables =
    let event : WorkflowEvent = record {
      id = tables.next_event_id;
      workflow_id = workflow_id;
      timestamp = timestamp;
      level = level;
      stage = stage;
      message = message;
      payload = payload;
    } in
    let logged = record tables {
      events = tables.events ++ (event ∷ []);
      next_event_id = suc tables.next_event_id;
    } in
    if is_guarded g
      && (expects_nothing g
          || count_where (keyed workflow_key workflow_id (allows g)) tables.workflows == 0)
    then (ok none, tables)
    else elim (find workflow_key workflow_id tables.workflows) [
      | none ↦ (raised integrity_error, tables)
      | some _ ↦ (
        ok (some event),
        if stamps
            then update_workflows workflow_id every_workflow (stamp_workflow timestamp) logged
            else logged,
      )
    ]
