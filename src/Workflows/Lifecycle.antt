-- ===== src/Workflows/Lifecycle.antt =====
-- soma/workflows/store.py: what holds of every workflow over every sequence of careful writes.
use codex_bridge.Prelude.{
  String, true, Bool-cases, Option, none, some, List, [], ◌∷◌, ◌≡◌, refl, ◌⊎◌, inl, inr, string_eq,
  nat_eq, arith, ◌++◌, atomic, integrity_error, Action, Result, ok, raised, continue,
}
use codex_bridge.Prelude.Table.{find, insert, insert-Unique, find-insert_old}
use codex_bridge.Workflows.Tables.{
  workflow_status_eq, is_terminal_workflow, Workflow, WorkflowTables, workflow_key, get_workflow,
}
use codex_bridge.Workflows.Worker.{
  owned, record_workflow_launch, adopt_workflow, relaunch_write, request_cancellation,
  mark_cancellation_retry, mark_workflow_recovery,
}
use codex_bridge.Workflows.Reports.{
  has_begun, publishing, begin_publication, mark_publication_complete, mark_publication_failed,
  mark_reported,
}
use codex_bridge.Workflows.Steps.{
  NewWorkflow, NewStep, new_workflow, new_step, create_workflow, insert_workflow, insert_steps,
}
use codex_bridge.Workflows.Lasting.{
  Lasts, Lasts-refl, AllLast, AllLast-refl, AllLast-trans, keeps_terminal,
  conditional_update-AllLast,
}
use codex_bridge.Workflows.Kept.{
  Lasting, heartbeat-Lasting, claim-Lasting, end_workflow-Lasting, claim_step-Lasting,
  conditional_update_step-Lasting, finalize_cancellation-Lasting, cancel_workflow-Lasting,
  append_workflow_event-Lasting,
}
use codex_bridge.Workflows.Writes.{
  WorkflowWrite, create, launch, claim, beat, adopt, relaunch, ask_cancel, retry_cancel, recover,
  end_with, publish, complete, fail_publication, report, log, take_step, update_one, finish_cancel,
  cancel, update_with, write_workflow, write_workflows, is_careful_write, all_careful_writes,
}

insert_steps-cases :
    (i : String) (ns : List NewStep) (t : WorkflowTables)
    → (insert_steps i ns t).1.workflows ≡ t.workflows
unfolding insert_steps
insert_steps-cases i [] t = refl
insert_steps-cases i (n ∷ ns) t =
    let after = insert_steps-cases i ns (record t { steps = t.steps ++ (new_step i n ∷ []) }) in
    ground (arith, after)

insert-AllLast :
    (w : Workflow) (rows after : List Workflow)
    → insert workflow_key w rows ≡ some after
    → AllLast rows after
insert-AllLast w rows after h = (
  insert-Unique workflow_key w rows after h,
  λ i x found. (x, find-insert_old workflow_key w rows after i x h found, Lasts-refl x),
)

insert_workflow-cases :
    (n : NewWorkflow) (now : String) (t : WorkflowTables) (v : Option (List Workflow))
    → insert workflow_key (new_workflow n now) t.workflows ≡ v
    → (let r : Result (Unit {0}) × WorkflowTables = elim v [
      | none ↦ (raised integrity_error, t)
      | some rows ↦ insert_steps n.workflow_id n.steps (record t { workflows = rows })
    ] in
        AllLast t.workflows r.1.workflows)
insert_workflow-cases n now t none h = AllLast-refl t.workflows
insert_workflow-cases n now t (some rows) h =
    rw (insert_steps-cases n.workflow_id n.steps (record t { workflows = rows }))
      (insert-AllLast (new_workflow n now) t.workflows rows h)

insert_workflow-Lasting : (n : NewWorkflow) (now : String) → Lasting (insert_workflow n now)
unfolding insert_workflow
insert_workflow-Lasting n now t =
    insert_workflow-cases n now t (insert workflow_key (new_workflow n now) t.workflows) refl

atomic-cases :
    {A : Type 0} (m : Action WorkflowTables A) (t : WorkflowTables)
    → ((atomic m t).1 ≡ t) ⊎ ((atomic m t).1 ≡ (m t).1)
atomic-cases m t = ground arith

atomic-Lasting : {A : Type 0} (m : Action WorkflowTables A) → Lasting m → Lasting (atomic m)
atomic-Lasting m lasts t = elim (atomic-cases m t) [
  | inl same ↦ rw same (AllLast-refl t.workflows)
  | inr done ↦ rw done (lasts t)
]

get_workflow-same : (i : String) (t : WorkflowTables) → (get_workflow i t).1 ≡ t
unfolding get_workflow
get_workflow-same i t = ground arith

then-same :
    {A : Type 0} (i : String) (r : Result A) (d : WorkflowTables)
    → (continue r (λ _. get_workflow i) d).1 ≡ d
then-same i (ok a) d = get_workflow-same i d
then-same i (raised e) d = refl

create_workflow-Lasting : (n : NewWorkflow) (now : String) → Lasting (create_workflow n now)
unfolding create_workflow
create_workflow-Lasting n now t =
    let m = atomic (insert_workflow n now) in
    rw (then-same n.workflow_id (m t).0 (m t).1)
      (atomic-Lasting (insert_workflow n now) (insert_workflow-Lasting n now) t)

write_workflow-AllLast :
    (x : WorkflowWrite) (t : WorkflowTables)
    → is_careful_write x ≡ true
    → AllLast t.workflows (write_workflow x t).workflows
unfolding write_workflow is_careful_write record_workflow_launch adopt_workflow relaunch_write
    request_cancellation mark_cancellation_retry mark_workflow_recovery begin_publication
    mark_publication_complete mark_publication_failed mark_reported owned has_begun publishing
    keeps_terminal is_terminal_workflow workflow_status_eq
write_workflow-AllLast (create n now) t careful = create_workflow-Lasting n now t
write_workflow-AllLast (launch i p l d now) t careful =
    conditional_update-AllLast i _ _ _ now t (inl refl)
write_workflow-AllLast (claim i l p d now seen) t careful = claim-Lasting i l p d now seen t
write_workflow-AllLast (beat i k g p now) t careful = heartbeat-Lasting i k g p now t
write_workflow-AllLast (adopt i l h now) t careful =
    conditional_update-AllLast i _ _ _ now t (inl refl)
write_workflow-AllLast (relaunch i ss l h k now seen) t careful =
    conditional_update-AllLast i _ _ _ now t (inl refl)
write_workflow-AllLast (ask_cancel i ss l o now) t careful =
    conditional_update-AllLast i _ _ _ now t (inl refl)
write_workflow-AllLast (retry_cancel i l o r now) t careful =
    conditional_update-AllLast i _ _ _ now t (inr refl)
write_workflow-AllLast (recover i ss l r o now) t careful =
    conditional_update-AllLast i _ _ _ now t (inl refl)
write_workflow-AllLast (end_with i s l e a now) t careful = end_workflow-Lasting i s l e a now t
write_workflow-AllLast (publish i s v h now) t careful =
    conditional_update-AllLast i _ _ _ now t (inr refl)
write_workflow-AllLast (complete i s v h e ps now) t careful =
    conditional_update-AllLast i _ _ _ now t (inr refl)
write_workflow-AllLast (fail_publication i s v h e now) t careful =
    conditional_update-AllLast i _ _ _ now t (inr refl)
write_workflow-AllLast (report i s v e ps now) t careful =
    conditional_update-AllLast i _ _ _ now t (inr refl)
write_workflow-AllLast (log i l g m o b q now) t careful =
    append_workflow_event-Lasting i l g m o b q now t
write_workflow-AllLast (take_step i s k g c v w now) t careful =
    claim_step-Lasting i s k g c v w now t
write_workflow-AllLast (update_one u now) t careful = conditional_update_step-Lasting u now t
write_workflow-AllLast (finish_cancel i l o now) t careful =
    finalize_cancellation-Lasting i l o now t
write_workflow-AllLast (cancel i ss l o now) t careful = cancel_workflow-Lasting i ss l o now t
write_workflow-AllLast (update_with i fs g b now) t careful =
    conditional_update-AllLast i fs g b now t (elim (Bool-cases g.reject_terminal) [
      | inl rejects ↦ inl rejects
      | inr accepts ↦ inr (ground (arith, careful, accepts))
    ])

pub write_workflows-AllLast :
    (ws : List WorkflowWrite) (tables : WorkflowTables)
    → all_careful_writes ws ≡ true
    → AllLast tables.workflows (write_workflows ws tables).workflows
unfolding write_workflows all_careful_writes
write_workflows-AllLast [] tables careful = AllLast-refl tables.workflows
write_workflows-AllLast (x ∷ ws) tables careful =
    AllLast-trans tables.workflows (write_workflow x tables).workflows
      (write_workflows ws (write_workflow x tables)).workflows
      (write_workflow-AllLast x tables (ground (arith, careful)))
      (write_workflows-AllLast ws (write_workflow x tables) (ground (arith, careful)))

-- Over every sequence of careful writes to the workflow store, of all its writes other than
-- update_workflow and update_step, no workflow is lost: it keeps its identifier, repository,
-- objective and creation time, its version does not fall, and once its status is terminal it stays
-- terminal. A direct conditional_update_workflow is careful if it rejects terminal workflows or
-- sets no status that is not terminal; every other write is.
pub write_workflows-Lasts :
    (ws : List WorkflowWrite) (tables : WorkflowTables) (id : String) (w : Workflow)
    → all_careful_writes ws ≡ true
    → find workflow_key id tables.workflows ≡ some w
    → (w' : Workflow) × (find workflow_key id (write_workflows ws tables).workflows ≡ some w')
      × Lasts w w'
write_workflows-Lasts ws tables id w careful h =
    (write_workflows-AllLast ws tables careful).1 id w h
