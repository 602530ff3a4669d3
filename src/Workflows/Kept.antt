-- ===== src/Workflows/Kept.antt =====
-- soma/workflows/store.py: what a write to a workflow or to its steps leaves of every workflow.
use codex_bridge.Prelude.{
  ℕ, String, Bool, true, false, not, ◌||◌, Option, List, [], ◌∷◌, ◌==◌, ◌≡◌, refl, ◌⊎◌, inl, inr,
  string_eq, nat_eq, arith, Bool-cases, Action, Result, ok, raised, pure, ◌>>=◌, continue,
}
use codex_bridge.Prelude.Text.{Object}
use codex_bridge.Tasks.Tables.{EventLevel}
use codex_bridge.Workflows.Tables.{
  WorkflowStatus, workflow_status_eq, is_terminal_workflow, reported, workflow_running,
  workflow_cancellation_pending, Workflow, WorkflowTables, workflow_key, Shown,
}
use codex_bridge.Workflows.Update.{
  WorkflowGuard, rewritten, update_workflows, conditional_update_workflow,
}
use codex_bridge.Workflows.Worker.{Lease, claim_workflow_write, heartbeat_workflow, end_workflow}
use codex_bridge.Workflows.Reports.{append_workflow_event, stamp_workflow, every_workflow}
use codex_bridge.Workflows.Steps.{claim_step, is_free, takes_child, runs_under, update_steps}
use codex_bridge.Workflows.StepUpdate.{
  StepUpdate, conditional_update_step, fits_workflow, workflow_part, finalize_cancellation,
  finalized, holds, cancel_workflow, cancelled_workflow,
}
use codex_bridge.Workflows.Lasting.{
  Lasts, AllLast, AllLast-refl, update-AllLast, id-rewritten, rewritten-Lasts, keeps_terminal,
  conditional_update-AllLast,
}

-- A call, whatever it returned.
abbrev pub Lasting : {A : Type 0} → Action WorkflowTables A → Type 0
Lasting m = (t : WorkflowTables) → AllLast t.workflows (m t).1.workflows

continue-same :
    {A B : Type 0} (f : A → B) (r : Result A) (d : WorkflowTables)
    → (continue r (λ a. pure (f a)) d).1 ≡ d
continue-same f (ok a) d = refl
continue-same f (raised e) d = refl

-- What is returned after a call changes nothing more.
returns-Lasting :
    {A B : Type 0} (m : Action WorkflowTables A) (f : A → B)
    → Lasting m
    → Lasting (m >>= λ a. pure (f a))
returns-Lasting m f first t = rw (continue-same f (m t).0 (m t).1) (first t)

pub heartbeat-Lasting :
    (i k : String) (g p : ℕ) (now : String) → Lasting (heartbeat_workflow i k g p now)
unfolding heartbeat_workflow keeps_terminal
heartbeat-Lasting i k g p now =
    returns-Lasting (conditional_update_workflow i _ _ _ now) _
      (λ t. conditional_update-AllLast i _ _ _ now t (inr refl))

pub claim-Lasting :
    (i : String) (l : Lease) (p : ℕ) (d now : String) (seen : Shown)
    → Lasting (claim_workflow_write i l p d now seen)
unfolding claim_workflow_write
claim-Lasting i l p d now seen =
    returns-Lasting (conditional_update_workflow i _ _ _ now) _
      (λ t. conditional_update-AllLast i _ _ _ now t (inl refl))

pub end_workflow-Lasting :
    (i : String) (s : WorkflowStatus) (l : Lease) (e a now : String)
    → Lasting (end_workflow i s l e a now)
unfolding end_workflow
end_workflow-Lasting i s l e a now t =
    elim (Bool-cases (not (is_terminal_workflow s) || s == reported)) [
      | inl refused ↦ rw refused (AllLast-refl t.workflows)
      | inr ends ↦ rw ends (conditional_update-AllLast i _ _ _ now t (inl refl))
    ]

-- The statements that are no conditional update.
cases-Lasting :
    (m : WorkflowTables) (t after : WorkflowTables)
    → (m ≡ t) ⊎ (m.workflows ≡ after.workflows)
    → AllLast t.workflows after.workflows
    → AllLast t.workflows m.workflows
cases-Lasting m t after (inl same) x = rw same (AllLast-refl t.workflows)
cases-Lasting m t after (inr done) x = rw done x

running-lives : (w : Workflow) → w.status ≡ workflow_running → is_terminal_workflow w.status ≡ false
unfolding is_terminal_workflow workflow_status_eq
running-lives w h = rw h refl

lives_under :
    (k : String) (g : ℕ) (w : Workflow)
    → runs_under k g w ≡ true
    → is_terminal_workflow w.status ≡ false
unfolding runs_under
lives_under k g w h = running-lives w (ground (arith, h))

takes_child-Lasts :
    (c : Option String) (now : String) (w : Workflow) → Lasts w (takes_child c now w)
unfolding takes_child
takes_child-Lasts c now w = record {
  same_workflow = refl;
  version_grows = omega arith;
  stays_terminal = λ h. h;
}

pub key-takes_child :
    (c : Option String) (now : String) (w : Workflow)
    → workflow_key (takes_child c now w) ≡ workflow_key w
unfolding takes_child
key-takes_child c now w = refl

pub claim_step-Lasting :
    (i s k : String) (g : ℕ) (c : Option String) (v w : Option ℕ) (now : String)
    → Lasting (claim_step i s k g c v w now)
unfolding claim_step update_workflows update_steps
claim_step-Lasting i s k g c v w now t =
    cases-Lasting (claim_step i s k g c v w now t).1 t
      (update_workflows i (is_free k g v) (takes_child c now) t) (ground arith)
      (update-AllLast i (is_free k g v) (takes_child c now) t.workflows (key-takes_child c now)
        (λ x _. takes_child-Lasts c now x))

fits_workflow-lives :
    (u : StepUpdate) (w : Workflow)
    → fits_workflow u w ≡ true
    → is_terminal_workflow w.status ≡ false
unfolding fits_workflow
fits_workflow-lives u w h = lives_under u.token u.generation w (ground (arith, h))

pub conditional_update_step-Lasting :
    (u : StepUpdate) (now : String) → Lasting (conditional_update_step u now)
unfolding conditional_update_step update_workflows update_steps
conditional_update_step-Lasting u now t =
    cases-Lasting (conditional_update_step u now t).1 t
      (update_workflows u.workflow_id (fits_workflow u) (rewritten (workflow_part u) true now) t)
      (ground arith)
      (update-AllLast u.workflow_id (fits_workflow u) (rewritten (workflow_part u) true now)
        t.workflows (id-rewritten (workflow_part u) true now)
        (λ w h. rewritten-Lasts (workflow_part u) true now w (inl (fits_workflow-lives u w h))))

finalized-Lasts : (o : Object) (now : String) (w : Workflow) → Lasts w (finalized o now w)
unfolding finalized is_terminal_workflow workflow_status_eq
finalized-Lasts o now w = record {
  same_workflow = refl;
  version_grows = omega arith;
  stays_terminal = λ h. refl;
}

key-finalized :
    (o : Object) (now : String) (w : Workflow) → workflow_key (finalized o now w) ≡ workflow_key w
unfolding finalized
key-finalized o now w = refl

pub finalize_cancellation-Lasting :
    (i : String) (l : Lease) (o : Object) (now : String) → Lasting (finalize_cancellation i l o now)
unfolding finalize_cancellation update_workflows update_steps
finalize_cancellation-Lasting i l o now t =
    cases-Lasting (finalize_cancellation i l o now t).1 t
      (update_workflows i (holds l (workflow_cancellation_pending ∷ [])) (finalized o now) t)
      (ground arith)
      (update-AllLast i (holds l (workflow_cancellation_pending ∷ [])) (finalized o now) t.workflows
        (key-finalized o now) (λ w _. finalized-Lasts o now w))

cancelled-Lasts : (o : Object) (now : String) (w : Workflow) → Lasts w (cancelled_workflow o now w)
unfolding cancelled_workflow is_terminal_workflow workflow_status_eq
cancelled-Lasts o now w = record {
  same_workflow = refl;
  version_grows = omega arith;
  stays_terminal = λ h. refl;
}

key-cancelled :
    (o : Object) (now : String) (w : Workflow)
    → workflow_key (cancelled_workflow o now w) ≡ workflow_key w
unfolding cancelled_workflow
key-cancelled o now w = refl

pub cancel_workflow-Lasting :
    (i : String) (ss : List WorkflowStatus) (l : Lease) (o : Object) (now : String)
    → Lasting (cancel_workflow i ss l o now)
unfolding cancel_workflow update_workflows update_steps
cancel_workflow-Lasting i ss l o now t =
    cases-Lasting (cancel_workflow i ss l o now t).1 t
      (update_workflows i (holds l ss) (cancelled_workflow o now) t) (ground arith)
      (update-AllLast i (holds l ss) (cancelled_workflow o now) t.workflows (key-cancelled o now)
        (λ w _. cancelled-Lasts o now w))

stamp-Lasts : (now : String) (w : Workflow) → Lasts w (stamp_workflow now w)
unfolding stamp_workflow
stamp-Lasts now w = record {
  same_workflow = refl;
  version_grows = omega arith;
  stays_terminal = λ h. h;
}

key-stamp : (now : String) (w : Workflow) → workflow_key (stamp_workflow now w) ≡ workflow_key w
unfolding stamp_workflow
key-stamp now w = refl

append_workflow_event-cases :
    (i : String) (l : EventLevel) (g m : String) (o : Object) (b : Bool) (q : WorkflowGuard)
    (now : String) (t : WorkflowTables)
    → ((append_workflow_event i l g m o b q now t).1.workflows ≡ t.workflows)
      ⊎ ((append_workflow_event i l g m o b q now t).1.workflows
          ≡ (update_workflows i every_workflow (stamp_workflow now) t).workflows)
unfolding append_workflow_event update_workflows
append_workflow_event-cases i l g m o b q now t = ground arith

pub append_workflow_event-Lasting :
    (i : String) (l : EventLevel) (g m : String) (o : Object) (b : Bool) (q : WorkflowGuard)
    (now : String)
    → Lasting (append_workflow_event i l g m o b q now)
unfolding update_workflows
append_workflow_event-Lasting i l g m o b q now t =
    elim (append_workflow_event-cases i l g m o b q now t) [
      | inl same ↦ rw same (AllLast-refl t.workflows)
      | inr done ↦ rw done (
          update-AllLast i every_workflow (stamp_workflow now) t.workflows (key-stamp now)
            (λ w _. stamp-Lasts now w))
    ]
