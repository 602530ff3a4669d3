-- ===== src/Workflows/Stale.antt =====
-- soma/workflows/store.py: a writer that knows an old version of a workflow writes nothing.
use codex_bridge.Prelude.{
  String, Bool, true, some, ◌≡◌, inl, inr, string_eq, nat_eq, arith, Option-cases,
}
use codex_bridge.Prelude.Table.{find, Unique, count-find}
use codex_bridge.Workflows.Tables.{Workflow, WorkflowTables, workflow_key}
use codex_bridge.Workflows.Update.{meets_one}

pub meets-finds :
    (i : String) (p : Workflow → Bool) (tables : WorkflowTables)
    → Unique workflow_key tables.workflows
    → meets_one i p tables ≡ true
    → (w : Workflow) × (find workflow_key i tables.workflows ≡ some w) × (p w ≡ true)
unfolding meets_one nat_eq
meets-finds i p tables u h = elim (Option-cases (find workflow_key i tables.workflows)) [
  | inl gone ↦ ground (arith, h, gone, count-find workflow_key i p tables.workflows u)
  | inr (w, found) ↦
      (w, found, ground (arith, h, found, count-find workflow_key i p tables.workflows u))
]
