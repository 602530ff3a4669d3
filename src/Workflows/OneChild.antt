-- ===== src/Workflows/OneChild.antt =====
-- soma/workflows/store.py: of the claims that read one version of a workflow one succeeds.
use codex_bridge.Prelude.{
  ℕ, ◌+◌, ◌≤◌, ap, List, String, Bool, true, false, Option, none, some, ◌≡◌, string_eq, nat_eq,
  arith, ok,
}
use codex_bridge.Prelude.Table.{find, Unique, count-find, find-update_same, update-Unique}
use codex_bridge.Workflows.Tables.{Workflow, WorkflowTables, workflow_key, Shown}
use codex_bridge.Workflows.Update.{update_workflows, meets_one}
use codex_bridge.Workflows.Steps.{claim_step, is_free, takes_child, update_steps}
use codex_bridge.Workflows.Kept.{key-takes_child}
use codex_bridge.Workflows.Stale.{meets-finds}
use codex_bridge.Workflows.Writes.{WorkflowWrite, write_workflows, all_careful_writes}
use codex_bridge.Workflows.Lifecycle.{write_workflows-AllLast}

-- What a success tells.
taken :
    (i s k : String) (g : ℕ) (c : Option String) (v w : Option ℕ) (now : String)
    (tables : WorkflowTables) (shown : Shown)
    → (claim_step i s k g c v w now tables).0 ≡ ok (some shown)
    → (meets_one i (is_free k g v) tables ≡ true)
      × ((claim_step i s k g c v w now tables).1.workflows
          ≡ (update_workflows i (is_free k g v) (takes_child c now) tables).workflows)
unfolding claim_step update_steps
taken i s k g c v w now tables shown h = ground (arith, h)

-- A workflow that is not free is not met.
meets_none :
    (i : String) (p : Workflow → Bool) (w : Workflow) (tables : WorkflowTables)
    → Unique workflow_key tables.workflows
    → find workflow_key i tables.workflows ≡ some w
    → p w ≡ false
    → meets_one i p tables ≡ false
unfolding meets_one nat_eq
meets_none i p w tables u found misses =
    ground (arith, found, misses, count-find workflow_key i p tables.workflows u)

refuses :
    (i s k : String) (g : ℕ) (c : Option String) (v w : Option ℕ) (now : String)
    (tables : WorkflowTables)
    → meets_one i (is_free k g v) tables ≡ false
    → claim_step i s k g c v w now tables ≡ (ok none, tables)
unfolding claim_step
refuses i s k g c v w now tables h = ground (arith, h)

-- A claim that expects a version older than that of the workflow does not find it free.
late-busy :
    (k : String) (g n : ℕ) (w : Workflow) → n + 1 ≤ w.state_version → is_free k g (some n) w ≡ false
unfolding is_free nat_eq
late-busy k g n w later = ground (arith, later)

free-version :
    (k : String) (g n : ℕ) (w : Workflow) → is_free k g (some n) w ≡ true → w.state_version ≡ n
unfolding is_free nat_eq
free-version k g n w fits = ground (arith, fits)

module _ (i s k : String) (g : ℕ) (c : Option String) (n : ℕ) (m : Option ℕ) (now : String)
    (tables : WorkflowTables) (shown : Shown) (ws : List WorkflowWrite) where
  abbrev claimed_tables : WorkflowTables
  claimed_tables = (claim_step i s k g c (some n) m now tables).1

  -- The workflow is found, at the next version.
  found-claimed :
      Unique workflow_key tables.workflows
      → (claim_step i s k g c (some n) m now tables).0 ≡ ok (some shown)
      → (w : Workflow) × (find workflow_key i claimed_tables.workflows ≡ some w)
        × (w.state_version ≡ n + 1)
        × Unique workflow_key claimed_tables.workflows
  unfolding update_workflows takes_child
  found-claimed u h =
      let (meets, same) = taken i s k g c (some n) m now tables shown h in
      let (x, found, fits) = meets-finds i (is_free k g (some n)) tables u meets in
      (
        takes_child c now x,
        rw same (
            find-update_same workflow_key i (is_free k g (some n)) (takes_child c now)
              (key-takes_child c now) tables.workflows x found fits),
        ap (λ v. v + 1) (free-version k g n x fits),
        rw same (
            update-Unique workflow_key i (is_free k g (some n)) (takes_child c now)
              (key-takes_child c now) tables.workflows u),
      )

  -- With unique identifiers, after a claim of a step that expected a version of the workflow and
  -- succeeded, and after every further sequence of careful writes, of all writes to the store
  -- other than update_workflow and update_step, a claim of any step of that workflow that expects
  -- no newer version, as every worker's does that had read the workflow before, returns none and
  -- changes nothing. A direct conditional_update_workflow is careful if it rejects terminal
  -- workflows or sets no status that is not terminal; every other write is.
  pub claim_step-late :
      (s' k' : String) (g' : ℕ) (c' : Option String) (n' : ℕ) (m' : Option ℕ) (now' : String)
      → Unique workflow_key tables.workflows
      → all_careful_writes ws ≡ true
      → (claim_step i s k g c (some n) m now tables).0 ≡ ok (some shown)
      → n' ≤ n
      → (let later = write_workflows ws (claim_step i s k g c (some n) m now tables).1 in
          claim_step i s' k' g' c' (some n') m' now' later ≡ (ok none, later))
  claim_step-late s' k' g' c' n' m' now' u careful h old =
      let (w, found, next, unique) = found-claimed u h in
      let kept = write_workflows-AllLast ws claimed_tables careful in
      let (w', found', lasts) = kept.1 i w found in
      let later = write_workflows ws claimed_tables in
      refuses i s' k' g' c' (some n') m' now' later (
        meets_none i (is_free k' g' (some n')) w' later (kept.0 unique) found'
          (late-busy k' g' n' w' (omega (arith, lasts.version_grows, next, old))))
