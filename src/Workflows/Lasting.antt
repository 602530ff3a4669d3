-- ===== src/Workflows/Lasting.antt =====
-- soma/workflows/store.py: how a write may change a workflow.
use codex_bridge.Prelude.{
  ◌≤◌, String, Bool, true, false, ◌&&◌, some, List, [], ◌∷◌, ◌≡◌, refl, ap, ◌∙◌, ◌⊎◌, inl, inr,
  string_eq, nat_eq, arith, Bool-cases,
}
use codex_bridge.Prelude.Table.{find, keyed, update_where, find-update, Unique, update-Unique}
use codex_bridge.Workflows.Tables.{
  workflow_status_eq, is_terminal_workflow, Workflow, WorkflowTables, workflow_key,
}
use codex_bridge.Workflows.Update.{
  WorkflowField, to_status, to_other, assign_workflow, assign_fields, rewritten, WorkflowGuard,
  allows, conditional_update_workflow, update_workflows,
}

abbrev pub named : Workflow → String × String × String × String
named w = (w.workflow_id, w.repo_name, w.objective, w.created_at)

-- The same workflow, later: its version has not fallen, and if it was terminal it is.
pub record Lasts (w w' : Workflow) : Type 0 where
  pub same_workflow : named w' ≡ named w
  pub version_grows : w.state_version ≤ w'.state_version
  pub stays_terminal : is_terminal_workflow w.status ≡ true → is_terminal_workflow w'.status ≡ true

pub Lasts-refl : (w : Workflow) → Lasts w w
Lasts-refl w = record { same_workflow = refl; version_grows = omega arith; stays_terminal = λ h. h }

pub Lasts-trans : {a b c : Workflow} → Lasts a b → Lasts b c → Lasts a c
Lasts-trans x y = record {
  same_workflow = y.same_workflow ∙ x.same_workflow;
  version_grows = omega (arith, x.version_grows, y.version_grows);
  stays_terminal = λ h. y.stays_terminal (x.stays_terminal h);
}

-- Every workflow of one table is in the other, later; and unique identifiers stay unique.
abbrev pub AllLast : List Workflow → List Workflow → Type 0
AllLast rows after =
    (Unique workflow_key rows → Unique workflow_key after)
    × ((i : String) (w : Workflow)
        → find workflow_key i rows ≡ some w
        → (w' : Workflow) × (find workflow_key i after ≡ some w') × Lasts w w')

pub AllLast-refl : (rows : List Workflow) → AllLast rows rows
AllLast-refl rows = ((λ u. u), λ i w h. (w, h, Lasts-refl w))

pub AllLast-trans : (a b c : List Workflow) → AllLast a b → AllLast b c → AllLast a c
AllLast-trans a b c f g = (
  (λ u. g.0 (f.0 u)),
  λ i w h.
      let (w', h', x) = f.1 i w h in let (w'', h'', y) = g.1 i w' h' in (w'', h'', Lasts-trans x y),
)

update-Lasts :
    (id : String) (p : Workflow → Bool) (f : Workflow → Workflow) (rows : List Workflow)
    → ((w : Workflow) → workflow_key (f w) ≡ workflow_key w)
    → ((w : Workflow) → p w ≡ true → Lasts w (f w))
    → (i : String) (w : Workflow) → find workflow_key i rows ≡ some w
    → (w' : Workflow) × (find workflow_key i (update_where (keyed workflow_key id p) f rows)
        ≡ some w')
      × Lasts w w'
update-Lasts id p f rows same lasts i w h = elim (Bool-cases (keyed workflow_key id p w)) [
  | inl meets ↦ (
    f w,
    find-update workflow_key id p f same i rows ∙ ground (arith, h, meets),
    lasts w (ground (arith, meets)),
  )
  | inr misses ↦
      (w, find-update workflow_key id p f same i rows ∙ ground (arith, h, misses), Lasts-refl w)
]

-- A statement that lets every row that it meets last.
pub update-AllLast :
    (id : String) (p : Workflow → Bool) (f : Workflow → Workflow) (rows : List Workflow)
    → ((w : Workflow) → workflow_key (f w) ≡ workflow_key w)
    → ((w : Workflow) → p w ≡ true → Lasts w (f w))
    → AllLast rows (update_where (keyed workflow_key id p) f rows)
update-AllLast id p f rows same lasts =
    (update-Unique workflow_key id p f same rows, update-Lasts id p f rows same lasts)

named-assign : (f : WorkflowField) (w : Workflow) → named (assign_workflow f w) ≡ named w
unfolding assign_workflow
named-assign (to_other v) w = refl
named-assign _ w = refl

named-assign_fields :
    (fs : List WorkflowField) (w : Workflow) → named (assign_fields fs w) ≡ named w
unfolding assign_fields
named-assign_fields [] w = refl
named-assign_fields (f ∷ fs) w = named-assign_fields fs (assign_workflow f w) ∙ named-assign f w

-- No field takes a workflow out of a terminal status.
unfoldable pub keeps_terminal : List WorkflowField → Bool
keeps_terminal [] = true
keeps_terminal (to_status s ∷ rest) = is_terminal_workflow s && keeps_terminal rest
keeps_terminal (_ ∷ rest) = keeps_terminal rest

terminal-assign :
    (f : WorkflowField) (rest : List WorkflowField) (w : Workflow)
    → keeps_terminal (f ∷ rest) ≡ true
    → is_terminal_workflow w.status ≡ true
    → is_terminal_workflow (assign_workflow f w).status ≡ true
unfolding assign_workflow keeps_terminal
terminal-assign (to_status s) rest w k h = ground (arith, k)
terminal-assign (to_other v) rest w k h = h
terminal-assign _ rest w k h = h

keeps_terminal-rest :
    (f : WorkflowField) (rest : List WorkflowField)
    → keeps_terminal (f ∷ rest) ≡ true
    → keeps_terminal rest ≡ true
unfolding keeps_terminal
keeps_terminal-rest (to_status s) rest k = ground (arith, k)
keeps_terminal-rest _ rest k = k

terminal-assign_fields :
    (fs : List WorkflowField) (w : Workflow)
    → keeps_terminal fs ≡ true
    → is_terminal_workflow w.status ≡ true
    → is_terminal_workflow (assign_fields fs w).status ≡ true
unfolding assign_fields
terminal-assign_fields [] w k h = h
terminal-assign_fields (f ∷ fs) w k h =
    terminal-assign_fields fs (assign_workflow f w) (keeps_terminal-rest f fs k)
      (terminal-assign f fs w k h)

pub id-rewritten :
    (fs : List WorkflowField) (b : Bool) (now : String) (w : Workflow)
    → workflow_key (rewritten fs b now w) ≡ workflow_key w
unfolding rewritten
id-rewritten fs b now w = ap (λ n. n.0) (named-assign_fields fs w)

pub rewritten-Lasts :
    (fs : List WorkflowField) (b : Bool) (now : String) (w : Workflow)
    → ((is_terminal_workflow w.status ≡ false) ⊎ (keeps_terminal fs ≡ true))
    → Lasts w (rewritten fs b now w)
unfolding rewritten
rewritten-Lasts fs b now w spares = record {
  same_workflow = named-assign_fields fs w;
  version_grows = ground arith;
  stays_terminal = λ h. elim spares [
    | inl lives ↦ cc (h, lives)
    | inr keeps ↦ terminal-assign_fields fs w keeps h
  ];
}

-- An update with these fields under this guard spares terminal workflows.
abbrev pub Spares : List WorkflowField → WorkflowGuard → Type 0
Spares fs g = (g.reject_terminal ≡ true) ⊎ (keeps_terminal fs ≡ true)

allows-Spares :
    (fs : List WorkflowField) (g : WorkflowGuard) (w : Workflow)
    → Spares fs g
    → allows g w ≡ true
    → (is_terminal_workflow w.status ≡ false) ⊎ (keeps_terminal fs ≡ true)
unfolding allows
allows-Spares fs g w (inr keeps) h = inr keeps
allows-Spares fs g w (inl rejects) h = inl (ground (arith, rejects, h))

pub conditional_update-cases :
    (i : String) (fs : List WorkflowField) (g : WorkflowGuard) (b : Bool) (now : String)
    (tables : WorkflowTables)
    → ((conditional_update_workflow i fs g b now tables).1 ≡ tables)
      ⊎ ((conditional_update_workflow i fs g b now tables).1
          ≡ update_workflows i (allows g) (rewritten fs b now) tables)
unfolding conditional_update_workflow
conditional_update-cases i fs g b now tables = ground arith

pub conditional_update-AllLast :
    (i : String) (fs : List WorkflowField) (g : WorkflowGuard) (b : Bool) (now : String)
    (tables : WorkflowTables)
    → Spares fs g
    → AllLast tables.workflows (conditional_update_workflow i fs g b now tables).1.workflows
unfolding update_workflows
conditional_update-AllLast i fs g b now tables spares =
    elim (conditional_update-cases i fs g b now tables) [
      | inl same ↦ rw same (AllLast-refl tables.workflows)
      | inr done ↦ rw done (
          update-AllLast i (allows g) (rewritten fs b now) tables.workflows (id-rewritten fs b now)
            (λ w fits. rewritten-Lasts fs b now w (allows-Spares fs g w spares fits)))
    ]
