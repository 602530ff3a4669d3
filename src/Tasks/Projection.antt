-- ===== src/Tasks/Projection.antt =====
-- soma/tasks/manager.py: the fields that a reconciliation writes.
use codex_bridge.Prelude.{
  String, Bool, true, false, some, List, [], ◌∷◌, ◌≡◌, refl, ap, string_eq, nat_eq, arith,
}
use codex_bridge.Prelude.Table.{count_where, update_where}
use codex_bridge.Prelude.Text.{Object}
use codex_bridge.Runs.Update.{is_empty}
use codex_bridge.Tasks.States.{task_state_eq, task_phase_eq}
use codex_bridge.Tasks.Tables.{recovery_state_eq, backend_kind_eq, BackendKind, Task}
use codex_bridge.Tasks.Reserve.{owns_backend}
use codex_bridge.Tasks.Update.{
  TaskField, set_state, set_phase, set_backend_ref, set_backend_executor, set_backend_identity,
  set_recovery_state, set_task_recovery_reason, set_reconciled_at, set_other, all_updatable,
  is_updatable, set_field, set_fields, updated_task, is_backend_unique,
}
use codex_bridge.Tasks.Observe.{Observation}
use codex_bridge.Tasks.Derive.{target_fields, differs, material}
use codex_bridge.Tasks.Branches.{
  Derived, derive, follow_run, result_fields, start_fields, append_fields,
}

-- The field is of no column that binds a task to its backend.
unfoldable pub keeps_binding : List TaskField → Bool
keeps_binding [] = true
keeps_binding (set_backend_ref v ∷ fs) = false
keeps_binding (set_backend_executor v ∷ fs) = false
keeps_binding (set_backend_identity v ∷ fs) = false
keeps_binding (set_other v ∷ fs) = false
keeps_binding (_ ∷ fs) = keeps_binding fs

keeps_binding-append_fields :
    (fs gs : List TaskField)
    → keeps_binding fs ≡ true
    → keeps_binding gs ≡ true
    → keeps_binding (append_fields fs gs) ≡ true
unfolding append_fields keeps_binding
keeps_binding-append_fields [] gs h k = k
keeps_binding-append_fields (set_backend_ref v ∷ fs) gs h k = h
keeps_binding-append_fields (set_backend_executor v ∷ fs) gs h k = h
keeps_binding-append_fields (set_backend_identity v ∷ fs) gs h k = h
keeps_binding-append_fields (set_other v ∷ fs) gs h k = h
keeps_binding-append_fields (_ ∷ fs) gs h k = keeps_binding-append_fields fs gs h k

keeps_binding-derive :
    (lower : String → String) (t : Task) (o : Observation)
    → keeps_binding (derive lower t o).fields ≡ true
unfolding derive follow_run start_fields result_fields append_fields keeps_binding
keeps_binding-derive lower t o = ground arith

pub keeps_binding-target :
    (lower : String → String) (t : Task) (o : Observation) (now : String)
    → keeps_binding (target_fields (derive lower t o) now) ≡ true
unfolding target_fields keeps_binding
keeps_binding-target lower t o now =
    keeps_binding-append_fields (derive lower t o).fields _ (keeps_binding-derive lower t o) refl

pub updatable_of_keeps : (fs : List TaskField) → keeps_binding fs ≡ true → all_updatable fs ≡ true
unfolding keeps_binding all_updatable is_updatable
updatable_of_keeps [] h = refl
updatable_of_keeps (set_backend_ref v ∷ fs) h = updatable_of_keeps fs (ground (arith, h))
updatable_of_keeps (set_backend_executor v ∷ fs) h = updatable_of_keeps fs (ground (arith, h))
updatable_of_keeps (set_backend_identity v ∷ fs) h = updatable_of_keeps fs (ground (arith, h))
updatable_of_keeps (set_other v ∷ fs) h = h
updatable_of_keeps (_ ∷ fs) h = updatable_of_keeps fs h

-- What binds a task to its backend.
abbrev pub binding : Task → BackendKind × String × String × Object
binding t = (t.backend_kind, t.backend_ref, t.backend_executor, t.backend_identity)

pub binding-set_fields :
    (fs : List TaskField) (t : Task)
    → keeps_binding fs ≡ true
    → binding (set_fields fs t) ≡ binding t
unfolding keeps_binding set_fields set_field
binding-set_fields [] t h = refl
binding-set_fields (set_backend_ref v ∷ fs) t h = cc
binding-set_fields (set_backend_executor v ∷ fs) t h = cc
binding-set_fields (set_backend_identity v ∷ fs) t h = cc
binding-set_fields (set_other v ∷ fs) t h = cc
binding-set_fields (f ∷ fs) t h = binding-set_fields fs (set_field f t) h

pub set_fields-append_fields :
    (fs gs : List TaskField) (t : Task)
    → set_fields (append_fields fs gs) t ≡ set_fields gs (set_fields fs t)
unfolding append_fields set_fields
set_fields-append_fields [] gs t = refl
set_fields-append_fields (f ∷ fs) gs t = set_fields-append_fields fs gs (set_field f t)

material-append_fields :
    (t : Task) (fs gs : List TaskField)
    → is_empty (material t (append_fields fs gs)) ≡ true
    → is_empty (material t gs) ≡ true
unfolding material append_fields is_empty
material-append_fields t [] gs h = h
material-append_fields t (f ∷ fs) gs h = material-append_fields t fs gs (ground (arith, h))

append_fields-nonempty :
    (fs gs : List TaskField) → is_empty gs ≡ false → is_empty (append_fields fs gs) ≡ false
unfolding append_fields is_empty
append_fields-nonempty [] gs h = h
append_fields-nonempty (f ∷ fs) gs h = refl

pub target_fields-nonempty : (d : Derived) (now : String) → is_empty (target_fields d now) ≡ false
unfolding target_fields is_empty
target_fields-nonempty d now = append_fields-nonempty d.fields _ refl

-- The task is where its observation puts it.
pub record Follows (d : Derived) (t : Task) : Type 0 where
  pub same_state : t.state ≡ d.state
  pub same_phase : t.phase ≡ d.phase
  pub same_recovery : t.recovery_state ≡ d.recovery_state
  pub same_reason : t.recovery_reason ≡ d.reason

pub updated-Follows :
    (d : Derived) (now : String) (t : Task)
    → Follows d (updated_task (target_fields d now) true now t)
unfolding updated_task target_fields set_fields set_field
updated-Follows d now t =
    let same =
      set_fields-append_fields d.fields
        (set_state d.state
          ∷ set_phase d.phase
          ∷ set_recovery_state d.recovery_state
          ∷ set_task_recovery_reason d.reason
          ∷ set_reconciled_at (some now)
          ∷ [])
        t in
    record {
      same_state = ap (λ x. x.state) same;
      same_phase = ap (λ x. x.phase) same;
      same_recovery = ap (λ x. x.recovery_state) same;
      same_reason = ap (λ x. x.recovery_reason) same;
    }

pub unchanged-Follows :
    (d : Derived) (now : String) (t : Task)
    → is_empty (material t (target_fields d now)) ≡ true
    → Follows d t
unfolding target_fields material differs is_empty
unchanged-Follows d now t h =
    let rest =
      material-append_fields t d.fields
        (set_state d.state
          ∷ set_phase d.phase
          ∷ set_recovery_state d.recovery_state
          ∷ set_task_recovery_reason d.reason
          ∷ set_reconciled_at (some now)
          ∷ [])
        h in
    record {
      same_state = ground (arith, rest);
      same_phase = ground (arith, rest);
      same_recovery = ground (arith, rest);
      same_reason = ground (arith, rest);
    }

module _ (p : Task → Bool) (f : Task → Task) (same : (t : Task) → binding (f t) ≡ binding t) where
  owns-kept :
      (k : BackendKind) (r : String) (t : Task) → owns_backend k r (f t) ≡ owns_backend k r t
  unfolding owns_backend
  owns-kept k r t = ground (arith, ap (λ b. b.0) (same t), ap (λ b. b.1) (same t))

  count-owns :
      (k : BackendKind) (r : String) (ts : List Task)
      → count_where (owns_backend k r) (update_where p f ts) ≡ count_where (owns_backend k r) ts
  unfolding count_where update_where
  count-owns k r [] = refl
  count-owns k r (t ∷ ts) = ground (arith, count-owns k r ts, owns-kept k r t)

  pub backend_unique-kept :
      (ts rows : List Task)
      → is_backend_unique (update_where p f ts) (update_where p f rows) ≡ is_backend_unique ts rows
  unfolding is_backend_unique update_where
  backend_unique-kept [] rows = refl
  backend_unique-kept (t ∷ ts) rows =
      ground
        (arith, backend_unique-kept ts rows, count-owns t.backend_kind t.backend_ref rows, same t)
