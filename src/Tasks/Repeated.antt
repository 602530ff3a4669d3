-- ===== src/Tasks/Repeated.antt =====
-- soma/tasks/manager.py: a reconciliation that is repeated.
use codex_bridge.Prelude.{
  String, Bool, true, false, not, ◌&&◌, some, List, [], ◌∷◌, ◌≡◌, refl, sym, ap, ◌∙◌, ◌==◌,
  string_eq, option_eq, nat_eq, arith, Bool-cases, inl, inr, contains,
}
use codex_bridge.Runs.Update.{is_empty}
use codex_bridge.Tasks.States.{task_state_eq, task_phase_eq, task_accepted, task_queued}
use codex_bridge.Tasks.Tables.{Task, recovery_state_eq, backend_kind_eq}
use codex_bridge.Tasks.Update.{
  TaskField, set_state, set_phase, set_recovery_state, set_task_recovery_reason, set_reconciled_at,
  set_field, set_fields, updated_task,
}
use codex_bridge.Tasks.Observe.{Observation}
use codex_bridge.Tasks.Derive.{target_fields, differs, material}
use codex_bridge.Tasks.Branches.{
  Derived, derive, follow_run, result_fields, start_fields, append_fields, identity_matches,
  is_given,
}
use codex_bridge.Tasks.Reconcile.{World}
use codex_bridge.Tasks.Projection.{Follows, binding}
use codex_bridge.Tasks.Follow.{projected, reconciled, reconciled-Follows, binding-updated}

-- The run of a task that was to be launched is not there.
unfoldable pub is_lost : Task → Observation → Bool
unfolding task_state_eq
is_lost t o =
    not (t.backend_ref == "")
    && not o.is_there
    && contains (task_accepted ∷ task_queued ∷ []) t.state

material-prefix :
    (t : Task) (fs gs : List TaskField)
    → is_empty (material t (append_fields fs gs)) ≡ true
    → is_empty (material t fs) ≡ true
unfolding material append_fields is_empty
material-prefix t [] gs h = refl
material-prefix t (f ∷ fs) gs h = elim (Bool-cases (differs t f)) [
  | inl moves ↦ ground (arith, h, moves)
  | inr stays ↦ ground (arith, stays, material-prefix t fs gs (ground (arith, h, stays)))
]

material-joined :
    (t : Task) (fs gs : List TaskField)
    → is_empty (material t fs) ≡ true
    → is_empty (material t gs) ≡ true
    → is_empty (material t (append_fields fs gs)) ≡ true
unfolding material append_fields is_empty
material-joined t [] gs h k = k
material-joined t (f ∷ fs) gs h k = elim (Bool-cases (differs t f)) [
  | inl moves ↦ ground (arith, h, moves)
  | inr stays ↦ ground (arith, stays, material-joined t fs gs (ground (arith, h, stays)) k)
]

quiet-tail :
    (d : Derived) (now : String) (u : Task)
    → Follows d u
    → is_empty (
        material u (
          set_state d.state
          ∷ set_phase d.phase
          ∷ set_recovery_state d.recovery_state
          ∷ set_task_recovery_reason d.reason
          ∷ set_reconciled_at (some now)
          ∷ []))
      ≡ true
unfolding material differs is_empty task_state_eq task_phase_eq recovery_state_eq
quiet-tail d now u f = ground (arith, f.same_state, f.same_phase, f.same_recovery, f.same_reason)

-- A task that follows, and has the other fields, is not written.
quiet :
    (d : Derived) (now : String) (u : Task)
    → Follows d u
    → is_empty (material u d.fields) ≡ true
    → is_empty (material u (target_fields d now)) ≡ true
unfolding target_fields
quiet d now u f h = material-joined u d.fields _ h (quiet-tail d now u f)

-- The fields that were written are there.
fields-updated :
    (lower : String → String) (t : Task) (o : Observation) (now : String)
    → is_empty (
        material
          (updated_task (target_fields (derive lower t o) now) true now t)
          (derive lower t o).fields)
      ≡ true
unfolding derive follow_run start_fields result_fields append_fields target_fields set_fields
    set_field material differs updated_task is_empty
fields-updated lower t o now = ground arith

identity-binding :
    (lower : String → String) (t u : Task) (o : Observation)
    → binding u ≡ binding t
    → identity_matches lower u o ≡ identity_matches lower t o
unfolding identity_matches
identity-binding lower t u o same = rw (ap (λ b. b.3) same) (rw (ap (λ b. b.2) same) refl)

module _ (lower : String → String) (t u : Task) (o : Observation) (bound : binding u ≡ binding t)
    (kept : u.state ≡ (derive lower t o).state) (here : is_lost t o ≡ false) where
  same_kind : u.backend_kind ≡ t.backend_kind
  same_kind = ap (λ b. b.0) bound

  same_ref : u.backend_ref ≡ t.backend_ref
  same_ref = ap (λ b. b.1) bound

  state_again : (derive lower u o).state ≡ (derive lower t o).state
  unfolding derive follow_run is_lost
  state_again =
      ground (arith, bound, kept, here, same_kind, same_ref, identity-binding lower t u o bound)

  phase_again : (derive lower u o).phase ≡ (derive lower t o).phase
  unfolding derive follow_run is_lost
  phase_again =
      ground (arith, bound, kept, here, same_kind, same_ref, identity-binding lower t u o bound)

  recovery_again : (derive lower u o).recovery_state ≡ (derive lower t o).recovery_state
  unfolding derive follow_run is_lost
  recovery_again =
      ground (arith, bound, kept, here, same_kind, same_ref, identity-binding lower t u o bound)

  reason_again : (derive lower u o).reason ≡ (derive lower t o).reason
  unfolding derive follow_run is_lost
  reason_again =
      ground (arith, bound, kept, here, same_kind, same_ref, identity-binding lower t u o bound)

  fields_again :
      is_empty (material u (derive lower t o).fields) ≡ true
      → (is_given t.started_at ≡ true → is_given u.started_at ≡ true)
      → is_empty (material u (derive lower u o).fields) ≡ true
  unfolding derive follow_run start_fields result_fields append_fields material differs is_empty
      is_lost
  fields_again h started =
      ground (arith, kept, here, h, same_kind, same_ref, identity-binding lower t u o bound)

started-updated :
    (lower : String → String) (t : Task) (o : Observation) (now : String)
    → is_given t.started_at ≡ true
    → is_given (updated_task (target_fields (derive lower t o) now) true now t).started_at ≡ true
unfolding derive follow_run start_fields result_fields append_fields target_fields set_fields
    set_field updated_task
started-updated lower t o now h = ground (arith, h)

module _ (w : World) (t : Task) (o : Observation) (now : String) where
  abbrev again : Task
  again = reconciled w t o now

  pub binding-again : binding again ≡ binding t
  binding-again = elim (Bool-cases (is_empty (material t (projected w t o now)))) [
    | inl same ↦ rw same refl
    | inr moved ↦ rw moved (binding-updated w t o now t)
  ]

  written-again : is_empty (material again (derive w.lower t o).fields) ≡ true
  unfolding target_fields
  written-again = elim (Bool-cases (is_empty (material t (projected w t o now)))) [
    | inl same ↦ rw same (material-prefix t (derive w.lower t o).fields _ same)
    | inr moved ↦ rw moved (fields-updated w.lower t o now)
  ]

  started-again : is_given t.started_at ≡ true → is_given again.started_at ≡ true
  started-again h = elim (Bool-cases (is_empty (material t (projected w t o now)))) [
    | inl same ↦ rw same h
    | inr moved ↦ rw moved (started-updated w.lower t o now h)
  ]

  -- What was reconciled follows what it is derived to be again.
  Follows-again : is_lost t o ≡ false → Follows (derive w.lower again o) again
  Follows-again here =
      let f = reconciled-Follows w t o now in
      record {
        same_state =
            f.same_state ∙ sym (state_again w.lower t again o binding-again f.same_state here);
        same_phase =
            f.same_phase ∙ sym (phase_again w.lower t again o binding-again f.same_state here);
        same_recovery =
            f.same_recovery
            ∙ sym (recovery_again w.lower t again o binding-again f.same_state here);
        same_reason =
            f.same_reason ∙ sym (reason_again w.lower t again o binding-again f.same_state here);
      }

  pub quiet-again :
      (later : String)
      → is_lost t o ≡ false
      → is_empty (material again (projected w again o later)) ≡ true
  quiet-again later here = quiet (derive w.lower again o) later again (Follows-again here) (
      fields_again w.lower t again o binding-again (reconciled-Follows w t o now).same_state here
        written-again started-again)
