-- ===== src/Tasks/Turns.antt =====
-- soma/tasks/manager.py: one turn of the reconciliation at startup.
use codex_bridge.Prelude.{
  suc, String, true, some, List, [], ◌∷◌, ◌≡◌, ◌≢◌, refl, sym, ap, ◌∙◌, string_eq, nat_eq, arith,
  ok, All,
}
use codex_bridge.Prelude.Table.{find}
use codex_bridge.Prelude.{
  Bool, false, not, ◌&&◌, ◌++◌, map, ◌⊎◌, inl, inr, Bool-cases, Error, raised, value_error,
}
use codex_bridge.Tasks.Lookup.{Result-cases}
use codex_bridge.Tasks.Reads.{get_task}
use codex_bridge.Tasks.Records.{append_task_event}
use codex_bridge.Tasks.Tables.{error}
use codex_bridge.Tasks.Reconcile.{state_text}
use codex_bridge.Prelude.Text.{text}
use mathlib.Core.List.{append-nil, map-append}
use codex_bridge.Prelude.Order.{select}
use codex_bridge.Runs.Model.{Database}
use codex_bridge.Tasks.Tables.{Task, TaskTables, task_key, is_task_id}
use codex_bridge.Tasks.Indexes.{HasIndexes}
use codex_bridge.Tasks.Scopes.{ScopeTables, Scope}
use codex_bridge.Tasks.Observe.{query}
use codex_bridge.Tasks.Branches.{derive}
use codex_bridge.Tasks.Reconcile.{World, proven, reconcile_task, StartupReport, count_task}
use codex_bridge.Tasks.Projection.{Follows}
use codex_bridge.Tasks.Follow.{reconciled, reconciled-Follows}
use codex_bridge.Tasks.Settle.{reconcile_task-Leaves}
use codex_bridge.Tasks.Reconciled.{find-tasks_after}
use codex_bridge.Tasks.Idempotent.{HasIndexes-tasks_after}

-- The identifier of the task is well formed, and its run is proven to be its own.
unfoldable pub is_bound : ScopeTables → Task → Bool
is_bound scopes t =
    is_task_id t.task_id && (elim (proven scopes t) [ ok scope ↦ true | raised e ↦ false ])

-- The tasks that the report names as failures.
abbrev pub failed_ids : StartupReport → List String
failed_ids r = map (λ f. f.0) r.failures

-- The identifiers of the tasks that are not bound.
abbrev pub unbound_ids : ScopeTables → List Task → List String
unbound_ids scopes ts = map task_key (select (λ t. not (is_bound scopes t)) ts)

-- A task that is bound is found where its run puts it, and any other is found as it was.
abbrev pub Stands : World → Database → TaskTables → Task → Type 0
Stands w db tables t =
    ((is_bound w.scopes t ≡ true)
      × (u : Task) × (find task_key t.task_id tables.tasks ≡ some u)
      × Follows (derive w.lower t (query t.backend_ref db)) u)
    ⊎ ((is_bound w.scopes t ≡ false) × (find task_key t.task_id tables.tasks ≡ some t))

bound-true :
    (scopes : ScopeTables) (t : Task)
    → is_bound scopes t ≡ true
    → (is_task_id t.task_id ≡ true) × (scope : Scope) × (proven scopes t ≡ ok scope)
unfolding is_bound
bound-true scopes t h = elim (Result-cases (proven scopes t)) [
  | inl (e, bad) ↦ ground (arith, h, bad)
  | inr (scope, good) ↦ (ground (arith, h), scope, good)
]

module _ (w : World) (db : Database) (now : String) where
  abbrev startup : String
  startup = "startup_recovery"

  -- A task that is not bound fails, and the tables stay as they are.
  unbound-raised :
      (t : Task) (tables : TaskTables)
      → find task_key t.task_id tables.tasks ≡ some t
      → is_bound w.scopes t ≡ false
      → (e : Error) × (reconcile_task w db t.task_id startup now tables ≡ (raised e, tables))
  unfolding reconcile_task get_task is_bound
  unbound-raised t tables found h = elim (Bool-cases (is_task_id t.task_id)) [
    | inr invalid ↦ (value_error, ground (arith, invalid))
    | inl valid ↦ elim (Result-cases (proven w.scopes t)) [
      | inl (e, bad) ↦ (e, ground (arith, valid, found, bad))
      | inr (scope, good) ↦ ground (arith, h, valid, good)
    ]
  ]

  abbrev pub IsThere : TaskTables → Task → Type 0
  IsThere tables t = find task_key t.task_id tables.tasks ≡ some t

  -- What one turn of the loop leaves.
  pub record Turns (t : Task) (r : StartupReport) (before : TaskTables)
      (turn : StartupReport × TaskTables) : Type 0 where
    pub counts : turn.0.examined ≡ suc r.examined
    pub fails : failed_ids turn.0 ≡ failed_ids r ++ unbound_ids w.scopes (t ∷ [])
    pub indexes : HasIndexes turn.1.tasks
    pub others :
        (j : String) → task_key t ≢ j → find task_key j turn.1.tasks ≡ find task_key j before.tasks
    pub stands : Stands w db turn.1 t

  -- The event of a failure leaves the tasks as they are.
  logged-tasks :
      (t : Task) (e : Error) (tables : TaskTables)
      → (append_task_event t.task_id error startup "Startup reconciliation failed for this task"
          (state_text t.state)
          t.state_version
          (("error", text (w.show_error e)) ∷ [])
          now
          tables).1.tasks
        ≡ tables.tasks
  unfolding append_task_event
  logged-tasks t e tables = ground arith

  one-bound : (t : Task) → is_bound w.scopes t ≡ true → unbound_ids w.scopes (t ∷ []) ≡ []
  unfolding select
  one-bound t h = rw h refl

  one-loose :
      (t : Task) → is_bound w.scopes t ≡ false → unbound_ids w.scopes (t ∷ []) ≡ t.task_id ∷ []
  unfolding select
  one-loose t h = rw h refl

  -- One turn.
  unfoldable pub turn_of : Task → StartupReport → TaskTables → StartupReport × TaskTables
  turn_of t r tables =
      let (result, after) = reconcile_task w db t.task_id startup now tables in
      count_task w t now result r after

  pub turn-Turns :
      (t : Task) (r : StartupReport) (tables : TaskTables)
      → HasIndexes tables.tasks
      → IsThere tables t
      → Turns t r tables (turn_of t r tables)
  unfolding turn_of count_task
  turn-Turns t r tables x found = elim (Bool-cases (is_bound w.scopes t)) [
    | inl tied ↦
        let o = query t.backend_ref db in
        let (valid, scope, bound) = bound-true w.scopes t tied in
        let done = reconcile_task-Leaves w db t startup now tables scope x valid found bound in
        let left = find-tasks_after w t o now tables in
        rw done.returns (record {
          counts = refl;
          fails =
              sym (append-nil (failed_ids r))
              ∙ ap (λ ids. failed_ids r ++ ids) (sym (one-bound t tied));
          indexes = rw done.tasks_left (HasIndexes-tasks_after w t o now tables x);
          others = λ j other.
              ap (find task_key j) done.tasks_left ∙ left j found ∙ ground (arith, other);
          stands = inl (
            tied,
            reconciled w t o now,
            ap (find task_key t.task_id) done.tasks_left ∙ left t.task_id found ∙ ground arith,
            reconciled-Follows w t o now,
          );
        })
    | inr loose ↦
        let (e, failed) = unbound-raised t tables found loose in
        let kept = logged-tasks t e tables in
        rw failed (record {
          counts = refl;
          fails =
              map-append (λ (f : String × Error). f.0) r.failures ((t.task_id, e) ∷ [])
              ∙ ap (λ ids. failed_ids r ++ ids) (sym (one-loose t loose));
          indexes = rw kept x;
          others = λ j other. ap (find task_key j) kept;
          stands = inr (loose, ap (find task_key t.task_id) kept ∙ found);
        })
  ]

  pub still-IsThere :
      (t : Task) (r : StartupReport) (tables : TaskTables) (turn : StartupReport × TaskTables)
      → Turns t r tables turn
      → (ts : List Task) → All (λ x. task_key x ≢ task_key t) ts
      → All (IsThere tables) ts
      → All (IsThere turn.1) ts
  still-IsThere t r tables turn done [] d a = tt
  still-IsThere t r tables turn done (u ∷ ts) d a = (
    done.others u.task_id (λ p. d.0 (sym p)) ∙ a.0,
    still-IsThere t r tables turn done ts d.1 a.1,
  )

  -- What stands stays while the loop goes on to other tasks.
  pub Stands-later :
      (t : Task) (before after : TaskTables)
      → find task_key t.task_id after.tasks ≡ find task_key t.task_id before.tasks
      → Stands w db before t
      → Stands w db after t
  Stands-later t before after same (inl (tied, u, found, follows)) =
      inl (tied, u, same ∙ found, follows)
  Stands-later t before after same (inr (loose, found)) = inr (loose, same ∙ found)
