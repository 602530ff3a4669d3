-- ===== src/Tasks/Startup.antt =====
-- soma/tasks/manager.py: the reconciliation of all tasks at startup.
use codex_bridge.Prelude.{
  ℕ, ◌+◌, String, List, [], ◌∷◌, ◌≡◌, ◌≢◌, refl, sym, ap, ◌∙◌, string_eq, nat_eq, arith, All,
  length,
}
use codex_bridge.Prelude.Table.{find}
use codex_bridge.Prelude.{◌++◌}
use mathlib.Core.List.{append-nil, append_assoc}
use codex_bridge.Prelude.Order.{select, select-All, sort_by-All, take-All, Unique-found}
use codex_bridge.Prelude.Differ.{AllDiffer, AllDiffer-query}
use codex_bridge.Runs.Model.{Database}
use codex_bridge.Tasks.Tables.{Task, TaskTables, task_key}
use codex_bridge.Tasks.Reads.{list_active_tasks}
use codex_bridge.Tasks.Indexes.{HasIndexes}
use codex_bridge.Tasks.Reconcile.{World, StartupReport, reconcile_each, reconcile_startup}
use codex_bridge.Tasks.Turns.{
  failed_ids, unbound_ids, Stands, IsThere, turn_of, turn-Turns, still-IsThere, Stands-later,
}

module _ (w : World) (db : Database) (now : String) where
  -- What the loop leaves.
  record Reconciles (ts : List Task) (r : StartupReport) (before : TaskTables)
      (result : StartupReport × TaskTables) : Type 0 where
    counts : result.0.examined ≡ r.examined + length ts
    fails : failed_ids result.0 ≡ failed_ids r ++ unbound_ids w.scopes ts
    others :
        (j : String)
        → All (λ t. task_key t ≢ j) ts
        → find task_key j result.1.tasks ≡ find task_key j before.tasks
    all_stand : All (Stands w db result.1) ts

  unbound-cons :
      (t : Task) (ts : List Task)
      → unbound_ids w.scopes (t ∷ ts) ≡ unbound_ids w.scopes (t ∷ []) ++ unbound_ids w.scopes ts
  unfolding select
  unbound-cons t ts = ground arith

  reconcile_each-Reconciles :
      (ts : List Task) (r : StartupReport) (tables : TaskTables)
      → HasIndexes tables.tasks
      → AllDiffer task_key ts
      → All (IsThere w db now tables) ts
      → Reconciles ts r tables (reconcile_each w db now ts r tables)
  unfolding reconcile_each turn_of select
  reconcile_each-Reconciles [] r tables x d a = record {
    counts = omega arith;
    fails = sym (append-nil (failed_ids r));
    others = λ j h. refl;
    all_stand = tt;
  }
  reconcile_each-Reconciles (t ∷ ts) r tables x d a =
      let turn = turn_of w db now t r tables in
      let done = turn-Turns w db now t r tables x a.0 in
      let rest =
        reconcile_each-Reconciles ts turn.0 turn.1 done.indexes d.1
          (still-IsThere w db now t r tables turn done ts d.0 a.1) in
      record {
        counts = rest.counts ∙ omega (arith, done.counts);
        fails =
            rest.fails
            ∙ ap (λ ids. ids ++ unbound_ids w.scopes ts) done.fails
            ∙ append_assoc (failed_ids r) (unbound_ids w.scopes (t ∷ [])) (unbound_ids w.scopes ts)
            ∙ ap (λ ids. failed_ids r ++ ids) (sym (unbound-cons t ts));
        others = λ j h. rest.others j h.1 ∙ done.others j h.0;
        all_stand = (
          Stands-later w db now t turn.1 (reconcile_each w db now ts turn.0 turn.1).1
              (rest.others t.task_id d.0) done.stands,
          rest.all_stand,
        );
      }

-- The tasks that are listed differ, and are there.
listed-AllDiffer :
    (limit : ℕ) (tables : TaskTables)
    → HasIndexes tables.tasks
    → AllDiffer task_key (list_active_tasks limit tables)
unfolding list_active_tasks
listed-AllDiffer limit tables x = AllDiffer-query task_key limit _ _ tables.tasks x.unique_ids

listed-IsThere :
    (w : World) (db : Database) (now : String) (limit : ℕ) (tables : TaskTables)
    → HasIndexes tables.tasks
    → All (IsThere w db now tables) (list_active_tasks limit tables)
unfolding list_active_tasks
listed-IsThere w db now limit tables x =
    let P = IsThere w db now tables in
    take-All P limit _ (
      sort_by-All P _ _
        (select-All P _ tables.tasks (Unique-found task_key tables.tasks x.unique_ids)))

-- Where identifiers, requests and backends of tasks are unique, the reconciliation at startup
-- examines every active task that the limit admits, its failures are, in order, those of these
-- tasks whose identifier is malformed or whose run is not proven to be their own, and no failure
-- stops it: every other task is found afterwards in the state, the phase and the recovery that are
-- derived from its run, and a task that failed is found as it was.
pub reconcile_startup-Stands :
    (w : World) (db : Database) (limit : ℕ) (now : String) (tables : TaskTables)
    → HasIndexes tables.tasks
    → let listed = list_active_tasks limit tables in
      let (report, after) = reconcile_startup w db limit now tables in
      (report.examined ≡ length listed)
      × (failed_ids report ≡ unbound_ids w.scopes listed)
      × All (Stands w db after) listed
unfolding reconcile_startup
reconcile_startup-Stands w db limit now tables x =
    let done =
      reconcile_each-Reconciles w db now (list_active_tasks limit tables)
        (record { examined = 0; changed = 0; failures = [] }) tables x
        (listed-AllDiffer limit tables x) (listed-IsThere w db now limit tables x) in
    (done.counts ∙ omega arith, done.fails, done.all_stand)
