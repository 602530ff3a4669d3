-- ===== src/Tasks/Cas.antt =====
-- soma/tasks/store.py: `conditional_update` is a compare-and-set on one task.
use codex_bridge.Prelude.{
  ℕ, String, Bool, ◌≡◌, ◌∙◌, ap, sym, true, not, Option, none, some, List, ◌&&◌, if◌then◌else◌,
  arith, string_eq, nat_eq, ok, Option-cases, inl, inr,
}
use mathlib.Core.Option
use codex_bridge.Prelude.Table.{
  find, keyed, Unique, count-find, find-update, update_where_of_count, count_where,
  find-update_same,
}
use codex_bridge.Runs.Update.{is_empty}
use codex_bridge.Tasks.States.{TaskState}
use codex_bridge.Tasks.Tables.{Task, TaskTables, task_key, is_task_id}
use codex_bridge.Tasks.Update.{
  TaskField, updated_task, fits_task, is_backend_unique, update_task, conditional_update_task,
  all_updatable,
}
use codex_bridge.Tasks.Changes.{after_update}
use codex_bridge.Tasks.Indexes.{task_id-updated}

-- What the store asks of the arguments.
abbrev pub is_update : String → List TaskField → Bool
is_update task_id fields = is_task_id task_id && all_updatable fields && not (is_empty fields)

-- The task that the guard meets.
abbrev pub met_task : String → ℕ → Option (List TaskState) → TaskTables → Option Task
met_task i v s tables = elim (find task_key i tables.tasks) [
  | none ↦ none
  | some t ↦ if fits_task v s t then some t else none
]

module _ (i : String) (f : List TaskField) (v : ℕ) (s : Option (List TaskState)) (b : Bool)
    (now : String) (tables : TaskTables) where
  abbrev after_rows : List Task
  after_rows = after_update i f v s b now tables.tasks

  count-met_task :
      Unique task_key tables.tasks
      → count_where (keyed task_key i (fits_task v s)) tables.tasks
        ≡ elim (met_task i v s tables) [ none ↦ 0 | some _ ↦ 1 ]
  count-met_task u = count-find task_key i (fits_task v s) tables.tasks u ∙ ground arith

  find-met_task :
      (t : Task)
      → met_task i v s tables ≡ some t
      → (find task_key i tables.tasks ≡ some t) × (fits_task v s t ≡ true)
  find-met_task t h = ground arith

  rows_of_none :
      Unique task_key tables.tasks → met_task i v s tables ≡ none → after_rows ≡ tables.tasks
  rows_of_none u h =
      update_where_of_count (keyed task_key i (fits_task v s)) (updated_task f b now) tables.tasks
        (ground (arith, count-met_task u))

  find-after_rows :
      (t : Task)
      → met_task i v s tables ≡ some t
      → find task_key i after_rows ≡ some (updated_task f b now t)
  find-after_rows t m =
      let (found, fits) = find-met_task t m in
      find-update_same task_key i (fits_task v s) (updated_task f b now) (task_id-updated f b now)
        tables.tasks t found fits

  pub update_task-some :
      (t : Task)
      → Unique task_key tables.tasks
      → is_update i f ≡ true
      → is_backend_unique after_rows after_rows ≡ true
      → met_task i v s tables ≡ some t
      → conditional_update_task i f v s b now tables
        ≡ (ok (some (updated_task f b now t)), record tables { tasks = after_rows })
  unfolding conditional_update_task update_task nat_eq
  update_task-some t u h backends m = ground (arith, count-met_task u, m, find-after_rows t m)

  update_task-none :
      Unique task_key tables.tasks
      → is_update i f ≡ true
      → is_backend_unique tables.tasks tables.tasks ≡ true
      → met_task i v s tables ≡ none
      → conditional_update_task i f v s b now tables ≡ (ok none, tables)
  unfolding conditional_update_task update_task nat_eq
  update_task-none u h backends m = ground (arith, count-met_task u, m, rows_of_none u m)

  find-rows :
      (j : String)
      → find task_key j after_rows
        ≡ Option.map
            (λ t. if keyed task_key i (fits_task v s) t then updated_task f b now t else t)
            (find task_key j tables.tasks)
  find-rows j =
      find-update task_key i (fits_task v s) (updated_task f b now) (task_id-updated f b now) j
        tables.tasks

  -- With unique identifiers, accepted arguments and no other owner of the backend reference, the
  -- update of a task is a compare-and-set: it returns the new row exactly if the task exists with
  -- the expected version and in an expected state, it writes that row and no other, and where it
  -- returns none it changes nothing.
  pub conditional_update_task_lem :
      Unique task_key tables.tasks
      → is_update i f ≡ true
      → is_backend_unique after_rows after_rows ≡ true
      → ((conditional_update_task i f v s b now tables).0
          ≡ ok (Option.map (updated_task f b now) (met_task i v s tables)))
        × ((j : String)
            → find task_key j (conditional_update_task i f v s b now tables).1.tasks
              ≡ Option.map
                  (λ t. if keyed task_key i (fits_task v s) t then updated_task f b now t else t)
                  (find task_key j tables.tasks))
        × (met_task i v s tables ≡ none → (conditional_update_task i f v s b now tables).1 ≡ tables)
  conditional_update_task_lem u h backends = elim (Option-cases (met_task i v s tables)) [
    | inl missed ↦
        let rows = rows_of_none u missed in
        let same : conditional_update_task i f v s b now tables ≡ (ok none, tables) =
          update_task-none u h (ap (λ rs. is_backend_unique rs rs) (sym rows) ∙ backends) missed in
        (
          ground (arith, same, missed),
          λ j.
              ap (λ d. find task_key j d.1.tasks) same
              ∙ ap (find task_key j) (sym rows)
              ∙ find-rows j,
          λ m. ap (λ d. d.1) same,
        )
    | inr a ↦
        let done = update_task-some a.0 u h backends a.1 in
        (
          ap (λ d. d.0) done ∙ ground (arith, a.1),
          λ j. ap (λ d. find task_key j d.1.tasks) done ∙ find-rows j,
          λ m. ground (arith, m, a.1),
        )
  ]
