-- ===== src/Tasks/Create.antt =====
-- soma/tasks/store.py: what a reservation leaves in the table of tasks.
use codex_bridge.Prelude.{
  String, ◌≡◌, refl, ◌∙◌, ap, ◌⊎◌, inl, inr, true, none, some, List, ◌∷◌, ◌==◌, ok, raised, arith,
  Option-cases, Bool-cases, nat_eq, string_eq, integrity_error,
}
use codex_bridge.Prelude.Table.{find, insert, count_where}
use codex_bridge.Prelude.Text.{Object}
use codex_bridge.Tasks.Tables.{
  LinkType, LinkTargetKind, Task, TaskTables, task_key, request_key, is_task_id,
}
use codex_bridge.Tasks.Reserve.{
  Reserve, new_task, owns_backend, insert_task, insert_link, link_backend, link_parent, create_task,
  reserve_in_connection, reserve_task,
}

-- No index stands against the new row.
pub record IsFresh (t : Task) (rows : List Task) : Type 0 where
  pub no_task : find task_key t.task_id rows ≡ none
  pub no_request : find request_key t.controller_request_id rows ≡ none
  pub no_owner : count_where (owns_backend t.backend_kind t.backend_ref) rows ≡ 0

abbrev add_task : Task → TaskTables → TaskTables
add_task t tables = record tables { tasks = t ∷ tables.tasks }

pub insert_task-IsFresh :
    (t : Task) (tables : TaskTables)
    → IsFresh t tables.tasks
    → insert_task t tables ≡ (ok tt, add_task t tables)
unfolding insert_task insert nat_eq
insert_task-IsFresh t tables fresh = ground (arith, fresh.no_task, fresh.no_request, fresh.no_owner)

-- An insertion happens, or the row is refused and nothing changes.
pub insert_task-cases :
    (t : Task) (tables : TaskTables)
    → IsFresh t tables.tasks ⊎ (insert_task t tables ≡ (raised integrity_error, tables))
unfolding insert_task insert nat_eq
insert_task-cases t tables = elim (Option-cases (find task_key t.task_id tables.tasks)) [
  | inr a ↦ inr (ground (arith, a.1))
  | inl no_task ↦ elim (Option-cases (find request_key t.controller_request_id tables.tasks)) [
    | inr a ↦ inr (ground (arith, no_task, a.1))
    | inl no_request ↦
        elim (Bool-cases
          (count_where (owns_backend t.backend_kind t.backend_ref) tables.tasks == 0)) [
            | inl none_owns ↦
                inl (record { no_task = no_task; no_request = no_request; no_owner = ground arith })
            | inr owned ↦ inr (ground (arith, no_task, no_request))
          ]
  ]
]

module _ (task_id : String) (l : LinkType) (k : LinkTargetKind) (target : String) (o : Object)
    (now : String) (tables : TaskTables) where
  pub tasks-insert_link : (insert_link task_id l k target o now tables).1.tasks ≡ tables.tasks
  unfolding insert_link
  tasks-insert_link = ground arith

  pub insert_link-ok :
      (t : Task)
      → find task_key task_id tables.tasks ≡ some t
      → (insert_link task_id l k target o now tables).0 ≡ ok tt
  unfolding insert_link
  insert_link-ok t h = ground arith

module _ (q : Reserve) (now : String) (tables : TaskTables) where
  tasks-link_backend : (link_backend q now tables).1.tasks ≡ tables.tasks
  unfolding link_backend
  tasks-link_backend = elim (Bool-cases (q.backend_ref == "")) [
    | inl without ↦ rw without refl
    | inr has ↦ rw has (tasks-insert_link q.task_id _ _ q.backend_ref _ now tables)
  ]

  link_backend-ok :
      (t : Task)
      → find task_key q.task_id tables.tasks ≡ some t
      → (link_backend q now tables).0 ≡ ok tt
  unfolding link_backend
  link_backend-ok t h = elim (Bool-cases (q.backend_ref == "")) [
    | inl without ↦ rw without refl
    | inr has ↦ rw has (insert_link-ok q.task_id _ _ q.backend_ref _ now tables t h)
  ]

  tasks-link_parent : (link_parent q now tables).1.tasks ≡ tables.tasks
  unfolding link_parent
  tasks-link_parent = elim (Bool-cases (q.parent_task_id == "")) [
    | inl without ↦ rw without refl
    | inr has ↦ rw has (tasks-insert_link q.task_id _ _ q.parent_task_id _ now tables)
  ]

  link_parent-ok :
      (t : Task)
      → find task_key q.task_id tables.tasks ≡ some t
      → (link_parent q now tables).0 ≡ ok tt
  unfolding link_parent
  link_parent-ok t h = elim (Bool-cases (q.parent_task_id == "")) [
    | inl without ↦ rw without refl
    | inr has ↦ rw has (insert_link-ok q.task_id _ _ q.parent_task_id _ now tables t h)
  ]

-- The links of a task that is there: no error, and the same tasks.
module _ (q : Reserve) (now : String) where
  abbrev linked : TaskTables → TaskTables
  linked tables = (link_parent q now (link_backend q now tables).1).1

  tasks-linked : (tables : TaskTables) → (linked tables).tasks ≡ tables.tasks
  tasks-linked tables =
      tasks-link_parent q now (link_backend q now tables).1 ∙ tasks-link_backend q now tables

  link_parent_ok :
      (tables : TaskTables) (t : Task)
      → find task_key q.task_id tables.tasks ≡ some t
      → (link_parent q now (link_backend q now tables).1).0 ≡ ok tt
  link_parent_ok tables t h =
      link_parent-ok q now (link_backend q now tables).1 t
        (ap (find task_key q.task_id) (tasks-link_backend q now tables) ∙ h)

  find-added :
      (tables : TaskTables)
      → find task_key q.task_id (add_task (new_task q now) tables).tasks ≡ some (new_task q now)
  unfolding find
  find-added tables = ground arith

  find-linked :
      (tables : TaskTables)
      → find task_key q.task_id (linked (add_task (new_task q now) tables)).tasks
        ≡ some (new_task q now)
  find-linked tables =
      ap (find task_key q.task_id) (tasks-linked (add_task (new_task q now) tables))
      ∙ find-added tables

  pub create_task-IsFresh :
      (tables : TaskTables)
      → IsFresh (new_task q now) tables.tasks
      → create_task q now tables
        ≡ (ok (new_task q now, true), linked (add_task (new_task q now) tables))
  unfolding create_task
  create_task-IsFresh tables fresh =
      let start = add_task (new_task q now) tables in
      ground (
        arith,
        insert_task-IsFresh (new_task q now) tables fresh,
        link_backend-ok q now start (new_task q now) (find-added tables),
        link_parent_ok start (new_task q now) (find-added tables),
        find-linked tables,
      )

  pub create_task-refused :
      (tables : TaskTables)
      → insert_task (new_task q now) tables ≡ (raised integrity_error, tables)
      → create_task q now tables ≡ (raised integrity_error, tables)
  unfolding create_task
  create_task-refused tables h = rw h refl

  -- A reservation of a free request with a fresh row.
  pub reserve_task-created :
      (tables : TaskTables)
      → is_task_id q.task_id ≡ true
      → IsFresh (new_task q now) tables.tasks
      → reserve_task q now tables
        ≡ (ok (new_task q now, true), linked (add_task (new_task q now) tables))
  unfolding reserve_task reserve_in_connection
  reserve_task-created tables valid fresh =
      ground (arith, valid, fresh.no_request, create_task-IsFresh tables fresh)

  pub tasks-created :
      (tables : TaskTables)
      → is_task_id q.task_id ≡ true
      → IsFresh (new_task q now) tables.tasks
      → (reserve_task q now tables).1.tasks ≡ new_task q now ∷ tables.tasks
  tasks-created tables valid fresh =
      ap (λ r. r.1.tasks) (reserve_task-created tables valid fresh)
      ∙ tasks-linked (add_task (new_task q now) tables)

  -- What is left of the tasks, whatever the call returned.
  pub reserve_task-cases :
      (tables : TaskTables)
      → ((reserve_task q now tables).1.tasks ≡ tables.tasks)
        ⊎ (IsFresh (new_task q now) tables.tasks
            × ((reserve_task q now tables).1.tasks ≡ new_task q now ∷ tables.tasks))
  unfolding reserve_task reserve_in_connection
  reserve_task-cases tables = elim (Bool-cases (is_task_id q.task_id)) [
    | inr invalid ↦ inl (ground arith)
    | inl valid ↦ elim (Option-cases (find request_key q.controller_request_id tables.tasks)) [
      | inr a ↦ inl (ground (arith, a.1))
      | inl free ↦ elim (insert_task-cases (new_task q now) tables) [
        | inl fresh ↦ inr (
          fresh,
          ground (
            arith,
            create_task-IsFresh tables fresh,
            tasks-linked (add_task (new_task q now) tables),
          ),
        )
        | inr refused ↦ inl (ground (arith, create_task-refused tables refused))
      ]
    ]
  ]
