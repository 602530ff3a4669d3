-- ===== src/Tasks/Indexes.antt =====
-- soma/tasks/store.py: the unique indexes of the table of tasks, and that a write of one task keeps them.
use codex_bridge.Prelude.{
  leb, String, Bool, ◌≡◌, refl, ◌∙◌, true, List, [], ◌∷◌, arith, nat_eq, string_eq,
}
use codex_bridge.Prelude.Table.{count_where, keyed, Unique, update-Unique, update_where-Unique}
use codex_bridge.Tasks.Tables.{backend_kind_eq, Task, task_key, request_key}
use codex_bridge.Tasks.Reserve.{owns_backend}
use codex_bridge.Tasks.Update.{
  TaskField, set_other, set_field, set_fields, updated_task, fits_task, is_backend_unique,
}
use codex_bridge.Tasks.Changes.{Change, unchanged, added, updated}

task_id-set_field : (f : TaskField) (t : Task) → (set_field f t).task_id ≡ t.task_id
unfolding set_field
task_id-set_field (set_other v) t = refl
task_id-set_field _ t = refl

task_id-set_fields : (fs : List TaskField) (t : Task) → (set_fields fs t).task_id ≡ t.task_id
unfolding set_fields
task_id-set_fields [] t = refl
task_id-set_fields (f ∷ fs) t = task_id-set_fields fs (set_field f t) ∙ task_id-set_field f t

pub task_id-updated :
    (fs : List TaskField) (b : Bool) (now : String) (t : Task)
    → task_key (updated_task fs b now t) ≡ task_key t
unfolding updated_task
task_id-updated fs b now t = task_id-set_fields fs t

request-set_field : (f : TaskField) (t : Task) → request_key (set_field f t) ≡ request_key t
unfolding set_field
request-set_field (set_other v) t = refl
request-set_field _ t = refl

request-set_fields :
    (fs : List TaskField) (t : Task) → request_key (set_fields fs t) ≡ request_key t
unfolding set_fields
request-set_fields [] t = refl
request-set_fields (f ∷ fs) t = request-set_fields fs (set_field f t) ∙ request-set_field f t

pub request-updated :
    (fs : List TaskField) (b : Bool) (now : String) (t : Task)
    → request_key (updated_task fs b now t) ≡ request_key t
unfolding updated_task
request-updated fs b now t = request-set_fields fs t

-- One task per identifier, per request of a controller, and per backend reference.
pub record HasIndexes (rows : List Task) : Type 0 where
  pub unique_ids : Unique task_key rows
  pub unique_requests : Unique request_key rows
  pub unique_backends : is_backend_unique rows rows ≡ true

backend_unique-added :
    (t : Task) (ts rows : List Task)
    → count_where (owns_backend t.backend_kind t.backend_ref) ts ≡ 0
    → is_backend_unique ts rows ≡ true
    → is_backend_unique ts (t ∷ rows) ≡ true
unfolding is_backend_unique count_where owns_backend
backend_unique-added t [] rows h u = refl
backend_unique-added t (r ∷ rs) rows h u = ground (arith, backend_unique-added t rs rows)

backend_unique-new :
    (t : Task) (rows : List Task)
    → count_where (owns_backend t.backend_kind t.backend_ref) rows ≡ 0
    → leb (count_where (owns_backend t.backend_kind t.backend_ref) (t ∷ rows)) 1 ≡ true
unfolding count_where
backend_unique-new t rows h = ground arith

pub Change-HasIndexes :
    {rows after : List Task} → Change rows after → HasIndexes rows → HasIndexes after
unfolding is_backend_unique
Change-HasIndexes unchanged x = x
Change-HasIndexes {rows} (added t fresh) x = record {
  unique_ids = (fresh.no_task, x.unique_ids);
  unique_requests = (fresh.no_request, x.unique_requests);
  unique_backends = ground (
    arith,
    backend_unique-new t rows fresh.no_owner,
    backend_unique-added t rows rows fresh.no_owner x.unique_backends,
  );
}
Change-HasIndexes {rows} (updated i f v s b now known backends) x = record {
  unique_ids =
      update-Unique task_key i (fits_task v s) _ (task_id-updated f b now) rows x.unique_ids;
  unique_requests =
      update_where-Unique request_key (keyed task_key i (fits_task v s)) _ (request-updated f b now)
        rows x.unique_requests;
  unique_backends = backends;
}
