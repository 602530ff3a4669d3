-- ===== src/Runs/Keys.antt =====
-- soma/run_store.py: no write to the runs makes two rows with one key.
use codex_bridge.Prelude.{
  ℕ, String, inl, inr, Bool, not, Option, none, some, List, [], ◌∷◌, arith, Bool-cases, contains,
  string_eq, pure, ◌>>◌, ◌>>=◌, Option-cases, Action, Result, ok, raised, continue,
}
use codex_bridge.Prelude.Table.{insert, insert-Unique, Unique}
use codex_bridge.Prelude.Text.{Object}
use codex_bridge.Runs.RunId.{is_run_id}
use codex_bridge.Runs.Model.{Status, is_terminal, Run, Database, run_key}
use codex_bridge.Runs.Update.{conditional_update, get_run}
use codex_bridge.Runs.Exclusion.{conditional_update-Unique}
use codex_bridge.Runs.Worker.{
  or_else, launch_write, claim_write, update_worker_progress, heartbeat_write, attach_child_pid,
  adopt_worker, is_updated,
}
use codex_bridge.Runs.Terminal.{Outcome, recovery_write, transition_terminal, infrastructure_write}
use codex_bridge.Runs.Publication.{
  record_result_publication, record_result_publication_with_projection, record_public_result,
  publication_statuses, public_result_statuses,
}
use codex_bridge.Runs.Progress.{
  NewRun, new_run, create_run, append_event, set_run_progress, insert_event, stamp_run,
  stamp_and_insert, found,
}
use codex_bridge.Runs.Writes.{
  Write, create, launch, claim, progress, beat, attach, adopt, recover, finish, fail, publish,
  publish_projection, project, log, show_progress, update_with, perform, perform_all,
}

abbrev pub HasKeys : Database → Type 0
HasKeys db = Unique run_key db.runs

-- A call keeps the keys, whatever database it meets.
abbrev Keeps : {A : Type 0} → Action Database A → Type 0
Keeps m = (db : Database) → HasKeys db → HasKeys (m db).1

bind-Keeps :
    {A B : Type 0} (m : Action Database A) (f : A → Action Database B)
    → Keeps m
    → ((a : A) → Keeps (f a))
    → Keeps (m >>= f)
bind-Keeps {A} {B} m f first rest db u = go (m db).0 (m db).1 (first db u)
  where
    go : (r : Result A) (d : Database) → HasKeys d → HasKeys (continue r f d).1
    go (ok a) d k = rest a d k
    go (raised e) d k = k

found-Keeps : (u : Option Run) → Keeps (found u)
found-Keeps none db k = k
found-Keeps (some r) db k = k

insert_event-Keeps : (i t l s m : String) (o : Object) → Keeps (insert_event i t l s m o)
unfolding insert_event
insert_event-Keeps i t l s m o db u = ground arith

told-Keeps : (m : Action Database (Option Run)) → Keeps m → Keeps (m >>= λ u. pure (is_updated u))
told-Keeps m k = bind-Keeps m (λ u. pure (is_updated u)) k (λ u d v. v)

transition_terminal-Keeps :
    (i : String) (o : Outcome) (s : List Status) (v : ℕ) (t : Option String) (g : Option ℕ)
    (h : Option (Option String)) (now : String)
    → Keeps (transition_terminal i o s v t g h now)
unfolding transition_terminal
transition_terminal-Keeps i o s v t g h now db u = elim (Bool-cases (not (is_terminal o.status))) [
  | inl other ↦ rw other u
  | inr ends ↦ rw ends (conditional_update-Unique i _ _ _ db u)
]

create_run-Keeps : (n : NewRun) (now : String) → Keeps (create_run n now)
unfolding create_run get_run
create_run-Keeps n now db u = elim (Option-cases (insert run_key (new_run n now) db.runs)) [
  | inl taken ↦ ground arith
  | inr a ↦ ground (arith, insert-Unique run_key (new_run n now) db.runs a.0 a.1 u)
]

publication-Keeps :
    (i s h : String) (a : Option String) (e : String) (v : ℕ)
    → Keeps (record_result_publication i s h a e v)
unfolding record_result_publication
publication-Keeps i s h a e v db u = elim (Bool-cases (not (contains publication_statuses s))) [
  | inl other ↦ rw other u
  | inr known ↦ rw known (conditional_update-Unique i _ _ _ db u)
]

projection-Keeps :
    (i : String) (o : Object) (q s e : String) (v : ℕ) → Keeps (record_public_result i o q s e v)
unfolding record_public_result
projection-Keeps i o q s e v db u = elim (Bool-cases (not (contains public_result_statuses s))) [
  | inl other ↦ rw other u
  | inr known ↦ rw known (conditional_update-Unique i _ _ _ db u)
]

publication_with_projection-Keeps :
    (i s h : String) (a : Option String) (e : String) (o : Object) (q p x : String) (v : ℕ)
    → Keeps (record_result_publication_with_projection i s h a e o q p x v)
unfolding record_result_publication_with_projection
publication_with_projection-Keeps i s h a e o q p x v db u =
    elim (Bool-cases (not (contains publication_statuses s))) [
      | inl other ↦ rw other u
      | inr known ↦ rw known (elim (Bool-cases (not (contains public_result_statuses p))) [
        | inl other ↦ rw other u
        | inr fits ↦ rw fits (conditional_update-Unique i _ _ _ db u)
      ])
    ]

stamp_and_insert-Keeps : (i t l s m : String) (o : Object) → Keeps (stamp_and_insert i t l s m o)
stamp_and_insert-Keeps i t l s m o =
    bind-Keeps (stamp_run i t s) (λ u. found u >> insert_event i t l s m o)
      (conditional_update-Unique i _ _ _)
      (λ u.
        bind-Keeps (found u) (λ _. insert_event i t l s m o) (found-Keeps u)
          (λ _. insert_event-Keeps i t l s m o))

append_event-Keeps :
    (i l s m : String) (o : Object) (t : Option String) (b : Bool) (now : String)
    → Keeps (append_event i l s m o t b now)
unfolding append_event
append_event-Keeps i l s m o t b now db u = elim (Bool-cases (is_run_id i)) [
  | inr invalid ↦ rw invalid u
  | inl valid ↦ rw valid (elim (Bool-cases b) [
    | inr plain ↦ rw plain (insert_event-Keeps i (or_else t now) l s m o db u)
    | inl stamped ↦ rw stamped (stamp_and_insert-Keeps i (or_else t now) l s m o db u)
  ])
]

pub perform-HasKeys : (w : Write) (db : Database) → HasKeys db → HasKeys (perform w db)
unfolding perform launch_write claim_write update_worker_progress heartbeat_write attach_child_pid
    adopt_worker recovery_write infrastructure_write set_run_progress
perform-HasKeys (create n now) db u = create_run-Keeps n now db u
perform-HasKeys (launch i p v t g a now r) db u = conditional_update-Unique i _ _ _ db u
perform-HasKeys (claim i t p w g v now r) db u = conditional_update-Unique i _ _ _ db u
perform-HasKeys (progress i t g p e o now) db u =
    told-Keeps (conditional_update i _ _ _) (conditional_update-Unique i _ _ _) db u
perform-HasKeys (beat i t e o g now r) db u = conditional_update-Unique i _ _ _ db u
perform-HasKeys (attach i c t g now) db u =
    told-Keeps (conditional_update i _ _ _) (conditional_update-Unique i _ _ _) db u
perform-HasKeys (adopt i v t g h now) db u = conditional_update-Unique i _ _ _ db u
perform-HasKeys (recover i w s v t g h r) db u = conditional_update-Unique i _ _ _ db u
perform-HasKeys (finish i o s v t g h now) db u = transition_terminal-Keeps i o s v t g h now db u
perform-HasKeys (fail show i w s v t g h now r) db u =
    transition_terminal-Keeps i _ _ _ t g h now db u
perform-HasKeys (publish i s h a e v) db u = publication-Keeps i s h a e v db u
perform-HasKeys (publish_projection i s h a e o q p x v) db u =
    publication_with_projection-Keeps i s h a e o q p x v db u
perform-HasKeys (project i o q s e v) db u = projection-Keeps i o q s e v db u
perform-HasKeys (log i l s m o t b now) db u = append_event-Keeps i l s m o t b now db u
perform-HasKeys (update_with i fs g b) db u = conditional_update-Unique i fs g b db u
perform-HasKeys (show_progress i p o e h now) db u =
    bind-Keeps (conditional_update i _ _ _) found (conditional_update-Unique i _ _ _) found-Keeps db
      u

pub perform_all-HasKeys :
    (ws : List Write) (db : Database) → HasKeys db → HasKeys (perform_all ws db)
unfolding perform_all
perform_all-HasKeys [] db u = u
perform_all-HasKeys (w ∷ ws) db u = perform_all-HasKeys ws (perform w db) (perform-HasKeys w db u)
