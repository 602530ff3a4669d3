-- ===== src/Runs/Lifecycle.antt =====
-- soma/run_store.py: what holds of every run over every sequence of careful writes.
use codex_bridge.Prelude.{
  ℕ, String, refl, ◌≡◌, true, inl, inr, Bool, not, Option, none, some, List, [], ◌∷◌, arith,
  Bool-cases, contains, string_eq, pure, ◌>>◌, Option-cases,
}
use codex_bridge.Prelude.Table.{insert, find-insert_old}
use codex_bridge.Prelude.Text.{Object}
use codex_bridge.Runs.RunId.{is_run_id}
use codex_bridge.Runs.Model.{Status, is_terminal, Run, Database, run_key}
use codex_bridge.Runs.Update.{conditional_update, get_run}
use codex_bridge.Runs.Evolution.{
  Evolves-refl, AllEvolve, AllEvolve-refl, AllEvolve-trans, conditional_update-AllEvolve,
  bind-AllEvolve,
}
use codex_bridge.Runs.Untouched.{any_of, sets_report, sets_lease}
use codex_bridge.Runs.Worker.{
  launch_fields, or_else, launch_write, claim_write, update_worker_progress, heartbeat_write,
  attach_child_pid, adopt_worker, is_updated,
}
use codex_bridge.Runs.Terminal.{
  terminal_fields, Outcome, recovery_write, transition_terminal, infrastructure_write,
}
use codex_bridge.Runs.Publication.{
  record_result_publication, record_result_publication_with_projection, record_public_result,
  publication_statuses, public_result_statuses,
}
use codex_bridge.Runs.Progress.{
  NewRun, new_run, create_run, append_event, set_run_progress, insert_event, stamp_run,
  stamp_and_insert, found,
}
use codex_bridge.Runs.Writes.{
  Write, create, launch, claim, progress, beat, attach, adopt, recover, finish, fail, publish,
  publish_projection, project, log, show_progress, update_with, perform, perform_all, is_careful,
  all_careful,
}

found-AllEvolve : (u : Option Run) (db : Database) → AllEvolve db (found u db).1
found-AllEvolve none db = AllEvolve-refl db
found-AllEvolve (some r) db = AllEvolve-refl db

-- The events change no run.
insert_event-AllEvolve :
    (i t l s m : String) (o : Object) (db : Database) → AllEvolve db (insert_event i t l s m o db).1
unfolding insert_event
insert_event-AllEvolve i t l s m o db j r h = (r, ground arith, Evolves-refl r)

-- A call that ends in a conditional update and then only reads.
module _ (db : Database) where
  launch_write-AllEvolve :
      (i : String) (p : ℕ) (v : Option ℕ) (t : Option String) (g : Option ℕ) (a : Bool)
      (now : String) (r : Run)
      → AllEvolve db (launch_write i p v t g a now r db).1
  unfolding launch_write any_of sets_lease
  launch_write-AllEvolve i p v t g a now r =
      conditional_update-AllEvolve i (launch_fields p a now r) _ _ db (inl refl, ground arith)

  claim_write-AllEvolve :
      (i t : String) (p : ℕ) (w : String) (g v : Option ℕ) (now : String) (r : Run)
      → AllEvolve db (claim_write i t p w g v now r db).1
  unfolding claim_write any_of sets_lease
  claim_write-AllEvolve i t p w g v now r = conditional_update-AllEvolve i _ _ _ db (inl refl, refl)

  progress-AllEvolve :
      (i t : String) (g : ℕ) (p : String) (e : ℕ) (o : Object) (now : String)
      → AllEvolve db (update_worker_progress i t g p e o now db).1
  unfolding update_worker_progress any_of sets_report sets_lease
  progress-AllEvolve i t g p e o now =
      bind-AllEvolve (conditional_update i _ _ _) (λ u. pure (is_updated u)) db
        (conditional_update-AllEvolve i _ _ _ db (inr refl, refl)) (λ u d. AllEvolve-refl d)

  heartbeat_write-AllEvolve :
      (i t : String) (e : ℕ) (o : Object) (g : Option ℕ) (now : String) (r : Run)
      → AllEvolve db (heartbeat_write i t e o g now r db).1
  unfolding heartbeat_write any_of sets_report sets_lease
  heartbeat_write-AllEvolve i t e o g now r =
      conditional_update-AllEvolve i _ _ _ db (inr refl, refl)

  attach_child_pid-AllEvolve :
      (i : String) (c : ℕ) (t : String) (g : ℕ) (now : String)
      → AllEvolve db (attach_child_pid i c t g now db).1
  unfolding attach_child_pid any_of sets_report sets_lease
  attach_child_pid-AllEvolve i c t g now =
      bind-AllEvolve (conditional_update i _ _ _) (λ u. pure (is_updated u)) db
        (conditional_update-AllEvolve i _ _ _ db (inr refl, refl)) (λ u d. AllEvolve-refl d)

  adopt_worker-AllEvolve :
      (i : String) (v : ℕ) (t : String) (g : ℕ) (h : Option String) (now : String)
      → AllEvolve db (adopt_worker i v t g h now db).1
  unfolding adopt_worker any_of sets_report sets_lease
  adopt_worker-AllEvolve i v t g h now = conditional_update-AllEvolve i _ _ _ db (inr refl, refl)

  recovery_write-AllEvolve :
      (i w : String) (s : Option (List Status)) (v : Option ℕ) (t : Option String) (g : Option ℕ)
      (h : Option (Option String)) (r : Run)
      → AllEvolve db (recovery_write i w s v t g h r db).1
  unfolding recovery_write any_of sets_lease
  recovery_write-AllEvolve i w s v t g h r =
      conditional_update-AllEvolve i _ _ _ db (inl refl, refl)

  transition_terminal-AllEvolve :
      (i : String) (o : Outcome) (s : List Status) (v : ℕ) (t : Option String) (g : Option ℕ)
      (h : Option (Option String)) (now : String)
      → AllEvolve db (transition_terminal i o s v t g h now db).1
  unfolding transition_terminal any_of sets_lease
  transition_terminal-AllEvolve i o s v t g h now = elim (Bool-cases (not (is_terminal o.status))) [
    | inl other ↦ rw other (AllEvolve-refl db)
    | inr ends ↦
        rw ends
          (conditional_update-AllEvolve i (terminal_fields o now) _ _ db (inl refl, ground arith))
  ]

  publication-AllEvolve :
      (i s h : String) (a : Option String) (e : String) (v : ℕ)
      → AllEvolve db (record_result_publication i s h a e v db).1
  unfolding record_result_publication any_of sets_report sets_lease
  publication-AllEvolve i s h a e v = elim (Bool-cases (not (contains publication_statuses s))) [
    | inl other ↦ rw other (AllEvolve-refl db)
    | inr known ↦ rw known (conditional_update-AllEvolve i _ _ _ db (inr refl, refl))
  ]

  projection-AllEvolve :
      (i : String) (o : Object) (q s e : String) (v : ℕ)
      → AllEvolve db (record_public_result i o q s e v db).1
  unfolding record_public_result any_of sets_report sets_lease
  projection-AllEvolve i o q s e v = elim (Bool-cases (not (contains public_result_statuses s))) [
    | inl other ↦ rw other (AllEvolve-refl db)
    | inr known ↦ rw known (conditional_update-AllEvolve i _ _ _ db (inr refl, refl))
  ]

  publication_with_projection-AllEvolve :
      (i s h : String) (a : Option String) (e : String) (o : Object) (q p x : String) (v : ℕ)
      → AllEvolve db (record_result_publication_with_projection i s h a e o q p x v db).1
  unfolding record_result_publication_with_projection any_of sets_report sets_lease
  publication_with_projection-AllEvolve i s h a e o q p x v =
      elim (Bool-cases (not (contains publication_statuses s))) [
        | inl other ↦ rw other (AllEvolve-refl db)
        | inr known ↦ rw known (elim (Bool-cases (not (contains public_result_statuses p))) [
          | inl other ↦ rw other (AllEvolve-refl db)
          | inr fits ↦ rw fits (conditional_update-AllEvolve i _ _ _ db (inr refl, refl))
        ])
      ]

  create_run-AllEvolve : (n : NewRun) (now : String) → AllEvolve db (create_run n now db).1
  unfolding create_run get_run
  create_run-AllEvolve n now j r h = (
    r,
    elim (Option-cases (insert run_key (new_run n now) db.runs)) [
      | inl taken ↦ ground arith
      | inr a ↦ ground (arith, find-insert_old run_key (new_run n now) db.runs a.0 j r)
    ],
    Evolves-refl r,
  )

  infrastructure_write-AllEvolve :
      (show : ℕ → String) (i w : String) (s : Option (List Status)) (v : Option ℕ)
      (t : Option String) (g : Option ℕ) (h : Option (Option String)) (now : String) (r : Run)
      → AllEvolve db (infrastructure_write show i w s v t g h now r db).1
  unfolding infrastructure_write
  infrastructure_write-AllEvolve show i w s v t g h now r =
      transition_terminal-AllEvolve i _ _ _ t g h now

  set_run_progress-AllEvolve :
      (i p : String) (o : Object) (e : Option ℕ) (h : Option String) (now : String)
      → AllEvolve db (set_run_progress i p o e h now db).1
  unfolding set_run_progress any_of sets_report sets_lease
  set_run_progress-AllEvolve i p o e h now =
      bind-AllEvolve (conditional_update i _ _ _) found db
        (conditional_update-AllEvolve i _ _ _ db (inr (ground arith), ground arith)) found-AllEvolve

  stamp_and_insert-AllEvolve :
      (i t l s m : String) (o : Object) → AllEvolve db (stamp_and_insert i t l s m o db).1
  unfolding any_of sets_report sets_lease
  stamp_and_insert-AllEvolve i t l s m o =
      bind-AllEvolve (stamp_run i t s) (λ u. found u >> insert_event i t l s m o) db
        (conditional_update-AllEvolve i _ _ _ db (inr refl, refl))
        λ u d.
          bind-AllEvolve (found u) (λ _. insert_event i t l s m o) d (found-AllEvolve u d)
            λ _ d'. insert_event-AllEvolve i t l s m o d'

  append_event-AllEvolve :
      (i l s m : String) (o : Object) (t : Option String) (u : Bool) (now : String)
      → AllEvolve db (append_event i l s m o t u now db).1
  unfolding append_event
  append_event-AllEvolve i l s m o t u now = elim (Bool-cases (is_run_id i)) [
    | inr invalid ↦ rw invalid (AllEvolve-refl db)
    | inl valid ↦ rw valid (elim (Bool-cases u) [
      | inr plain ↦ rw plain (insert_event-AllEvolve i (or_else t now) l s m o db)
      | inl stamped ↦ rw stamped (stamp_and_insert-AllEvolve i (or_else t now) l s m o)
    ])
  ]

-- Each write lets every run evolve.
perform-AllEvolve : (w : Write) (db : Database) → is_careful w ≡ true → AllEvolve db (perform w db)
unfolding perform is_careful
perform-AllEvolve (create n now) db careful = create_run-AllEvolve db n now
perform-AllEvolve (launch i p v t g a now r) db careful =
    launch_write-AllEvolve db i p v t g a now r
perform-AllEvolve (claim i t p w g v now r) db careful = claim_write-AllEvolve db i t p w g v now r
perform-AllEvolve (progress i t g p e o now) db careful = progress-AllEvolve db i t g p e o now
perform-AllEvolve (beat i t e o g now r) db careful = heartbeat_write-AllEvolve db i t e o g now r
perform-AllEvolve (attach i c t g now) db careful = attach_child_pid-AllEvolve db i c t g now
perform-AllEvolve (adopt i v t g h now) db careful = adopt_worker-AllEvolve db i v t g h now
perform-AllEvolve (recover i w s v t g h r) db careful = recovery_write-AllEvolve db i w s v t g h r
perform-AllEvolve (finish i o s v t g h now) db careful =
    transition_terminal-AllEvolve db i o s v t g h now
perform-AllEvolve (fail show i w s v t g h now r) db careful =
    infrastructure_write-AllEvolve db show i w s v t g h now r
perform-AllEvolve (publish i s h a e v) db careful = publication-AllEvolve db i s h a e v
perform-AllEvolve (publish_projection i s h a e o q p x v) db careful =
    publication_with_projection-AllEvolve db i s h a e o q p x v
perform-AllEvolve (project i o q s e v) db careful = projection-AllEvolve db i o q s e v
perform-AllEvolve (log i l s m o t u now) db careful = append_event-AllEvolve db i l s m o t u now
perform-AllEvolve (show_progress i p o e h now) db careful =
    set_run_progress-AllEvolve db i p o e h now
perform-AllEvolve (update_with i fs g b) db careful = conditional_update-AllEvolve i fs g b db (
  elim (Bool-cases g.reject_terminal) [
    | inl rejects ↦ inl rejects
    | inr accepts ↦ inr (ground (arith, careful, accepts))
  ],
  ground (arith, careful),
)

-- Over every sequence of careful writes to the run store, of all its writes other than update_run
-- and with whatever rows the writers had read, a run is never lost and keeps its identity and its
-- lease, its version never falls, and once it is terminal its status, end, duration, exit code,
-- summary, error, safety flag and result never change. A direct conditional_update is careful if
-- it writes no lease, and what a run reports (status, end, duration, exit code, summary, error,
-- safety flag, result) only if it rejects terminal runs; every other write is.
pub perform_all-AllEvolve :
    (ws : List Write) (db : Database) → all_careful ws ≡ true → AllEvolve db (perform_all ws db)
unfolding perform_all all_careful
perform_all-AllEvolve [] db c = AllEvolve-refl db
perform_all-AllEvolve (w ∷ ws) db c =
    AllEvolve-trans db (perform w db) (perform_all ws (perform w db))
      (perform-AllEvolve w db (ground (arith, c)))
      (perform_all-AllEvolve ws (perform w db) (ground (arith, c)))
