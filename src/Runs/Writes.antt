-- ===== src/Runs/Writes.antt =====
-- soma/run_store.py: every write of launchers, workers and publishers as one step, the public
-- conditional_update with any arguments among them, and sequences of steps. A method that reads the run first takes its step with the row that it read, which may be
-- out of date, so every interleaving of such methods is a sequence of steps.
use codex_bridge.Prelude.{ℕ, String, Bool, true, not, ◌&&◌, ◌||◌, Option, List, [], ◌∷◌}
use codex_bridge.Prelude.Text.{Object}
use codex_bridge.Runs.Model.{Status, Run, Assignment, Database}
use codex_bridge.Runs.Update.{Guard, Bump, conditional_update}
use codex_bridge.Runs.Untouched.{sets_report, sets_lease, any_of}
use codex_bridge.Runs.Worker.{
  launch_write, claim_write, update_worker_progress, heartbeat_write, attach_child_pid,
  adopt_worker,
}
use codex_bridge.Runs.Terminal.{Outcome, recovery_write, transition_terminal, infrastructure_write}
use codex_bridge.Runs.Publication.{
  record_result_publication, record_result_publication_with_projection, record_public_result,
}
use codex_bridge.Runs.Progress.{NewRun, create_run, append_event, set_run_progress}

pub data Write : Type 0 where
  create : NewRun → String → Write
  launch : String → ℕ → Option ℕ → Option String → Option ℕ → Bool → String → Run → Write
  claim : String → String → ℕ → String → Option ℕ → Option ℕ → String → Run → Write
  progress : String → String → ℕ → String → ℕ → Object → String → Write
  beat : String → String → ℕ → Object → Option ℕ → String → Run → Write
  attach : String → ℕ → String → ℕ → String → Write
  adopt : String → ℕ → String → ℕ → Option String → String → Write
  recover :
      String
      → String
      → Option (List Status)
      → Option ℕ
      → Option String
      → Option ℕ
      → Option (Option String)
      → Run
      → Write
  finish :
      String
      → Outcome
      → List Status
      → ℕ
      → Option String
      → Option ℕ
      → Option (Option String)
      → String
      → Write
  fail :
      (ℕ → String)
      → String
      → String
      → Option (List Status)
      → Option ℕ
      → Option String
      → Option ℕ
      → Option (Option String)
      → String
      → Run
      → Write
  publish : String → String → String → Option String → String → ℕ → Write
  publish_projection :
      String
      → String
      → String
      → Option String
      → String
      → Object
      → String
      → String
      → String
      → ℕ
      → Write
  project : String → Object → String → String → String → ℕ → Write
  log : String → String → String → String → Object → Option String → Bool → String → Write
  show_progress : String → String → Object → Option ℕ → Option String → String → Write
  update_with : String → List Assignment → Guard → Bump → Write

unfoldable pub perform : Write → Database → Database
perform (create n now) db = (create_run n now db).1
perform (launch i p v t g a now r) db = (launch_write i p v t g a now r db).1
perform (claim i t p w g v now r) db = (claim_write i t p w g v now r db).1
perform (progress i t g p e o now) db = (update_worker_progress i t g p e o now db).1
perform (beat i t e o g now r) db = (heartbeat_write i t e o g now r db).1
perform (attach i c t g now) db = (attach_child_pid i c t g now db).1
perform (adopt i v t g h now) db = (adopt_worker i v t g h now db).1
perform (recover i w s v t g h r) db = (recovery_write i w s v t g h r db).1
perform (finish i o s v t g h now) db = (transition_terminal i o s v t g h now db).1
perform (fail show i w s v t g h now r) db = (infrastructure_write show i w s v t g h now r db).1
perform (publish i s h a e v) db = (record_result_publication i s h a e v db).1
perform (publish_projection i s h a e o q p x v) db =
    (record_result_publication_with_projection i s h a e o q p x v db).1
perform (project i o q s e v) db = (record_public_result i o q s e v db).1
perform (log i l s m o t u now) db = (append_event i l s m o t u now db).1
perform (show_progress i p o e h now) db = (set_run_progress i p o e h now db).1
perform (update_with i fs g b) db = (conditional_update i fs g b db).1

unfoldable pub perform_all : List Write → Database → Database
perform_all [] db = db
perform_all (w ∷ ws) db = perform_all ws (perform w db)

-- A direct update writes no lease, and what a run reports only where it rejects terminal runs. The
-- other writes are the store's own.
unfoldable pub is_careful : Write → Bool
is_careful (update_with i fs g b) =
    (g.reject_terminal || not (any_of sets_report fs)) && not (any_of sets_lease fs)
is_careful _ = true

unfoldable pub all_careful : List Write → Bool
unfolding is_careful
all_careful [] = true
all_careful (w ∷ ws) = is_careful w && all_careful ws
