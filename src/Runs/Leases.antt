-- ===== src/Runs/Leases.antt =====
-- soma/run_store.py: a worker claims a run once, and writes to it only under its lease.
use mathlib.Core.Option
use codex_bridge.Prelude.{
  ℕ, String, ◌≡◌, refl, ap, ◌∙◌, inl, inr, Bool, true, ◌&&◌, ◌==◌, Option, some, List, [], ◌∷◌,
  arith, Bool-cases, string_eq, nat_eq, option_eq, Action, ok, raised, Result, pure, continue,
  ◌>>=◌,
}
use codex_bridge.Prelude.Table.{find, Unique}
use codex_bridge.Prelude.Text.{Object}
use codex_bridge.Runs.RunId.{is_run_id}
use codex_bridge.Runs.Model.{status_eq, running, Run, Assignment, Database, run_key, all_supported}
use codex_bridge.Runs.Update.{
  Guard, Bump, conditional_update, is_request, get_run, written, admits, normalize, expects_status,
}
use codex_bridge.Runs.Cas.{met, conditional_update_lem}
use codex_bridge.Runs.Worker.{
  given, lease, is_updated, heartbeat_worker, attach_child_pid, update_worker_progress,
}

-- The run is executing under this token and this generation.
abbrev pub holds_lease : String → ℕ → Run → Bool
holds_lease token generation r =
    r.status == running && r.worker_lease_token == token && r.lease_generation == generation

admits-lease :
    (token : String) (generation : ℕ) (r : Run)
    → admits (lease (running ∷ []) token generation) r ≡ holds_lease token generation r
unfolding admits expects_status
admits-lease token generation r = ground arith

abbrev pub tell : Result (Option Run) → Result Bool
tell (ok u) = ok (is_updated u)
tell (raised e) = raised e

pub tell_lem :
    (m : Action Database (Option Run)) (db : Database)
    → ((m >>= λ u. pure (is_updated u)) db).0 ≡ tell (m db).0
tell_lem m db =
    elim (m db).0 as (λ x. (continue x (λ u. pure (is_updated u)) (m db).1).0 ≡ tell x) [
      | ok u ↦ refl
      | raised e ↦ refl
    ]

tell-met :
    (run_id : String) (g : Guard) (f : Run → Run) (db : Database) (r : Run)
    → find run_key run_id db.runs ≡ some r
    → tell (ok (Option.map f (met run_id g db))) ≡ ok (admits g r)
tell-met run_id g f db r found = elim (Bool-cases (admits g r)) [
  | inl fits ↦ ground arith
  | inr misses ↦ ground arith
]

-- An update told as a truth value, which says whether the row met the conditions.
pub updated_lem :
    (run_id : String) (fields : List Assignment) (g : Guard) (b : Bump) (db : Database) (r : Run)
    → Unique run_key db.runs
    → is_request run_id fields b ≡ true
    → find run_key run_id db.runs ≡ some r
    → ((conditional_update run_id fields g b >>= λ u. pure (is_updated u)) db).0 ≡ ok (admits g r)
updated_lem run_id fields g b db r u h f =
    tell_lem (conditional_update run_id fields g b) db
    ∙ ap tell (conditional_update_lem run_id fields g b db u h).0
    ∙ tell-met run_id g (written (normalize fields) b) db r f

pub get_run_found :
    (run_id : String) (db : Database) (r : Run)
    → is_run_id run_id ≡ true
    → find run_key run_id db.runs ≡ some r
    → get_run run_id db ≡ (ok r, db)
unfolding get_run
get_run_found run_id db r h f = ground arith

module _ (run_id : String) (db : Database) (r : Run) (u : Unique run_key db.runs)
    (valid : is_run_id run_id ≡ true) (f : find run_key run_id db.runs ≡ some r) where
  progress_lem :
      (token : String) (generation : ℕ) (phase : String) (elapsed : ℕ) (p : Object) (now : String)
      → (update_worker_progress run_id token generation phase elapsed p now db).0
        ≡ ok (holds_lease token generation r)
  unfolding update_worker_progress is_request all_supported
  progress_lem token generation phase elapsed p now =
      updated_lem run_id _ _ _ db r u (ground arith) f ∙ ap ok (admits-lease token generation r)

  attach_lem :
      (token : String) (generation child_pid : ℕ) (now : String)
      → (attach_child_pid run_id child_pid token generation now db).0
        ≡ ok (holds_lease token generation r)
  unfolding attach_child_pid is_request all_supported
  attach_lem token generation child_pid now =
      updated_lem run_id _ _ _ db r u (ground arith) f ∙ ap ok (admits-lease token generation r)

  heartbeat_lem :
      (token : String) (generation : Option ℕ) (elapsed : ℕ) (p : Object) (now : String)
      → (heartbeat_worker run_id token elapsed p generation now db).0
        ≡ ok (holds_lease token (given generation r.lease_generation) r)
  unfolding heartbeat_worker is_request all_supported
  heartbeat_lem token generation elapsed p now = rw (get_run_found run_id db r valid f) (
      updated_lem run_id _ _ _ db r u (ground arith) f
      ∙ ap ok (admits-lease token (given generation r.lease_generation) r))

-- With unique run identifiers, each progress, child process or heartbeat write to an existing run
-- of well-formed identifier succeeds exactly while the run executes under the token and the
-- generation that the worker brings; a heartbeat may leave the generation open.
pub worker_writes_lem :
    (run_id token : String) (generation : ℕ) (db : Database) (r : Run) (phase : String)
    (elapsed child_pid : ℕ) (p : Object) (open_generation : Option ℕ) (now : String)
    → Unique run_key db.runs
    → is_run_id run_id ≡ true
    → find run_key run_id db.runs ≡ some r
    → ((update_worker_progress run_id token generation phase elapsed p now db).0
        ≡ ok (holds_lease token generation r))
      × ((attach_child_pid run_id child_pid token generation now db).0
          ≡ ok (holds_lease token generation r))
      × ((heartbeat_worker run_id token elapsed p open_generation now db).0
          ≡ ok (holds_lease token (given open_generation r.lease_generation) r))
worker_writes_lem run_id token generation db r phase elapsed child_pid p open_generation now u valid
      f =
    (
      progress_lem run_id db r u valid f token generation phase elapsed p now,
      attach_lem run_id db r u valid f token generation child_pid now,
      heartbeat_lem run_id db r u valid f token open_generation elapsed p now,
    )
