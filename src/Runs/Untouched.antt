-- ===== src/Runs/Untouched.antt =====
-- soma/run_store.py: what the assignments of an update leave alone.
use codex_bridge.Prelude.{
  ℕ, String, ◌≡◌, refl, ◌∙◌, Bool, true, false, ◌||◌, Option, List, [], ◌∷◌, ◌++◌, string_eq,
  nat_eq, arith,
}
use codex_bridge.Prelude.Text.{Object}
use codex_bridge.Runs.Model.{
  Status, ℤ, Run, Assignment, set_status, set_worker_lease_token, set_lease_generation,
  set_ended_at, set_duration_seconds, set_exit_code, set_summary, set_error, set_safety_failure,
  set_result,
}
use codex_bridge.Runs.Update.{assign, assign_all, normalize_field, normalize}

-- What a run is, from its creation on.
pub record Identity : Type 0 where
  pub run_id : String
  pub repo_name : String
  pub tool : String
  pub created_at : String
  pub run_dir : String
  pub input : Object

abbrev pub identity : Run → Identity
identity r = record {
  run_id = r.run_id;
  repo_name = r.repo_name;
  tool = r.tool;
  created_at = r.created_at;
  run_dir = r.run_dir;
  input = r.input;
}

abbrev pub held_lease : Run → String × ℕ
held_lease r = (r.worker_lease_token, r.lease_generation)

-- What a terminal run reports.
pub record Report : Type 0 where
  pub status : Status
  pub ended_at : Option String
  pub duration_seconds : Option ℕ
  pub exit_code : Option ℤ
  pub summary : String
  pub error : String
  pub safety_failure : Bool
  pub result : Object

abbrev pub report : Run → Report
report r = record {
  status = r.status;
  ended_at = r.ended_at;
  duration_seconds = r.duration_seconds;
  exit_code = r.exit_code;
  summary = r.summary;
  error = r.error;
  safety_failure = r.safety_failure;
  result = r.result;
}

unfoldable pub sets_report : Assignment → Bool
sets_report (set_status _) = true
sets_report (set_ended_at _) = true
sets_report (set_duration_seconds _) = true
sets_report (set_exit_code _) = true
sets_report (set_summary _) = true
sets_report (set_error _) = true
sets_report (set_safety_failure _) = true
sets_report (set_result _) = true
sets_report _ = false

unfoldable pub sets_lease : Assignment → Bool
sets_lease (set_worker_lease_token _) = true
sets_lease (set_lease_generation _) = true
sets_lease _ = false

unfoldable pub any_of : (Assignment → Bool) → List Assignment → Bool
any_of p [] = false
any_of p (a ∷ rest) = p a || any_of p rest

any_of-append :
    (p : Assignment → Bool) (xs ys : List Assignment)
    → any_of p (xs ++ ys) ≡ (any_of p xs || any_of p ys)
unfolding any_of
any_of-append p [] ys = refl
any_of-append p (x ∷ xs) ys = ground (arith, any_of-append p xs ys)

report-assign : (a : Assignment) (r : Run) → sets_report a ≡ false → report (assign a r) ≡ report r
unfolding assign sets_report
report-assign (set_status v) r h = ground arith
report-assign _ r h = ground arith

held_lease-assign :
    (a : Assignment) (r : Run) → sets_lease a ≡ false → held_lease (assign a r) ≡ held_lease r
unfolding assign sets_lease
held_lease-assign (set_status v) r h = ground arith
held_lease-assign _ r h = ground arith

identity-assign : (a : Assignment) (r : Run) → identity (assign a r) ≡ identity r
unfolding assign
identity-assign (set_status v) r = refl
identity-assign _ r = refl

version-assign : (a : Assignment) (r : Run) → (assign a r).state_version ≡ r.state_version
unfolding assign
version-assign (set_status v) r = refl
version-assign _ r = refl

pub report-assign_all :
    (fields : List Assignment) (r : Run)
    → any_of sets_report fields ≡ false
    → report (assign_all fields r) ≡ report r
unfolding assign_all any_of
report-assign_all [] r h = refl
report-assign_all (a ∷ rest) r h =
    report-assign_all rest (assign a r) (ground arith) ∙ report-assign a r (ground arith)

pub held_lease-assign_all :
    (fields : List Assignment) (r : Run)
    → any_of sets_lease fields ≡ false
    → held_lease (assign_all fields r) ≡ held_lease r
unfolding assign_all any_of
held_lease-assign_all [] r h = refl
held_lease-assign_all (a ∷ rest) r h =
    held_lease-assign_all rest (assign a r) (ground arith) ∙ held_lease-assign a r (ground arith)

pub identity-assign_all :
    (fields : List Assignment) (r : Run) → identity (assign_all fields r) ≡ identity r
unfolding assign_all
identity-assign_all [] r = refl
identity-assign_all (a ∷ rest) r = identity-assign_all rest (assign a r) ∙ identity-assign a r

-- Normalising the values adds no field of the report or of the lease.
report-normalize_field : (a : Assignment) → any_of sets_report (normalize_field a) ≡ sets_report a
unfolding any_of sets_report normalize_field
report-normalize_field (set_status v) = refl
report-normalize_field _ = ground arith

lease-normalize_field : (a : Assignment) → any_of sets_lease (normalize_field a) ≡ sets_lease a
unfolding any_of sets_lease normalize_field
lease-normalize_field (set_status v) = refl
lease-normalize_field _ = ground arith

pub report-normalize :
    (fields : List Assignment) → any_of sets_report (normalize fields) ≡ any_of sets_report fields
unfolding any_of normalize
report-normalize [] = refl
report-normalize (a ∷ rest) =
    any_of-append sets_report (normalize_field a) (normalize rest)
    ∙ ground (arith, report-normalize_field a, report-normalize rest)

pub lease-normalize :
    (fields : List Assignment) → any_of sets_lease (normalize fields) ≡ any_of sets_lease fields
unfolding any_of normalize
lease-normalize [] = refl
lease-normalize (a ∷ rest) =
    any_of-append sets_lease (normalize_field a) (normalize rest)
    ∙ ground (arith, lease-normalize_field a, lease-normalize rest)
