-- ===== src/Runs/Evolution.antt =====
-- soma/run_store.py: what a conditional update leaves alone in every run.

use codex_bridge.Prelude.{
  ◌≤◌, String, ◌≡◌, refl, ◌∙◌, ◌⊎◌, inl, inr, true, false, some, List, string_eq, nat_eq, arith,
  Bool-cases, Action, Result, ok, raised, continue, ◌>>=◌,
}
use codex_bridge.Prelude.Table.{find, keyed}
use codex_bridge.Runs.Model.{is_terminal, Run, Assignment, Database, run_key}
use codex_bridge.Runs.Update.{
  Guard, Bump, normalize, written, admits, conditional_update, update_rows, next_version, get_run,
}
use codex_bridge.Runs.Cas.{find-update_rows, after_write}
use codex_bridge.Runs.Untouched.{
  identity, held_lease, report, sets_report, sets_lease, any_of, report-assign_all,
  held_lease-assign_all, identity-assign_all, report-normalize, lease-normalize,
}

-- How a run may change: it stays the run that it was, under its lease, its version never falls, and
-- what a terminal run reports stays.
pub record Evolves (r r' : Run) : Type 0 where
  pub same_identity : identity r' ≡ identity r
  pub same_lease : held_lease r' ≡ held_lease r
  pub version_grows : r.state_version ≤ r'.state_version
  pub final_report : is_terminal r.status ≡ true → report r' ≡ report r

pub Evolves-refl : (r : Run) → Evolves r r
Evolves-refl r = record {
  same_identity = refl;
  same_lease = refl;
  version_grows = omega arith;
  final_report = λ _. refl;
}

pub Evolves-trans : {a b c : Run} → Evolves a b → Evolves b c → Evolves a c
Evolves-trans {a} {b} {c} f g = record {
  same_identity = g.same_identity ∙ f.same_identity;
  same_lease = g.same_lease ∙ f.same_lease;
  version_grows = omega (arith, f.version_grows, g.version_grows);
  final_report = λ h. ground (arith, f.final_report h, g.final_report);
}

-- A terminal run is out of reach of the update, and so is the lease of every run.
abbrev pub SparesTerminal : List Assignment → Guard → Type 0
SparesTerminal fields g =
    ((g.reject_terminal ≡ true) ⊎ (any_of sets_report fields ≡ false))
    × (any_of sets_lease fields ≡ false)

version-written :
    (fields : List Assignment) (b : Bump) (r : Run)
    → r.state_version ≤ (written fields b r).state_version
unfolding written next_version
version-written fields b r = ground arith

rejects_terminal :
    (g : Guard) (r : Run)
    → g.reject_terminal ≡ true
    → is_terminal r.status ≡ true
    → admits g r ≡ false
unfolding admits
rejects_terminal g r h t = ground arith

written-Evolves :
    (fields : List Assignment) (g : Guard) (b : Bump) (r : Run)
    → SparesTerminal fields g
    → admits g r ≡ true
    → Evolves r (written (normalize fields) b r)
unfolding written
written-Evolves fields g b r spares fits = record {
  same_identity = identity-assign_all (normalize fields) r;
  same_lease = held_lease-assign_all (normalize fields) r (lease-normalize fields ∙ spares.1);
  version_grows = unfold written in version-written (normalize fields) b r;
  final_report = λ t. elim spares.0 [
    | inl rejects ↦ cc (fits, rejects_terminal g r rejects t)
    | inr silent ↦ report-assign_all (normalize fields) r (report-normalize fields ∙ silent)
  ];
}

-- Every run of one database is in the other, evolved.
abbrev pub AllEvolve : Database → Database → Type 0
AllEvolve db db' =
    (j : String) (r : Run)
    → find run_key j db.runs ≡ some r
    → (r' : Run) × (find run_key j db'.runs ≡ some r') × Evolves r r'

pub AllEvolve-refl : (db : Database) → AllEvolve db db
AllEvolve-refl db j r h = (r, h, Evolves-refl r)

pub AllEvolve-trans : (a b c : Database) → AllEvolve a b → AllEvolve b c → AllEvolve a c
AllEvolve-trans a b c f g j r h =
    let (r', h', e') = f j r h in
    let (r'', h'', e'') = g j r' h' in (r'', h'', Evolves-trans e' e'')

after_write-Evolves :
    (run_id : String) (fields : List Assignment) (g : Guard) (b : Bump) (r : Run)
    → SparesTerminal fields g
    → Evolves r (after_write run_id fields g b r)
after_write-Evolves run_id fields g b r spares =
    elim (Bool-cases (keyed run_key run_id (admits g) r)) [
      | inl meets ↦ rw meets (written-Evolves fields g b r spares (ground arith))
      | inr misses ↦ rw misses (Evolves-refl r)
    ]

module _ (run_id : String) (fields : List Assignment) (g : Guard) (b : Bump) (db : Database) where
  update_rows-AllEvolve : SparesTerminal fields g → AllEvolve db (update_rows run_id fields g b db)
  update_rows-AllEvolve spares j r h = (
    after_write run_id fields g b r,
    rw (find-update_rows run_id fields g b db j, h),
    after_write-Evolves run_id fields g b r spares,
  )

  -- The database after the call, whatever it returned.
  pub conditional_update-cases :
      ((conditional_update run_id fields g b db).1 ≡ db)
      ⊎ ((conditional_update run_id fields g b db).1 ≡ update_rows run_id fields g b db)
  unfolding conditional_update get_run
  conditional_update-cases = ground arith

  pub conditional_update-AllEvolve :
      SparesTerminal fields g → AllEvolve db (conditional_update run_id fields g b db).1
  conditional_update-AllEvolve spares = elim conditional_update-cases [
    | inl same ↦ rw same (AllEvolve-refl db)
    | inr done ↦ rw done (update_rows-AllEvolve spares)
  ]

-- A chain of calls, each of which lets every run evolve.
pub bind-AllEvolve {κ ι} :
    {A : Type κ} {B : Type ι} (m : Action Database A) (f : A → Action Database B) (db : Database)
    → AllEvolve db (m db).1
    → ((a : A) (d : Database) → AllEvolve d (f a d).1)
    → AllEvolve db ((m >>= f) db).1
bind-AllEvolve {A} {B} m f db first rest =
    AllEvolve-trans db (m db).1 ((m >>= f) db).1 first (go (m db).0 (m db).1)
  where
    go : (r : Result A) (d : Database) → AllEvolve d (continue r f d).1
    go (ok a) d = rest a d
    go (raised e) d = AllEvolve-refl d

pub get_run-AllEvolve : (i : String) (db : Database) → AllEvolve db (get_run i db).1
unfolding get_run
get_run-AllEvolve i db j r h = (r, ground arith, Evolves-refl r)
