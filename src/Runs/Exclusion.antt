-- ===== src/Runs/Exclusion.antt =====
-- soma/run_store.py: of two writers only one wins, and a worker keeps a run only under its lease.
use mathlib.Core.Option
use codex_bridge.Prelude.{
  ℕ, ◌+◌, String, ◌≡◌, refl, sym, ap, ◌∙◌, inl, inr, Bool, true, none, some, List, arith,
  Bool-cases, string_eq, ok,
}
use codex_bridge.Prelude.Table.{find, Unique, key-find, keyed}
use codex_bridge.Runs.Model.{Run, Assignment, Database, run_key}
use codex_bridge.Runs.Update.{
  Guard, Bump, conditional_update, is_request, written, next_version, admits, normalize,
}
use codex_bridge.Runs.Cas.{
  met, after_write, conditional_update_lem, met_of_ok, written_of_ok, find-met,
  conditional_update-none, update_rows-Unique,
}
use codex_bridge.Runs.Evolution.{conditional_update-cases}
use codex_bridge.Runs.Worker.{bump}

pub conditional_update-Unique :
    (run_id : String) (fields : List Assignment) (g : Guard) (b : Bump) (db : Database)
    → Unique run_key db.runs
    → Unique run_key (conditional_update run_id fields g b db).1.runs
conditional_update-Unique run_id fields g b db u =
    elim (conditional_update-cases run_id fields g b db) [
      | inl same ↦ rw same u
      | inr done ↦ rw done (update_rows-Unique run_id fields g b db u)
    ]

version-written :
    (fields : List Assignment) (r : Run)
    → (written fields bump r).state_version ≡ r.state_version + 1
unfolding written next_version
version-written fields r = refl

pub expects-version :
    (g : Guard) (v : ℕ) (r : Run)
    → g.expected_state_version ≡ some v
    → admits g r ≡ true
    → r.state_version ≡ v
unfolding admits
expects-version g v r e h = ground arith

keyed_lem :
    (k : String) (p : Run → Bool) (r : Run)
    → run_key r ≡ k
    → p r ≡ true
    → keyed run_key k p r ≡ true
keyed_lem k p r e h = ground arith

module _ (run_id : String) (fields : List Assignment) (g : Guard) (b : Bump) (db : Database) where
  after_write_of_met :
      (before : Run)
      → met run_id g db ≡ some before
      → after_write run_id fields g b before ≡ written (normalize fields) b before
  after_write_of_met before m =
      let (found, fits) = find-met run_id fields g b db before m in
      rw (keyed_lem run_id (admits g) before (key-find run_key run_id db.runs before found) fits)

  -- The row that is found after a success is the row that was returned.
  pub find_after :
      (r : Run)
      → Unique run_key db.runs
      → is_request run_id fields b ≡ true
      → (conditional_update run_id fields g b db).0 ≡ ok (some r)
      → find run_key run_id (conditional_update run_id fields g b db).1.runs ≡ some r
  find_after r u h e =
      let p = met_of_ok run_id fields g b db r u h e in
      (conditional_update_lem run_id fields g b db u h).1 run_id
      ∙ ap (Option.map (after_write run_id fields g b)) (find-met run_id fields g b db p.0 p.1).0
      ∙ ap some (after_write_of_met p.0 p.1)
      ∙ ap some (sym (written_of_ok run_id fields g b db r p.0 u h e p.1))

-- A writer that expects the version before a success meets no row.
module _ (run_id : String) (fields : List Assignment) (g : Guard) (version : ℕ) (db : Database)
    (r : Run) where
  pub version_after :
      Unique run_key db.runs
      → is_request run_id fields bump ≡ true
      → g.expected_state_version ≡ some version
      → (conditional_update run_id fields g bump db).0 ≡ ok (some r)
      → r.state_version ≡ version + 1
  version_after u h e won =
      let p = met_of_ok run_id fields g bump db r u h won in
      let found = find-met run_id fields g bump db p.0 p.1 in
      omega (
        arith,
        ap (λ x. x.state_version) (written_of_ok run_id fields g bump db r p.0 u h won p.1),
        version-written (normalize fields) p.0,
        expects-version g version p.0 e found.1,
      )

  met_after :
      (late : Guard)
      → Unique run_key db.runs
      → is_request run_id fields bump ≡ true
      → g.expected_state_version ≡ some version
      → late.expected_state_version ≡ some version
      → (conditional_update run_id fields g bump db).0 ≡ ok (some r)
      → met run_id late (conditional_update run_id fields g bump db).1 ≡ none
  met_after late u h e e' won =
      let f = find_after run_id fields g bump db r u h won in
      let v = version_after u h e won in
      elim (Bool-cases (admits late r)) [
        | inl fits ↦ absurd (omega (arith, v, expects-version late version r e' fits))
        | inr misses ↦ ground (arith, f, misses)
      ]

-- With unique run identifiers, of two writers that expect the same version of a run, where the
-- first raises it and succeeds, the second returns none and changes nothing, whatever it would
-- write.
pub conditional_update-exclusive :
    (run_id : String) (fields late_fields : List Assignment) (g late : Guard) (b : Bump)
    (version : ℕ) (db : Database) (r : Run)
    → Unique run_key db.runs
    → is_request run_id fields bump ≡ true
    → is_request run_id late_fields b ≡ true
    → g.expected_state_version ≡ some version
    → late.expected_state_version ≡ some version
    → (conditional_update run_id fields g bump db).0 ≡ ok (some r)
    → let after = (conditional_update run_id fields g bump db).1 in
      conditional_update run_id late_fields late b after ≡ (ok none, after)
conditional_update-exclusive run_id fields late_fields g late b version db r u h k e e' won =
    conditional_update-none run_id late_fields late b (conditional_update run_id fields g bump db).1
      (conditional_update-Unique run_id fields g bump db u) k
      (met_after run_id fields g version db r late u h e e' won)
