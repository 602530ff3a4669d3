-- ===== src/Runs/Late.antt =====
-- soma/run_store.py: a writer that read a run before another's success comes too late, whatever was
-- written since.
use codex_bridge.Prelude.{
  ℕ, ◌≤◌, String, ◌≡◌, true, refl, Bool-cases, inl, inr, none, some, List, Option, arith, string_eq,
  nat_eq, option_eq, ok,
}
use codex_bridge.Prelude.Table.{Unique}
use codex_bridge.Runs.RunId.{is_run_id}
use codex_bridge.Runs.Model.{Run, Assignment, Database, run_key, all_supported}
use codex_bridge.Runs.Update.{Guard, Bump, conditional_update, is_request, admits}
use codex_bridge.Runs.Cas.{met, conditional_update-none}
use codex_bridge.Runs.Worker.{bump, given, claim_fields, claim_write}
use codex_bridge.Runs.Exclusion.{
  conditional_update-Unique, expects-version, find_after, version_after,
}
use codex_bridge.Runs.Writes.{Write, perform_all, all_careful}
use codex_bridge.Runs.Keys.{perform_all-HasKeys}
use codex_bridge.Runs.Lifecycle.{perform_all-AllEvolve}

-- After a success that raised the version, and after careful writes, an update that expects a
-- version no newer than that of the success writes nothing.
module _ (run_id : String) (fields late_fields : List Assignment) (g late : Guard) (b : Bump)
    (version late_version : ℕ) (db : Database) (r : Run) (ws : List Write) where
  conditional_update-late :
      Unique run_key db.runs
      → is_request run_id fields bump ≡ true
      → is_request run_id late_fields b ≡ true
      → all_careful ws ≡ true
      → g.expected_state_version ≡ some version
      → late.expected_state_version ≡ some late_version
      → late_version ≤ version
      → (conditional_update run_id fields g bump db).0 ≡ ok (some r)
      → let later = perform_all ws (conditional_update run_id fields g bump db).1 in
        conditional_update run_id late_fields late b later ≡ (ok none, later)
  conditional_update-late u h k careful e e' old won =
      let after = (conditional_update run_id fields g bump db).1 in
      let later = perform_all ws after in
      let f = find_after run_id fields g bump db r u h won in
      let v = version_after run_id fields g version db r u h e won in
      let (r', found, evolved) = perform_all-AllEvolve ws after careful run_id r f in
      let unmet : met run_id late later ≡ none = elim (Bool-cases (admits late r')) [
        | inl fits ↦ absurd (
            omega
              (arith, v, old, evolved.version_grows, expects-version late late_version r' e' fits))
        | inr misses ↦ ground (arith, found, misses)
      ] in
      conditional_update-none run_id late_fields late b later
        (perform_all-HasKeys ws after (conditional_update-Unique run_id fields g bump db u)) k unmet

claim_is_request :
    (run_id : String) (pid : ℕ) (ident now : String) (current : Run)
    → is_run_id run_id ≡ true
    → is_request run_id (claim_fields pid ident now current) bump ≡ true
unfolding is_request all_supported
claim_is_request run_id pid ident now current valid = ground (arith, valid)

-- The first claim, with the row that its worker had read, and a late one.
module _ (run_id token token' : String) (pid pid' : ℕ) (ident ident' : String)
    (generation version generation' version' : Option ℕ) (now now' : String) (seen seen' : Run)
    (db : Database) (r : Run) (ws : List Write) where
  -- With unique run identifiers, after a claim of a run of well-formed identifier that succeeded,
  -- and after every further sequence of careful writes to the run store, of all its writes other
  -- than update_run, the write of another claim that expects no newer version than the first one
  -- did, as every worker's does that had read the run before, returns none and changes nothing. A
  -- direct conditional_update is careful if it writes no lease, and what a run reports (status,
  -- end, duration, exit code, summary, error, safety flag, result) only if it rejects terminal
  -- runs; every other write is.
  pub claim_write-late :
      Unique run_key db.runs
      → is_run_id run_id ≡ true
      → all_careful ws ≡ true
      → given version' seen'.state_version ≤ given version seen.state_version
      → (claim_write run_id token pid ident generation version now seen db).0 ≡ ok (some r)
      → let later =
          perform_all ws (claim_write run_id token pid ident generation version now seen db).1 in
        claim_write run_id token' pid' ident' generation' version' now' seen' later
        ≡ (ok none, later)
  unfolding claim_write
  claim_write-late u valid careful old won =
      conditional_update-late run_id (claim_fields pid ident now seen)
        (claim_fields pid' ident' now' seen') _ _ bump (given version seen.state_version)
        (given version' seen'.state_version) db r ws u
        (claim_is_request run_id pid ident now seen valid)
        (claim_is_request run_id pid' ident' now' seen' valid) careful refl refl old won
