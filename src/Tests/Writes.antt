-- ===== src/Tests/Writes.antt =====
-- The theorems of soma/run_store.py at concrete writes.
use mathlib.Core.Option
use codex_bridge.Prelude.{
  arith, ℕ, String, ◌≡◌, refl, true, none, some, List, [], ◌∷◌, string_eq, nat_eq, ok,
}
use codex_bridge.Prelude.Table.{find, count_where, update_where}
use codex_bridge.Runs.RunId.{is_run_id}
use codex_bridge.Runs.Model.{
  Run, running, Assignment, run_key, set_summary, set_error, all_supported, is_terminal, status_eq,
}
use codex_bridge.Runs.Update.{
  Guard, written, normalize, conditional_update, is_request, admits, expects_status, assign_all,
}
use codex_bridge.Runs.Cas.{conditional_update_lem, met, after_write}
use codex_bridge.Runs.Exclusion.{conditional_update-exclusive}
use codex_bridge.Runs.Worker.{bump, no_bump, claim_fields, claim_write}
use codex_bridge.Runs.Progress.{unguarded}
use codex_bridge.Runs.Writes.{Write, beat, recover, progress, perform_all, is_careful, all_careful}
use codex_bridge.Runs.Evolution.{AllEvolve}
use codex_bridge.Runs.Lifecycle.{perform_all-AllEvolve}
use codex_bridge.Runs.Late.{claim_write-late}
use codex_bridge.Runs.Direct.{cancel_pending}
use codex_bridge.Runs.Untouched.{sets_report, sets_lease, any_of}
use codex_bridge.Tests.Sample.{
  waiting_id, working_id, working, waiting, sample, sample-keys, waiting_valid,
}

abbrev noted : List Assignment
noted = set_summary "noted" ∷ []

abbrev at_version : ℕ → Guard
at_version n = record unguarded { expected_state_version = some n }

noted_request : is_request working_id noted bump ≡ true
unfolding is_request is_run_id all_supported
noted_request = refl

late_request : is_request working_id (set_error "late" ∷ []) no_bump ≡ true
unfolding is_request is_run_id all_supported
late_request = refl

conditional_update_example :
    ((conditional_update working_id noted (at_version 7) bump sample).0
      ≡ ok (Option.map (written (normalize noted) bump) (met working_id (at_version 7) sample)))
    × ((j : String)
        → find run_key j (conditional_update working_id noted (at_version 7) bump sample).1.runs
          ≡ Option.map
              (after_write working_id noted (at_version 7) bump)
              (find run_key j sample.runs))
    × (met working_id (at_version 7) sample ≡ none
        → (conditional_update working_id noted (at_version 7) bump sample).1 ≡ sample)
conditional_update_example =
    conditional_update_lem working_id noted (at_version 7) bump sample sample-keys noted_request

noted_working : Run
noted_working = written noted bump working

conditional_update_won :
    (conditional_update working_id noted (at_version 7) bump sample).0 ≡ ok (some noted_working)
unfolding noted_working conditional_update is_run_id all_supported normalize admits expects_status
    written find string_eq nat_eq is_request count_where update_where assign_all
conditional_update_won = refl

conditional_update_lost :
    (conditional_update working_id noted (at_version 6) bump sample).0 ≡ ok none
unfolding conditional_update is_run_id all_supported normalize admits expects_status written find
    string_eq nat_eq is_request count_where
conditional_update_lost = refl

conditional_update-exclusive_example :
    let after = (conditional_update working_id noted (at_version 7) bump sample).1 in
    conditional_update working_id (set_error "late" ∷ []) (at_version 7) no_bump after
    ≡ (ok none, after)
conditional_update-exclusive_example =
    conditional_update-exclusive working_id noted (set_error "late" ∷ []) (at_version 7)
      (at_version 7) no_bump 7 sample noted_working sample-keys noted_request late_request refl refl
      conditional_update_won

-- The row that the first claim leaves.
abbrev claimed_run : Run
claimed_run = written (normalize (claim_fields 52 "start" "t" waiting)) bump waiting

claim_write_won :
    (claim_write waiting_id "first" 52 "start" none none "t" waiting sample).0
    ≡ ok (some claimed_run)
unfolding claim_write find string_eq nat_eq is_run_id conditional_update all_supported normalize
    admits expects_status written is_terminal is_request count_where status_eq update_where
    assign_all
claim_write_won = refl

-- A second worker that had read the same row, after the first has reported.
abbrev first_reports : List Write
first_reports =
    progress waiting_id "first" 1 "worker" 3 [] "u"
    ∷ cancel_pending (record waiting { status = running; state_version = 6 }) "v"
    ∷ []

first_reports-careful : all_careful first_reports ≡ true
unfolding all_careful is_careful cancel_pending sets_report sets_lease any_of
first_reports-careful = refl

claim_write-late_example :
    let later =
      perform_all first_reports
        (claim_write waiting_id "first" 52 "start" none none "t" waiting sample).1 in
    claim_write waiting_id "first" 53 "start" (some 1) none "w" waiting later ≡ (ok none, later)
claim_write-late_example =
    claim_write-late waiting_id "first" "first" 52 53 "start" "start" none none (some 1) none "t"
      "w" waiting waiting sample claimed_run first_reports sample-keys waiting_valid
      first_reports-careful (omega arith) claim_write_won

-- A request to cancel, a recovery that comes too late, and a heartbeat of the worker.
abbrev three_writes : List Write
three_writes =
    cancel_pending working "t"
    ∷ recover working_id "lost" none none none none none working
    ∷ beat working_id "second" 9 [] none "t" working
    ∷ []

three_writes-careful : all_careful three_writes ≡ true
unfolding all_careful is_careful cancel_pending sets_report sets_lease any_of
three_writes-careful = refl

perform_all_example : AllEvolve sample (perform_all three_writes sample)
perform_all_example = perform_all-AllEvolve three_writes sample three_writes-careful
