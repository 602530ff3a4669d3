-- ===== src/Tests/ParallelGroups.antt =====
-- The theorems of soma/parallel_groups.py at concrete tables.
use codex_bridge.Prelude.{
  ℕ, ◌≤◌, max, String, true, false, ◌&&◌, ◌≡◌, refl, ◌⊎◌, none, some, List, [], ◌∷◌, All, string_eq,
  nat_eq,
}
use codex_bridge.Prelude.Table.{find, Unique, count_where}
use codex_bridge.Prelude.Order.{select, sort_by}
use codex_bridge.Runs.RunId.{is_run_id}
use codex_bridge.Runs.Update.{is_empty}
use codex_bridge.Runs.Model.{
  launch_pending, running, completed, failed, Run, run_key, is_terminal, status_eq,
}
use codex_bridge.Runs.Writes.{is_careful, all_careful, Write, recover}
use codex_bridge.Groups.Tables.{
  pending, Group, Child, GroupTables, group_key, child_key, group_children, is_in_group,
}
use codex_bridge.Groups.Refresh.{statuses_of, is_finished}
use codex_bridge.Groups.Claim.{
  active_total, active_group, claim_pending, no_slots, free_slots, is_pending,
}
use codex_bridge.Groups.Limits.{claim_pending-limits}
use codex_bridge.Groups.Progress.{claim_pending-idle}
use codex_bridge.Groups.Starts.{IsLaunched, claim_pending-IsLaunched}
use codex_bridge.Groups.Final.{HasRun, after_refresh, after_writes, refresh_group-final}
use codex_bridge.Tests.Sample.{waiting, waiting_id, working_id}

abbrev group_id : String
group_id = "20260726T000000Z_powershell_group_0a1b2c3d"

-- A group of two children of which one may run at a time.
abbrev pair : Group
pair = record {
  group_id = group_id;
  repo_name = "bridge";
  status = launch_pending;
  mode = "all_at_once";
  failure_policy = "continue_all";
  repository_lock_policy = "none";
  requested_concurrency = some 1;
  created_at = "2026-07-26T00:00:00";
  ended_at = none;
  input = [];
  result = none;
}

abbrev left : Run
left = record waiting { status = pending }

abbrev right : Run
right = record waiting { run_id = working_id; status = pending }

abbrev left_child : Child
left_child = record {
  group_id = group_id;
  position = 0;
  run_id = waiting_id;
  idempotency_key = "left";
}

abbrev right_child : Child
right_child = record {
  group_id = group_id;
  position = 1;
  run_id = working_id;
  idempotency_key = "right";
}

abbrev tables_of : Run → Run → GroupTables
tables_of a b = record {
  db = record { runs = a ∷ b ∷ []; events = []; next_event_id = 1; locks = [] };
  groups = pair ∷ [];
  children = right_child ∷ left_child ∷ [];
}

abbrev both_wait : GroupTables
both_wait = tables_of left right

abbrev both_ended : GroupTables
both_ended =
    tables_of (record left { status = completed; ended_at = some "11:00" })
      (record right { status = failed; ended_at = some "11:05" })

abbrev RunsUnique : GroupTables → Type 0
RunsUnique tables = Unique run_key tables.db.runs

both_wait-runs : RunsUnique both_wait
unfolding find string_eq
both_wait-runs = (refl, (refl, tt))

both_wait-children : Unique child_key both_wait.children
unfolding find string_eq
both_wait-children = (refl, (refl, tt))

both_wait-groups : Unique group_key both_wait.groups
unfolding find
both_wait-groups = (refl, tt)

claim_pending-limits_example :
    let after = (claim_pending (some 4) "10:00" both_wait).runs in
    (active_total after both_wait.children
      ≤ max 4 (active_total both_wait.db.runs both_wait.children))
    × ((g : Group) (requested : ℕ)
        → find group_key g.group_id both_wait.groups ≡ some g
        → g.requested_concurrency ≡ some requested
        → active_group g.group_id after both_wait.children
          ≤ max requested (active_group g.group_id both_wait.db.runs both_wait.children))
claim_pending-limits_example =
    claim_pending-limits 4 "10:00" both_wait both_wait-runs both_wait-children both_wait-groups

-- One of the two is started, the first by position.
claim_pending_test : (claim_pending (some 4) "10:00" both_wait).claimed ≡ waiting_id ∷ []
unfolding claim_pending sort_by select count_where string_eq find
claim_pending_test = refl

claim_pending-IsLaunched_example :
    ((k : String) (r : Run)
      → find run_key k both_wait.db.runs ≡ some r
      → (r' : Run) × (find run_key k (claim_pending none "10:00" both_wait).runs ≡ some r')
        × IsLaunched "10:00" r r')
    × Unique run_key (claim_pending none "10:00" both_wait).runs
claim_pending-IsLaunched_example =
    claim_pending-IsLaunched none "10:00" both_wait both_wait-runs both_wait-children

-- While one child runs, the other waits.
abbrev one_works : GroupTables
one_works = tables_of (record left { status = running }) right

one_works-runs : RunsUnique one_works
unfolding find string_eq
one_works-runs = (refl, (refl, tt))

one_works-free :
    no_slots (free_slots (some 4) (active_total one_works.db.runs one_works.children)) ≡ false
unfolding no_slots free_slots active_total count_where find string_eq
one_works-free = refl

one_works-none : is_empty (claim_pending (some 4) "10:00" one_works).claimed ≡ true
unfolding is_empty claim_pending sort_by select count_where string_eq find
one_works-none = refl

claim_pending-idle_example :
    All
      (λ g.
        (no_slots (
            free_slots g.requested_concurrency
              (active_group g.group_id one_works.db.runs one_works.children))
          ≡ true)
        ⊎ (count_where
              (λ c. is_in_group g.group_id c && is_pending one_works.db.runs c)
              one_works.children
            ≡ 0))
      one_works.groups
claim_pending-idle_example =
    claim_pending-idle (some 4) "10:00" one_works one_works-runs both_wait-children one_works-free
      one_works-none

group_id-valid : is_run_id group_id ≡ true
unfolding is_run_id
group_id-valid = refl

pair-found : find group_key group_id both_ended.groups ≡ some pair
unfolding find string_eq
pair-found = refl

both_ended-has_runs : All (HasRun both_ended.db.runs) both_ended.children
unfolding find string_eq
both_ended-has_runs = ((_, refl), ((_, refl), tt))

both_ended-finished : is_finished (statuses_of (group_children group_id both_ended)) ≡ true
unfolding is_finished group_children sort_by select string_eq find count_where is_terminal status_eq
both_ended-finished = refl

-- A late recovery of one of the runs.
abbrev late : List Write
late = recover working_id "lost" none none none none none right ∷ []

late-careful : all_careful late ≡ true
unfolding all_careful is_careful
late-careful = refl

refresh_group-final_example :
    let seen = after_refresh group_id "11:10" both_ended in
    (g1 : Group) × (g2 : Group) × (find group_key group_id seen.groups ≡ some g1)
    × (find group_key group_id (after_refresh group_id "11:20" (after_writes late seen)).groups
        ≡ some g2)
    × (is_terminal g1.status ≡ true)
    × (g2.status ≡ g1.status)
refresh_group-final_example =
    refresh_group-final group_id "11:10" "11:20" late both_ended pair group_id-valid pair-found
      both_ended-has_runs both_ended-finished late-careful
