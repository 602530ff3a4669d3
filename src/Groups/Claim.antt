-- ===== src/Groups/Claim.antt =====
-- soma/parallel_groups.py: `claim_pending_launches` starts waiting children as slots are free.
use codex_bridge.Prelude.{
  ℕ, ◌+◌, ◌-◌, String, Bool, false, Option, none, some, List, [], ◌∷◌, ◌++◌, ◌==◌, ◌&&◌, contains,
  string_eq, nat_eq, not, if◌then◌else◌, Action, Result, ok, raised, min, take,
}
use codex_bridge.Prelude.Table.{find, update_where, count_where, keyed}
use codex_bridge.Prelude.Order.{text_leb, select, sort_by}
use codex_bridge.Runs.Model.{
  Status, status_eq, launch_pending, queued, running, cancellation_pending, recovery_pending, Run,
  Database, run_key,
}
use codex_bridge.Runs.Update.{get_run}
use codex_bridge.Groups.Tables.{pending, Group, Child, GroupTables, is_in_group, is_before}

abbrev pub active_statuses : List Status
active_statuses = launch_pending ∷ queued ∷ running ∷ cancellation_pending ∷ recovery_pending ∷ []

-- The run of the child is there and its status meets the test.
unfoldable pub run_is : (Status → Bool) → List Run → Child → Bool
run_is p runs c = elim (find run_key c.run_id runs) [ none ↦ false | some r ↦ p r.status ]

unfoldable pub is_active : List Run → Child → Bool
unfolding run_is status_eq
is_active runs c = run_is (contains active_statuses) runs c

unfoldable pub is_pending : List Run → Child → Bool
unfolding run_is status_eq
is_pending runs c = run_is (λ s. s == pending) runs c

-- The two counts of the query, over all children and over those of a group.
unfoldable pub active_total : List Run → List Child → ℕ
unfolding is_active
active_total runs children = count_where (is_active runs) children

unfoldable pub active_group : String → List Run → List Child → ℕ
unfolding is_active
active_group group_id runs children =
    count_where (λ c. is_in_group group_id c && is_active runs c) children

-- The variables of the loop.
pub record Claiming : Type 0 where
  pub runs : List Run
  pub slots : Option ℕ
  pub claimed : List String

unfoldable pub is_waiting : Run → Bool
unfolding status_eq
is_waiting r = r.status == pending

unfoldable pub launch_started : String → Run → Run
launch_started now r = record r {
  status = launch_pending;
  current_phase = "launch_pending";
  heartbeat_at = some now;
  state_version = r.state_version + 1;
}

unfoldable pub one_less : Option ℕ → Option ℕ
one_less none = none
one_less (some k) = some (k - 1)

unfoldable pub no_slots : Option ℕ → Bool
unfolding nat_eq
no_slots none = false
no_slots (some k) = k == 0

-- One turn of the inner loop.
unfoldable pub claim_child : String → String → Claiming → Claiming
unfolding is_waiting launch_started one_less nat_eq
claim_child now run_id st =
    if count_where (keyed run_key run_id is_waiting) st.runs == 1
    then record {
      runs = update_where (keyed run_key run_id is_waiting) (launch_started now) st.runs;
      slots = one_less st.slots;
      claimed = st.claimed ++ (run_id ∷ []);
    }
    else record st {
      runs = update_where (keyed run_key run_id is_waiting) (launch_started now) st.runs;
    }

unfoldable pub claim_children : String → List Child → Claiming → Claiming
unfolding claim_child no_slots
claim_children now [] st = st
claim_children now (c ∷ cs) st =
    let next = claim_child now c.run_id st in
    let rest = claim_children now cs next in if no_slots next.slots then next else rest

-- `None if requested is None else max(0, requested - active)`
unfoldable pub free_slots : Option ℕ → ℕ → Option ℕ
free_slots none active = none
free_slots (some limit) active = some (limit - active)

-- The smaller of two limits, each of which may be absent.
unfoldable pub both_slots : Option ℕ → Option ℕ → Option ℕ
both_slots group none = group
both_slots none (some k) = some k
both_slots (some n) (some k) = some (min n k)

abbrev pub limited {ℓ} : {A : Type ℓ} → Option ℕ → List A → List A
limited none xs = xs
limited (some n) xs = take n xs

-- The pending children of a group, by position, up to the limit.
unfoldable pub candidates : String → Option ℕ → List Run → List Child → List Child
unfolding is_pending
candidates group_id slots runs children =
    limited slots
      (sort_by is_before (select (λ c. is_in_group group_id c && is_pending runs c) children))

-- One turn of the loop over the groups; a break leaves the rest of the turns without effect.
unfoldable pub claim_group : String → List Child → Group → Claiming → Claiming
unfolding no_slots free_slots both_slots active_group candidates claim_children
claim_group now children g st =
    let slots =
      both_slots (free_slots g.requested_concurrency (active_group g.group_id st.runs children))
        st.slots in
    if no_slots st.slots
    then st
    else if no_slots slots
    then st
    else claim_children now (candidates g.group_id slots st.runs children) st

unfoldable pub claim_groups : String → List Child → List Group → Claiming → Claiming
unfolding claim_group
claim_groups now children [] st = st
claim_groups now children (g ∷ gs) st = claim_groups now children gs (claim_group now children g st)

-- `ORDER BY created_at ASC, group_id ASC`
is_served_before : Group → Group → Bool
unfolding text_leb
is_served_before g h =
    if g.created_at == h.created_at
    then text_leb g.group_id h.group_id
    else text_leb g.created_at h.created_at

-- The groups with a pending child.
unfoldable pub waiting_groups : GroupTables → List Group
unfolding is_served_before is_pending nat_eq
waiting_groups tables = sort_by is_served_before (
    select
      (λ g. not (
        count_where (λ c. is_in_group g.group_id c && is_pending tables.db.runs c) tables.children
        == 0))
      tables.groups)

-- The variables before the loop.
unfoldable pub before_claims : Option ℕ → GroupTables → Claiming
unfolding free_slots active_total
before_claims limit tables = record {
  runs = tables.db.runs;
  slots = free_slots limit (active_total tables.db.runs tables.children);
  claimed = [];
}

-- The transaction, which no statement makes raise.
unfoldable pub claim_pending : Option ℕ → String → GroupTables → Claiming
unfolding claim_groups waiting_groups before_claims
claim_pending limit now tables =
    claim_groups now tables.children (waiting_groups tables) (before_claims limit tables)

unfoldable pub get_runs : List String → Database → Result (List Run)
unfolding get_run
get_runs [] db = ok []
get_runs (i ∷ rest) db = elim (get_run i db).0 [
  | raised e ↦ raised e
  | ok r ↦ elim (get_runs rest db) [ raised e ↦ raised e | ok more ↦ ok (r ∷ more) ]
]

-- `claim_pending_launches`
unfoldable pub claim_pending_launches : Option ℕ → String → Action GroupTables (List Run)
unfolding claim_pending get_runs
claim_pending_launches limit now tables =
    let done = claim_pending limit now tables in
    let after = record tables { db = record tables.db { runs = done.runs } } in
    (get_runs done.claimed after.db, after)
