-- ===== src/Groups/Limits.antt =====
-- soma/parallel_groups.py: a claim keeps the limit on all active children, and that of each group.
use codex_bridge.Prelude.{
  ℕ, zero, suc, ◌+◌, ◌-◌, ◌≤◌, max, min, String, true, false, Option, none, some, List, [], ◌∷◌,
  ◌==◌, ◌&&◌, ◌≡◌, refl, sym, string_eq, nat_eq, arith, length, take, All, inl, inr,
}
use codex_bridge.Prelude.Table.{find, count_where, Unique}
use codex_bridge.Prelude.Order.{
  select, select-All, sort_by-All, take-All, All-map, All-both, All-select, count_where-length,
  count_where-none, Unique-found,
}
use codex_bridge.Runs.Model.{Run, run_key}
use codex_bridge.Groups.Tables.{
  Group, Child, GroupTables, child_key, group_key, is_in_group, is_before,
}
use codex_bridge.Groups.Claim.{
  before_claims, is_pending, active_group, active_total, Claiming, claim_children, free_slots,
  both_slots, candidates, claim_group, claim_groups, claim_pending, limited, waiting_groups,
}
use codex_bridge.Groups.Within.{
  IsListed, claim_children-active, slots_of, claim_group-cases, claim_group-Unique,
  claim_groups-Within,
}

pub limited-All {ℓ κ} :
    {R : Type ℓ} (P : R → Type κ) (limit : Option ℕ) (rs : List R)
    → All P rs
    → All P (limited limit rs)
limited-All P none rs a = a
limited-All P (some n) rs a = take-All P n rs a

length-take_le {ℓ} : {A : Type ℓ} (n : ℕ) (xs : List A) → length (take n xs) ≤ n
length-take_le zero xs = omega arith
length-take_le (suc n) [] = omega arith
length-take_le (suc n) (x ∷ xs) = omega (arith, length-take_le n xs)

module _ (now : String) (children : List Child) (one_run : Unique child_key children) where
  -- The candidates of a group are children of the group, listed, and no more than its free slots.
  candidates-IsListed :
      (i : String) (slots : Option ℕ) (runs : List Run)
      → All
          (λ c. (IsListed now children one_run) c × (is_in_group i c ≡ true))
          (candidates i slots runs children)
  unfolding candidates
  candidates-IsListed i slots runs =
      let wanted = λ (c : Child). is_in_group i c && is_pending runs c in
      let P = λ (c : Child). (IsListed now children one_run) c × (is_in_group i c ≡ true) in
      limited-All P slots _ (
        sort_by-All P is_before (select wanted children) (
          All-both (IsListed now children one_run) (λ c. is_in_group i c ≡ true)
            (select wanted children)
            (select-All (IsListed now children one_run) wanted children
              (Unique-found child_key children one_run))
            (All-map (λ c h. ground (arith, h)) (select wanted children)
              (All-select wanted children))))

  length-candidates :
      (i : String) (n : ℕ) (runs : List Run) → length (candidates i (some n) runs children) ≤ n
  unfolding candidates
  length-candidates i n runs = length-take_le n _

  -- What a turn for one group does to the active children of a group.
  count-other :
      (h i : String) (slots : Option ℕ) (runs : List Run)
      → (i == h) ≡ false
      → count_where (is_in_group h) (candidates i slots runs children) ≡ 0
  count-other h i slots runs other =
      count_where-none (is_in_group h) (candidates i slots runs children) (
        All-map (λ c a. ground (arith, a.1)) (candidates i slots runs children)
          (candidates-IsListed i slots runs))

  candidates-active :
      (h : String) (g : Group) (st : Claiming)
      → Unique run_key st.runs
      → let found = candidates g.group_id (slots_of now children one_run g st) st.runs children in
        active_group h (claim_children now found st).runs children
        ≤ active_group h st.runs children + count_where (is_in_group h) found
  unfolding active_group
  candidates-active h g st u =
      let found = candidates g.group_id (slots_of now children one_run g st) st.runs children in
      claim_children-active now children one_run (is_in_group h) found st
        (All-map (λ c a. a.0) found
          (candidates-IsListed g.group_id (slots_of now children one_run g st) st.runs))
        u

  both_slots-le :
      (n : ℕ) (slots : Option ℕ) → (m : ℕ) × (both_slots (some n) slots ≡ some m) × (m ≤ n)
  unfolding both_slots
  both_slots-le n none = (n, refl, omega arith)
  both_slots-le n (some k) = (min n k, refl, omega arith)

  -- The candidates of a group with a limit fill it up at most.
  count-own :
      (limit : ℕ) (g : Group) (st : Claiming)
      → g.requested_concurrency ≡ some limit
      → count_where
          (is_in_group g.group_id)
          (candidates g.group_id (slots_of now children one_run g st) st.runs children)
        ≤ limit - active_group g.group_id st.runs children
  unfolding free_slots
  count-own limit g st asks =
      let (m, slots, small) =
        both_slots-le (limit - active_group g.group_id st.runs children) st.slots in
      rw (asks, slots)
        (omega (
          arith,
          small,
          length-candidates g.group_id m st.runs,
          count_where-length (is_in_group g.group_id)
              (candidates g.group_id (some m) st.runs children),
        ))

  claim_group-limit :
      (bound limit : ℕ) (h : String) (g : Group) (st : Claiming)
      → Unique run_key st.runs
      → limit ≤ bound
      → (g.group_id ≡ h → g.requested_concurrency ≡ some limit)
      → active_group h st.runs children ≤ bound
      → active_group h (claim_group now children g st).runs children ≤ bound
  claim_group-limit bound limit h g st u small same w =
      elim (claim_group-cases now children one_run g st) [
        | inl skipped ↦ rw skipped w
        | inr a ↦ rw a.1 (elim (string_eq.dec g.group_id h) [
          | yes own ↦
              let found =
                candidates g.group_id (slots_of now children one_run g st) st.runs children in
              let mine : count_where (is_in_group h) found
                  ≤ limit - active_group h st.runs children =
                rw (sym own) (count-own limit g st (same own)) in
              omega (arith, small, w, candidates-active h g st u, mine)
          | no other ↦ omega (
            arith,
            w,
            candidates-active h g st u,
            count-other h g.group_id (slots_of now children one_run g st) st.runs
                (ground (arith, other)),
          )
        ])
      ]

  claim_groups-limit :
      (bound limit : ℕ) (h : String) (gs : List Group) (st : Claiming)
      → Unique run_key st.runs
      → limit ≤ bound
      → All (λ g. g.group_id ≡ h → g.requested_concurrency ≡ some limit) gs
      → active_group h st.runs children ≤ bound
      → active_group h (claim_groups now children gs st).runs children ≤ bound
  unfolding claim_groups
  claim_groups-limit bound limit h [] st u small same w = w
  claim_groups-limit bound limit h (g ∷ gs) st u small same w =
      claim_groups-limit bound limit h gs (claim_group now children g st)
        (claim_group-Unique now children one_run g st u) small same.1
        (claim_group-limit bound limit h g st u small same.0 w)

claim_pending-total :
    (limit : ℕ) (now : String) (tables : GroupTables)
    → Unique run_key tables.db.runs
    → Unique child_key tables.children
    → active_total (claim_pending (some limit) now tables).runs tables.children
      ≤ max limit (active_total tables.db.runs tables.children)
unfolding claim_pending before_claims free_slots
claim_pending-total limit now tables runs children =
    let (n, slots, fits) =
      claim_groups-Within now tables.children children
        (max limit (active_total tables.db.runs tables.children)) (waiting_groups tables)
        (before_claims (some limit) tables) runs
        (limit - active_total tables.db.runs tables.children, refl, omega arith) in
    omega (arith, fits)

same_limit :
    (tables : GroupTables) (g : Group) (requested : ℕ)
    → Unique group_key tables.groups
    → find group_key g.group_id tables.groups ≡ some g
    → g.requested_concurrency ≡ some requested
    → All
        (λ h. h.group_id ≡ g.group_id → h.requested_concurrency ≡ some requested)
        (waiting_groups tables)
unfolding waiting_groups
same_limit tables g requested groups found asks =
    let P = λ (h : Group). h.group_id ≡ g.group_id → h.requested_concurrency ≡ some requested in
    sort_by-All P _ _ (
      select-All P _ tables.groups (
        All-map (λ h a same. ground (arith, a, same, found, asks)) tables.groups
          (Unique-found group_key tables.groups groups)))

claim_pending-group :
    (limit : Option ℕ) (now : String) (tables : GroupTables) (g : Group) (requested : ℕ)
    → Unique run_key tables.db.runs
    → Unique child_key tables.children
    → Unique group_key tables.groups
    → find group_key g.group_id tables.groups ≡ some g
    → g.requested_concurrency ≡ some requested
    → active_group g.group_id (claim_pending limit now tables).runs tables.children
      ≤ max requested (active_group g.group_id tables.db.runs tables.children)
unfolding claim_pending before_claims
claim_pending-group limit now tables g requested runs children groups found asks =
    claim_groups-limit now tables.children children
      (max requested (active_group g.group_id tables.db.runs tables.children)) requested g.group_id
      (waiting_groups tables) (before_claims limit tables) runs (omega arith)
      (same_limit tables g requested groups found asks) (omega arith)

-- With unique runs and groups, and one child per run, a call that has a limit leaves no more
-- active children than the limit, or than there were before it; and in every group that has a
-- limit of its own no more than that, or than there were before.
pub claim_pending-limits :
    (limit : ℕ) (now : String) (tables : GroupTables)
    → Unique run_key tables.db.runs
    → Unique child_key tables.children
    → Unique group_key tables.groups
    → let after = (claim_pending (some limit) now tables).runs in
      (active_total after tables.children ≤ max limit (active_total tables.db.runs tables.children))
      × ((g : Group) (requested : ℕ)
          → find group_key g.group_id tables.groups ≡ some g
          → g.requested_concurrency ≡ some requested
          → active_group g.group_id after tables.children
            ≤ max requested (active_group g.group_id tables.db.runs tables.children))
claim_pending-limits limit now tables runs children groups = (
  claim_pending-total limit now tables runs children,
  λ g requested. claim_pending-group (some limit) now tables g requested runs children groups,
)
