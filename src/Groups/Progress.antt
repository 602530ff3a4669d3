-- ===== src/Groups/Progress.antt =====
-- soma/parallel_groups.py: a claim that starts nothing found nothing to start.
use codex_bridge.Prelude.{
  ℕ, zero, suc, String, Bool, true, false, Option, none, some, List, [], ◌∷◌, ◌==◌, ◌&&◌, ◌≡◌, refl,
  sym, ap, ◌⊎◌, ◌∙◌, inl, inr, string_eq, nat_eq, arith, All, Bool-cases, not,
}
use codex_bridge.Prelude.Table.{count_where, Unique}
use codex_bridge.Prelude.Order.{
  select, sort_by, insert_by, sort_by-All, All-map, All-select, of-select, of-sort_by,
}
use codex_bridge.Runs.Model.{Run, run_key}
use codex_bridge.Runs.Update.{is_empty}
use codex_bridge.Groups.Tables.{Group, Child, GroupTables, is_in_group, is_before, child_key}
use codex_bridge.Groups.Claim.{
  active_group, active_total, before_claims, candidates, claim_children, claim_group, claim_groups,
  claim_pending, Claiming, free_slots, both_slots, is_pending, limited, no_slots, waiting_groups,
}
use codex_bridge.Groups.Within.{claim_group-Unique, slots_of}
use codex_bridge.Groups.Limits.{limited-All}
use codex_bridge.Groups.Moving.{
  Moves, Moves-refl, Moves-trans, Moves-empty, claim_group-Moves, claim_children-head,
}

module _ (now : String) (children : List Child) (one_run : Unique child_key children) where
  -- What is left to start of a group.
  abbrev IsIdle : List Run → Group → Type 0
  IsIdle runs g =
      (no_slots (free_slots g.requested_concurrency (active_group g.group_id runs children)) ≡ true)
      ⊎ (count_where (λ c. is_in_group g.group_id c && is_pending runs c) children ≡ 0)

  free_both :
      (a b : Option ℕ) → no_slots a ≡ false → no_slots b ≡ false → no_slots (both_slots a b) ≡ false
  unfolding no_slots both_slots nat_eq
  free_both none none x y = refl
  free_both none (some k) x y = y
  free_both (some n) none x y = x
  free_both (some n) (some k) x y = ground arith

  inserted-not_empty : (c : Child) (cs : List Child) → is_empty (insert_by is_before c cs) ≡ false
  unfolding insert_by is_empty
  inserted-not_empty c [] = refl
  inserted-not_empty c (d ∷ cs) = ground arith

  sorted-empty : (cs : List Child) → is_empty (sort_by is_before cs) ≡ true → is_empty cs ≡ true
  unfolding sort_by is_empty
  sorted-empty [] h = refl
  sorted-empty (c ∷ cs) h = cc (h, inserted-not_empty c (sort_by is_before cs))

  limited-empty :
      (slots : Option ℕ) (cs : List Child)
      → no_slots slots ≡ false
      → is_empty (limited slots cs) ≡ true
      → is_empty cs ≡ true
  unfolding is_empty no_slots nat_eq
  limited-empty none cs free h = h
  limited-empty (some zero) cs free h = ground (arith, free)
  limited-empty (some (suc n)) [] free h = refl
  limited-empty (some (suc n)) (c ∷ cs) free h = cc

  count-select :
      (p : Child → Bool) (cs : List Child) → is_empty (select p cs) ≡ true → count_where p cs ≡ 0
  unfolding is_empty select count_where
  count-select p [] h = refl
  count-select p (c ∷ cs) h = ground (arith, h, count-select p cs)

  candidates-empty :
      (i : String) (slots : Option ℕ) (runs : List Run)
      → no_slots slots ≡ false
      → is_empty (candidates i slots runs children) ≡ true
      → count_where (λ c. is_in_group i c && is_pending runs c) children ≡ 0
  unfolding candidates
  candidates-empty i slots runs free h =
      count-select (λ c. is_in_group i c && is_pending runs c) children
        (sorted-empty _ (limited-empty slots _ free h))

  candidates-pending :
      (i : String) (slots : Option ℕ) (runs : List Run)
      → All (λ c. is_pending runs c ≡ true) (candidates i slots runs children)
  unfolding candidates
  candidates-pending i slots runs =
      let wanted = λ (c : Child). is_in_group i c && is_pending runs c in
      let P = λ (c : Child). is_pending runs c ≡ true in
      limited-All P slots _ (
        sort_by-All P is_before (select wanted children) (
          All-map (λ c h. ground (arith, h)) (select wanted children) (All-select wanted children)))

  -- A list of pending candidates of which none is started is empty.
  started-none :
      (cs : List Child) (st : Claiming)
      → Unique run_key st.runs
      → All (λ c. is_pending st.runs c ≡ true) cs
      → is_empty (claim_children now cs st).claimed ≡ true
      → is_empty cs ≡ true
  unfolding is_empty
  started-none [] st u waits h = refl
  started-none (c ∷ cs) st u waits h =
      cc (h, claim_children-head now children one_run c cs st u waits.0)

  claim_group-IsIdle :
      (g : Group) (st : Claiming)
      → Unique run_key st.runs
      → no_slots st.slots ≡ false
      → is_empty (claim_group now children g st).claimed ≡ true
      → IsIdle st.runs g
  unfolding claim_group
  claim_group-IsIdle g st u free h =
      let own = free_slots g.requested_concurrency (active_group g.group_id st.runs children) in
      elim (Bool-cases (no_slots own)) [
        | inl full ↦ inl full
        | inr open_slots ↦
            let slots = slots_of now children one_run g st in
            let found = candidates g.group_id slots st.runs children in
            let both = free_both own st.slots open_slots free in
            inr (
              candidates-empty g.group_id slots st.runs both (
                started-none found st u (candidates-pending g.group_id slots st.runs)
                  (ground (arith, h, free, both))))
      ]

  claim_groups-Moves :
      (gs : List Group) (st : Claiming)
      → Unique run_key st.runs
      → Moves st (claim_groups now children gs st)
  unfolding claim_groups
  claim_groups-Moves [] st u = Moves-refl st
  claim_groups-Moves (g ∷ gs) st u =
      let next = claim_group now children g st in
      Moves-trans st next (claim_groups now children gs next)
        (claim_group-Moves now children one_run g st u)
        (claim_groups-Moves gs next (claim_group-Unique now children one_run g st u))

  claim_groups-IsIdle :
      (gs : List Group) (st : Claiming)
      → Unique run_key st.runs
      → no_slots st.slots ≡ false
      → is_empty (claim_groups now children gs st).claimed ≡ true
      → All (IsIdle st.runs) gs
  unfolding claim_groups
  claim_groups-IsIdle [] st u free h = tt
  claim_groups-IsIdle (g ∷ gs) st u free h =
      let next = claim_group now children g st in
      let v = claim_group-Unique now children one_run g st u in
      elim (claim_group-Moves now children one_run g st u).1 [
        | inr started ↦ cc (h, (claim_groups-Moves gs next v).0 started)
        | inl same ↦
            let rest : is_empty (claim_groups now children gs st).claimed ≡ true =
              ap (λ x. is_empty (claim_groups now children gs x).claimed) (sym same) ∙ h in
            (
              claim_group-IsIdle g st u free (
                  ap (λ x. is_empty x.claimed) same
                  ∙ Moves-empty st _ (claim_groups-Moves gs st u) rest),
              claim_groups-IsIdle gs st u free rest,
            )
      ]

idle_of : {A : Type 0} (k : ℕ) → (not (k == 0) ≡ true → A ⊎ (k ≡ 0)) → A ⊎ (k ≡ 0)
unfolding nat_eq
idle_of zero f = inr refl
idle_of (suc k) f = f (ground arith)

-- With unique runs and one child per run, a call that has a free slot and starts nothing found
-- nothing to start: every group has reached its own limit, or has no pending child.
pub claim_pending-idle :
    (limit : Option ℕ) (now : String) (tables : GroupTables)
    → Unique run_key tables.db.runs
    → Unique child_key tables.children
    → no_slots (free_slots limit (active_total tables.db.runs tables.children)) ≡ false
    → is_empty (claim_pending limit now tables).claimed ≡ true
    → All
        (λ g.
          (no_slots (
              free_slots g.requested_concurrency
                (active_group g.group_id tables.db.runs tables.children))
            ≡ true)
          ⊎ (count_where
                (λ c. is_in_group g.group_id c && is_pending tables.db.runs c)
                tables.children
              ≡ 0))
        tables.groups
unfolding claim_pending waiting_groups before_claims nat_eq
claim_pending-idle limit now tables runs children free h =
    let P = IsIdle now tables.children children tables.db.runs in
    All-map (λ g idle. idle_of _ idle) tables.groups
      (of-select P _ tables.groups (
        of-sort_by P _ _ (
          claim_groups-IsIdle now tables.children children (waiting_groups tables)
            (before_claims limit tables) runs free h)))
