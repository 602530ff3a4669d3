-- ===== src/Groups/Within.antt =====
-- soma/parallel_groups.py: the turns of a claim, and the bound on all active children.
use codex_bridge.Prelude.{
  ℕ, ◌+◌, ◌-◌, ◌≤◌, String, Bool, true, false, Option, none, some, List, [], ◌∷◌, ◌≡◌, refl, ◌⊎◌,
  ◌∙◌, string_eq, nat_eq, if◌then◌else◌, arith, All, inl, inr, Bool-cases,
}
use codex_bridge.Prelude.Table.{find, count_where, Unique}
use codex_bridge.Runs.Model.{run_key}
use codex_bridge.Groups.Tables.{Group, Child, child_key}
use codex_bridge.Groups.Claim.{
  active_group, active_total, Claiming, claim_child, claim_children, one_less, free_slots,
  both_slots, candidates, claim_group, claim_groups, no_slots,
}
use codex_bridge.Groups.Slots.{active_of, active_of-started, claim_child-cases, started_rows-Unique}

module _ (now : String) (children : List Child) (one_run : Unique child_key children) where
  -- The child of a run, if it meets the test.
  abbrev hits : (Child → Bool) → String → ℕ
  hits p k = elim (find child_key k children) [ none ↦ 0 | some c ↦ if p c then 1 else 0 ]

  pub claim_child-Unique :
      (k : String) (st : Claiming)
      → Unique run_key st.runs
      → Unique run_key (claim_child now k st).runs
  claim_child-Unique k st u = elim (claim_child-cases now k st u) [
    | inl same ↦ rw same u
    | inr a ↦ rw a.0 (started_rows-Unique now k st.runs u)
  ]

  claim_child-active :
      (p : Child → Bool) (k : String) (st : Claiming)
      → Unique run_key st.runs
      → active_of p (claim_child now k st).runs children ≤ active_of p st.runs children + hits p k
  claim_child-active p k st u = elim (claim_child-cases now k st u) [
    | inl same ↦ rw same (omega arith)
    | inr a ↦ rw a.0 (active_of-started p now k st.runs children one_run)
  ]

  abbrev pub IsListed : Child → Type 0
  IsListed c = find child_key c.run_id children ≡ some c

  pub claim_children-Unique :
      (cs : List Child) (st : Claiming)
      → Unique run_key st.runs
      → Unique run_key (claim_children now cs st).runs
  unfolding claim_children
  claim_children-Unique [] st u = u
  claim_children-Unique (c ∷ cs) st u =
      let next = claim_child now c.run_id st in
      elim (Bool-cases (no_slots next.slots)) [
        | inl full ↦ rw full (claim_child-Unique c.run_id st u)
        | inr more ↦ rw more (claim_children-Unique cs next (claim_child-Unique c.run_id st u))
      ]

  -- No more children become active than there are candidates that meet the test.
  pub claim_children-active :
      (p : Child → Bool) (cs : List Child) (st : Claiming)
      → All IsListed cs
      → Unique run_key st.runs
      → active_of p (claim_children now cs st).runs children
        ≤ active_of p st.runs children + count_where p cs
  unfolding claim_children count_where
  claim_children-active p [] st listed u = omega arith
  claim_children-active p (c ∷ cs) st listed u =
      let next = claim_child now c.run_id st in
      let once = claim_child-active p c.run_id st u in
      elim (Bool-cases (no_slots next.slots)) [
        | inl full ↦ rw full (ground (arith, once, listed.0))
        | inr more ↦ rw more (
            ground (
              arith,
              once,
              listed.0,
              claim_children-active p cs next listed.1 (claim_child-Unique c.run_id st u),
            ))
      ]

  -- The active children and the free slots stay within a bound.
  abbrev Within : ℕ → Claiming → Type 0
  Within bound st = (n : ℕ) × (st.slots ≡ some n) × (active_total st.runs children + n ≤ bound)

  claim_child-Within :
      (bound : ℕ) (k : String) (st : Claiming)
      → Unique run_key st.runs
      → no_slots st.slots ≡ false
      → Within bound st
      → Within bound (claim_child now k st)
  unfolding active_total no_slots one_less nat_eq
  claim_child-Within bound k st u free (n, slots, fits) = elim (claim_child-cases now k st u) [
    | inl same ↦ rw same (n, slots, fits)
    | inr a ↦ (
      n - 1,
      a.1 ∙ rw slots refl,
      rw a.0 (
          ground (
            arith,
            free,
            slots,
            fits,
            active_of-started (λ c. true) now k st.runs children one_run,
          )),
    )
  ]

  claim_children-Within :
      (bound : ℕ) (cs : List Child) (st : Claiming)
      → Unique run_key st.runs
      → no_slots st.slots ≡ false
      → Within bound st
      → Within bound (claim_children now cs st)
  unfolding claim_children
  claim_children-Within bound [] st u free w = w
  claim_children-Within bound (c ∷ cs) st u free w =
      let next = claim_child now c.run_id st in
      let once = claim_child-Within bound c.run_id st u free w in
      elim (Bool-cases (no_slots next.slots)) [
        | inl full ↦ rw full once
        | inr more ↦
            rw more
              (claim_children-Within bound cs next (claim_child-Unique c.run_id st u) more once)
      ]

  abbrev pub slots_of : Group → Claiming → Option ℕ
  slots_of g st =
      both_slots (free_slots g.requested_concurrency (active_group g.group_id st.runs children))
        st.slots

  -- A turn of the outer loop is skipped, or starts the candidates of the group.
  pub claim_group-cases :
      (g : Group) (st : Claiming)
      → (claim_group now children g st ≡ st)
        ⊎ ((no_slots st.slots ≡ false)
            × (claim_group now children g st
                ≡ claim_children now (candidates g.group_id (slots_of g st) st.runs children) st))
  unfolding claim_group
  claim_group-cases g st = ground arith

  pub claim_group-Unique :
      (g : Group) (st : Claiming)
      → Unique run_key st.runs
      → Unique run_key (claim_group now children g st).runs
  claim_group-Unique g st u = elim (claim_group-cases g st) [
    | inl same ↦ rw same u
    | inr a ↦ rw a.1 (claim_children-Unique _ st u)
  ]

  claim_group-Within :
      (bound : ℕ) (g : Group) (st : Claiming)
      → Unique run_key st.runs
      → Within bound st
      → Within bound (claim_group now children g st)
  claim_group-Within bound g st u w = elim (claim_group-cases g st) [
    | inl same ↦ rw same w
    | inr a ↦ rw a.1 (claim_children-Within bound _ st u a.0 w)
  ]

  pub claim_groups-Within :
      (bound : ℕ) (gs : List Group) (st : Claiming)
      → Unique run_key st.runs
      → Within bound st
      → Within bound (claim_groups now children gs st)
  unfolding claim_groups
  claim_groups-Within bound [] st u w = w
  claim_groups-Within bound (g ∷ gs) st u w =
      claim_groups-Within bound gs (claim_group now children g st) (claim_group-Unique g st u)
        (claim_group-Within bound g st u w)
