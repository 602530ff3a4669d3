-- ===== src/Groups/Starts.antt =====
-- soma/parallel_groups.py: what a claim does to the runs.
use codex_bridge.Prelude.{
  ℕ, ◌+◌, String, true, false, Option, some, List, [], ◌∷◌, ◌≡◌, refl, sym, ap, ◌∙◌, ◌⊎◌, inl, inr,
  string_eq, nat_eq, arith, Bool-cases,
}
use codex_bridge.Prelude.Table.{find, keyed, Unique, find-update}
use codex_bridge.Runs.Untouched.{identity, held_lease}
use codex_bridge.Runs.Model.{launch_pending, Run, run_key, status_eq}
use codex_bridge.Groups.Tables.{Group, Child, GroupTables, child_key}
use codex_bridge.Groups.Claim.{
  Claiming, claim_child, claim_children, claim_group, claim_groups, claim_pending, before_claims,
  is_waiting, launch_started, no_slots, waiting_groups,
}
use codex_bridge.Groups.Slots.{claim_child-cases, run_id-launch_started, started_rows}
use codex_bridge.Groups.Within.{claim_child-Unique, claim_group-cases, claim_group-Unique}

-- The run is as it was, or it was pending and is launched.
abbrev IsStarted : String → Run → Run → Type 0
IsStarted now r r' = (r' ≡ r) ⊎ ((is_waiting r ≡ true) × (r' ≡ launch_started now r))

abbrev AllStarted : String → List Run → List Run → Type 0
AllStarted now runs runs' =
    (k : String) (r : Run)
    → find run_key k runs ≡ some r
    → (r' : Run) × (find run_key k runs' ≡ some r') × IsStarted now r r'

not_waiting : (now : String) (r : Run) → is_waiting (launch_started now r) ≡ false
unfolding is_waiting launch_started status_eq
not_waiting now r = refl

AllStarted-refl : (now : String) (runs : List Run) → AllStarted now runs runs
AllStarted-refl now runs k r h = (r, h, inl refl)

-- A launched run is not launched again.
AllStarted-trans :
    (now : String) (a b c : List Run) → AllStarted now a b → AllStarted now b c → AllStarted now a c
AllStarted-trans now a b c f g k r h =
    let (r', h', x) = f k r h in
    let (r'', h'', y) = g k r' h' in
    (
      r'',
      h'',
      elim y [
        | inl same ↦ elim x [
          | inl kept ↦ inl (same ∙ kept)
          | inr started ↦ inr (started.0, same ∙ started.1)
        ]
        | inr again ↦ elim x [
          | inl kept ↦
              inr (ap is_waiting (sym kept) ∙ again.0, again.1 ∙ ap (launch_started now) kept)
          | inr started ↦ absurd (cc (again.0, ap is_waiting started.1, not_waiting now r))
        ]
      ],
    )

started_rows-AllStarted :
    (now k : String) (runs : List Run) → AllStarted now runs (started_rows now k runs)
started_rows-AllStarted now k runs j r h = elim (Bool-cases (keyed run_key k is_waiting r)) [
  | inl meets ↦ (
    launch_started now r,
    find-update run_key k is_waiting (launch_started now) (run_id-launch_started now) j runs
        ∙ ground (arith, h, meets),
    inr (ground (arith, meets), refl),
  )
  | inr misses ↦ (
    r,
    find-update run_key k is_waiting (launch_started now) (run_id-launch_started now) j runs
        ∙ ground (arith, h, misses),
    inl refl,
  )
]

module _ (now : String) (children : List Child) (one_run : Unique child_key children) where
  claim_child-AllStarted :
      (k : String) (st : Claiming)
      → Unique run_key st.runs
      → AllStarted now st.runs (claim_child now k st).runs
  claim_child-AllStarted k st u = elim (claim_child-cases now k st u) [
    | inl same ↦ rw same (AllStarted-refl now st.runs)
    | inr a ↦ rw a.0 (started_rows-AllStarted now k st.runs)
  ]

  claim_children-AllStarted :
      (cs : List Child) (st : Claiming)
      → Unique run_key st.runs
      → AllStarted now st.runs (claim_children now cs st).runs
  unfolding claim_children
  claim_children-AllStarted [] st u = AllStarted-refl now st.runs
  claim_children-AllStarted (c ∷ cs) st u =
      let next = claim_child now c.run_id st in
      let once = claim_child-AllStarted c.run_id st u in
      elim (Bool-cases (no_slots next.slots)) [
        | inl full ↦ rw full once
        | inr more ↦ rw more (
            AllStarted-trans now st.runs next.runs (claim_children now cs next).runs once (
              claim_children-AllStarted cs next
                (claim_child-Unique now children one_run c.run_id st u)))
      ]

  claim_groups-AllStarted :
      (gs : List Group) (st : Claiming)
      → Unique run_key st.runs
      → AllStarted now st.runs (claim_groups now children gs st).runs
        × Unique run_key (claim_groups now children gs st).runs
  unfolding claim_groups
  claim_groups-AllStarted [] st u = (AllStarted-refl now st.runs, u)
  claim_groups-AllStarted (g ∷ gs) st u =
      let next = claim_group now children g st in
      let once : AllStarted now st.runs next.runs =
        elim (claim_group-cases now children one_run g st) [
          | inl same ↦ rw same (AllStarted-refl now st.runs)
          | inr a ↦ rw a.1 (claim_children-AllStarted _ st u)
        ] in
      let (rest, v) =
        claim_groups-AllStarted gs next (claim_group-Unique now children one_run g st u) in
      (AllStarted-trans now st.runs next.runs (claim_groups now children gs next).runs once rest, v)

-- The run is as it was, or it was pending and waits to be launched, at the next version.
abbrev pub IsLaunched : String → Run → Run → Type 0
IsLaunched now r r' =
    (r' ≡ r)
    ⊎ ((is_waiting r ≡ true)
        × (r'.status ≡ launch_pending)
        × (r'.state_version ≡ r.state_version + 1)
        × (r'.current_phase ≡ "launch_pending")
        × (r'.heartbeat_at ≡ some now)
        × (identity r' ≡ identity r)
        × (held_lease r' ≡ held_lease r))

IsStarted-IsLaunched : (now : String) (r r' : Run) → IsStarted now r r' → IsLaunched now r r'
unfolding launch_started
IsStarted-IsLaunched now r r' (inl same) = inl same
IsStarted-IsLaunched now r r' (inr (waits, e)) = inr (
  waits,
  ap (λ x. x.status) e,
  ap (λ x. x.state_version) e,
  ap (λ x. x.current_phase) e,
  ap (λ x. x.heartbeat_at) e,
  ap identity e,
  ap held_lease e,
)

-- With unique runs and one child per run, a call loses no run: every run is as it was, or it was
-- pending and now waits to be launched, with the version exactly one higher, the heartbeat of the
-- call, and the identity and the lease that it had; and the runs stay unique.
pub claim_pending-IsLaunched :
    (limit : Option ℕ) (now : String) (tables : GroupTables)
    → Unique run_key tables.db.runs
    → Unique child_key tables.children
    → ((k : String) (r : Run)
        → find run_key k tables.db.runs ≡ some r
        → (r' : Run) × (find run_key k (claim_pending limit now tables).runs ≡ some r')
          × IsLaunched now r r')
      × Unique run_key (claim_pending limit now tables).runs
unfolding claim_pending before_claims
claim_pending-IsLaunched limit now tables runs children =
    let (started, unique) =
      claim_groups-AllStarted now tables.children children (waiting_groups tables)
        (before_claims limit tables) runs in
    (
      (λ k r h. let (r', found, e) = started k r h in (r', found, IsStarted-IsLaunched now r r' e)),
      unique,
    )
