-- ===== src/Groups/Slots.antt =====
-- soma/parallel_groups.py: how many active children a claim may add.
use codex_bridge.Prelude.{
  ℕ, ◌+◌, ◌≤◌, String, Bool, false, none, some, List, [], ◌∷◌, ◌++◌, ◌==◌, ◌&&◌, ◌≡◌, ◌≢◌, ap, refl,
  ◌⊎◌, string_eq, nat_eq, if◌then◌else◌, arith, inl, inr, Bool-cases, contains,
}
use codex_bridge.Prelude.Table.{
  find, update_where, count_where, keyed, Unique, find-update_other, count-find,
  update_where_of_count, update-Unique,
}
use codex_bridge.Runs.Model.{status_eq, Run, run_key}
use codex_bridge.Groups.Tables.{Child, child_key}
use codex_bridge.Groups.Claim.{
  active_statuses, run_is, is_active, Claiming, is_waiting, launch_started, claim_child, one_less,
}

pub run_id-launch_started : (now : String) (r : Run) → run_key (launch_started now r) ≡ run_key r
unfolding launch_started
run_id-launch_started now r = refl

-- The rows after the update for one child.
abbrev pub started_rows : String → String → List Run → List Run
started_rows now run_id runs =
    update_where (keyed run_key run_id is_waiting) (launch_started now) runs

-- A child of another run is as active as before.
is_active-other :
    (now k : String) (runs : List Run) (c : Child)
    → c.run_id ≢ k
    → is_active (started_rows now k runs) c ≡ is_active runs c
unfolding is_active run_is
is_active-other now k runs c other =
    ap (λ o. elim o [ none ↦ false | some r ↦ contains active_statuses r.status ])
      (find-update_other run_key k is_waiting (launch_started now) (run_id-launch_started now)
        c.run_id runs other)

-- The children that satisfy a test and are active.
abbrev pub active_of : (Child → Bool) → List Run → List Child → ℕ
active_of p runs children = count_where (λ c. p c && is_active runs c) children

module _ (p : Child → Bool) (now k : String) (runs : List Run) where
  active_of-absent :
      (cs : List Child)
      → find child_key k cs ≡ none
      → active_of p (started_rows now k runs) cs ≡ active_of p runs cs
  unfolding find count_where
  active_of-absent [] h = refl
  active_of-absent (c ∷ cs) h = ground (arith, is_active-other now k runs c, active_of-absent cs)

  -- With one child per run, the update adds at most the child that is found, if it meets the test.
  pub active_of-started :
      (cs : List Child)
      → Unique child_key cs
      → active_of p (started_rows now k runs) cs
        ≤ active_of p runs cs
          + (elim (find child_key k cs) [ none ↦ 0 | some c ↦ if p c then 1 else 0 ])
  unfolding find count_where
  active_of-started [] u = omega arith
  active_of-started (c ∷ cs) u =
      ground (arith, is_active-other now k runs c, active_of-started cs, active_of-absent cs)

idle_rows :
    (now k : String) (runs : List Run)
    → Unique run_key runs
    → (count_where (keyed run_key k is_waiting) runs == 1) ≡ false
    → started_rows now k runs ≡ runs
unfolding nat_eq
idle_rows now k runs u h =
    update_where_of_count (keyed run_key k is_waiting) (launch_started now) runs
      (ground (arith, count-find run_key k is_waiting runs u, h))

pub started_rows-Unique :
    (now k : String) (runs : List Run)
    → Unique run_key runs
    → Unique run_key (started_rows now k runs)
started_rows-Unique now k runs u =
    update-Unique run_key k is_waiting (launch_started now) (run_id-launch_started now) runs u

-- One turn of the inner loop with unique runs: it starts the run, or nothing changes.
pub claim_child-cases :
    (now k : String) (st : Claiming)
    → Unique run_key st.runs
    → (claim_child now k st ≡ st)
      ⊎ (((claim_child now k st).runs ≡ started_rows now k st.runs)
          × ((claim_child now k st).slots ≡ one_less st.slots)
          × ((claim_child now k st).claimed ≡ st.claimed ++ (k ∷ [])))
unfolding claim_child nat_eq
claim_child-cases now k st u =
    elim (Bool-cases (count_where (keyed run_key k is_waiting) st.runs == 1)) [
      | inl one ↦ inr (ground (arith, one), ground (arith, one), ground (arith, one))
      | inr not_one ↦ inl (ground (arith, not_one, idle_rows now k st.runs u))
    ]
