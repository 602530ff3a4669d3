-- ===== src/Groups/Moving.antt =====
-- soma/parallel_groups.py: a turn of the claim starts something, or it changes nothing.
use codex_bridge.Prelude.{
  String, true, false, none, some, List, [], ◌∷◌, ◌++◌, ◌≡◌, refl, sym, ap, ◌⊎◌, ◌∙◌, inl, inr,
  string_eq, nat_eq, arith, Bool-cases, Option-cases,
}
use codex_bridge.Prelude.Table.{find, Unique, count-find}
use codex_bridge.Runs.Model.{Run, run_key}
use codex_bridge.Runs.Update.{is_empty}
use codex_bridge.Groups.Tables.{Group, Child, child_key}
use codex_bridge.Groups.Claim.{
  claim_child, claim_children, claim_group, Claiming, is_pending, is_waiting, no_slots, run_is,
}
use codex_bridge.Groups.Slots.{claim_child-cases}
use codex_bridge.Groups.Within.{claim_group-cases, claim_child-Unique}

-- A turn starts something, or it changes nothing.
abbrev pub Moves : Claiming → Claiming → Type 0
Moves st st' =
    (is_empty st.claimed ≡ false → is_empty st'.claimed ≡ false)
    × ((st' ≡ st) ⊎ (is_empty st'.claimed ≡ false))

pub Moves-refl : (st : Claiming) → Moves st st
Moves-refl st = (λ h. h, inl refl)

pub Moves-trans : (a b c : Claiming) → Moves a b → Moves b c → Moves a c
Moves-trans a b c f g = (
  λ h. g.0 (f.0 h),
  elim g.1 [
    | inr done ↦ inr done
    | inl same ↦ elim f.1 [ inl kept ↦ inl (same ∙ kept) | inr done ↦ inr (g.0 done) ]
  ],
)

pub Moves-empty :
    (a b : Claiming) → Moves a b → is_empty b.claimed ≡ true → is_empty a.claimed ≡ true
Moves-empty a b m h = elim (Bool-cases (is_empty a.claimed)) [
  | inl empty ↦ empty
  | inr started ↦ cc (h, m.0 started)
]

not_empty-snoc {ℓ} : {A : Type ℓ} (xs : List A) (x : A) → is_empty (xs ++ (x ∷ [])) ≡ false
unfolding is_empty
not_empty-snoc [] x = refl
not_empty-snoc (y ∷ ys) x = refl

module _ (now : String) where
  pub claim_child-Moves :
      (k : String) (st : Claiming) → Unique run_key st.runs → Moves st (claim_child now k st)
  claim_child-Moves k st u = elim (claim_child-cases now k st u) [
    | inl same ↦ rw same (Moves-refl st)
    | inr a ↦ (λ h. ground (arith, a.2, more), inr (ground (arith, a.2, more)))
  ]
    where
      more : is_empty (st.claimed ++ (k ∷ [])) ≡ false
      more = not_empty-snoc st.claimed k

  claim_child-pending :
      (k : String) (st : Claiming) (r : Run)
      → Unique run_key st.runs
      → find run_key k st.runs ≡ some r
      → is_waiting r ≡ true
      → is_empty (claim_child now k st).claimed ≡ false
  unfolding claim_child nat_eq
  claim_child-pending k st r u found waits =
      ground (
        arith,
        not_empty-snoc st.claimed k,
        count-find run_key k is_waiting st.runs u,
        found,
        waits,
      )

  waiting_of :
      (runs : List Run) (c : Child) (r : Run)
      → find run_key c.run_id runs ≡ some r
      → is_pending runs c ≡ true
      → is_waiting r ≡ true
  unfolding is_pending run_is is_waiting
  waiting_of runs c r found waits =
      sym (ap (λ o. elim o [ none ↦ false | some x ↦ is_waiting x ]) found) ∙ waits

  not_pending :
      (runs : List Run) (c : Child)
      → find run_key c.run_id runs ≡ none
      → ¬ (is_pending runs c ≡ true)
  unfolding is_pending run_is
  not_pending runs c gone waits = ground (arith, gone, waits)

module _ (now : String) (children : List Child) (one_run : Unique child_key children) where
  pub claim_children-Moves :
      (cs : List Child) (st : Claiming)
      → Unique run_key st.runs
      → Moves st (claim_children now cs st)
  unfolding claim_children
  claim_children-Moves [] st u = Moves-refl st
  claim_children-Moves (c ∷ cs) st u =
      let next = claim_child now c.run_id st in
      elim (Bool-cases (no_slots next.slots)) [
        | inl full ↦ rw full (claim_child-Moves now c.run_id st u)
        | inr more ↦ rw more (
            Moves-trans st next (claim_children now cs next) (claim_child-Moves now c.run_id st u) (
              claim_children-Moves cs next (claim_child-Unique now children one_run c.run_id st u)))
      ]

  pub claim_group-Moves :
      (g : Group) (st : Claiming)
      → Unique run_key st.runs
      → Moves st (claim_group now children g st)
  claim_group-Moves g st u = elim (claim_group-cases now children one_run g st) [
    | inl same ↦ rw same (Moves-refl st)
    | inr a ↦ rw a.1 (claim_children-Moves _ st u)
  ]

  -- The first candidate is started.
  pub claim_children-head :
      (c : Child) (cs : List Child) (st : Claiming)
      → Unique run_key st.runs
      → is_pending st.runs c ≡ true
      → is_empty (claim_children now (c ∷ cs) st).claimed ≡ false
  unfolding claim_children
  claim_children-head c cs st u waits = elim (Option-cases (find run_key c.run_id st.runs)) [
    | inl gone ↦ absurd (not_pending now st.runs c gone waits)
    | inr a ↦
        let next = claim_child now c.run_id st in
        let once =
          claim_child-pending now c.run_id st a.0 u a.1 (waiting_of now st.runs c a.0 a.1 waits) in
        elim (Bool-cases (no_slots next.slots)) [
          | inl full ↦ rw full once
          | inr more ↦ rw more (
              (claim_children-Moves cs next
                  (claim_child-Unique now children one_run c.run_id st u)).0
                once)
        ]
  ]
