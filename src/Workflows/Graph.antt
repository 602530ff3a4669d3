-- ===== src/Workflows/Graph.antt =====
-- soma/workflows/models.py: the search for a cycle always ends, and never finds one.
use codex_bridge.Prelude.{
  ℕ, zero, suc, ◌+◌, ◌≤◌, ◌<◌, String, true, false, some, List, [], ◌∷◌, ◌==◌, ◌≡◌, refl, ap, ◌∙◌,
  contains, string_eq, length, arith, All, Bool-cases, Option-cases, inl, inr,
}
use codex_bridge.Prelude.Order.{All-map}
use codex_bridge.Workflows.Models.{
  StepDefinition, index_by_id, index_of, is_earlier_step, all_earlier, has_good_dependencies, Marks,
  Search, found_none, found_cycle, missing, out_of_fuel, remove, find_step, visit, visit_all, leave,
  search_cycles, ids_of,
}

-- The table of a list of steps from an index on.
pub index_of-bounds :
    (i : ℕ) (ss : List StepDefinition) (d : String) (n : ℕ)
    → index_of d (index_by_id i ss) ≡ some n
    → (i ≤ n) × (n < i + length ss)
unfolding index_of index_by_id
index_of-bounds i [] d n h = absurd (cc h)
index_of-bounds i (s ∷ rest) d n h = ground (arith, h, index_of-bounds (suc i) rest d n)

find_step-index_of :
    (i : ℕ) (ss : List StepDefinition) (d : String) (n : ℕ)
    → index_of d (index_by_id i ss) ≡ some n
    → (s : StepDefinition) × (find_step d ss ≡ some s)
unfolding index_of index_by_id find_step
find_step-index_of i [] d n h = absurd (cc h)
find_step-index_of i (s ∷ rest) d n h = elim (Bool-cases (s.id == d)) [
  | inl same ↦ (s, ground (arith, same))
  | inr other ↦
      let (x, found) = find_step-index_of (suc i) rest d n (ground (arith, h, other)) in
      (x, ground (arith, other, found))
]

-- The dependencies of a step of the list stand before it.
all_earlier-find_step :
    (table : List (String × ℕ)) (i : ℕ) (ss : List StepDefinition) (d : String) (n : ℕ)
    (s : StepDefinition)
    → has_good_dependencies table i ss ≡ true
    → index_of d (index_by_id i ss) ≡ some n
    → find_step d ss ≡ some s
    → all_earlier table n s.depends_on ≡ true
unfolding index_of index_by_id find_step has_good_dependencies
all_earlier-find_step table i [] d n s good h found = absurd (cc h)
all_earlier-find_step table i (x ∷ rest) d n s good h found = elim (Bool-cases (x.id == d)) [
  | inl same ↦ ground (arith, same, good, h, found)
  | inr other ↦
      all_earlier-find_step table (suc i) rest d n s (ground (arith, good))
        (ground (arith, h, other)) (ground (arith, found, other))
]

HasIndex : List (String × ℕ) → String → Type 0
HasIndex table id = (n : ℕ) × (index_of id table ≡ some n)

HasIndex-ids : (i : ℕ) (ss : List StepDefinition) → All (HasIndex (index_by_id i ss)) (ids_of ss)
unfolding index_by_id index_of HasIndex
HasIndex-ids i [] = tt
HasIndex-ids i (s ∷ rest) = (
  (i, ground arith),
  All-map
      (λ id h. elim (Bool-cases (s.id == id)) [
        | inl same ↦ (i, ground (arith, same))
        | inr other ↦ (h.0, ground (arith, other, h.1))
      ])
      (ids_of rest) (HasIndex-ids (suc i) rest),
)

visit_all-next :
    (call : String → Marks → Search) (d : String) (ds : List String) (m after : Marks)
    → call d m ≡ found_none after
    → visit_all call (d ∷ ds) m ≡ visit_all call ds after
unfolding visit_all
visit_all-next call d ds m after h =
    ap
      (λ x. elim x [
        | found_none a ↦ visit_all call ds a
        | found_cycle ↦ found_cycle
        | missing ↦ missing
        | out_of_fuel ↦ out_of_fuel
      ])
      h

module _ (steps : List StepDefinition)
    (good : has_good_dependencies (index_by_id 0 steps) 0 steps ≡ true) where
  abbrev table : List (String × ℕ)
  table = index_by_id 0 steps

  -- What is being visited stands behind the step.
  abbrev Behind : ℕ → String → Type 0
  Behind k v = (j : ℕ) × (index_of v table ≡ some j) × (k < j)

  -- The search ends without a cycle, and leaves what is being visited as it was.
  abbrev Ends : Search → Marks → Type 0
  Ends search m = (after : Marks) × (search ≡ found_none after) × (after.visiting ≡ m.visiting)

  -- Every call for a step before the k-th ends.
  abbrev Calls : ℕ → (String → Marks → Search) → Type 0
  Calls k call =
      (d : String) (n : ℕ) (m : Marks)
      → index_of d table ≡ some n
      → n < k
      → All (Behind n) m.visiting
      → Ends (call d m) m

  visit_all-Ends :
      (k : ℕ) (call : String → Marks → Search) (ds : List String) (m : Marks)
      → Calls k call
      → all_earlier table k ds ≡ true
      → ((n : ℕ) → n < k → All (Behind n) m.visiting)
      → Ends (visit_all call ds m) m
  unfolding visit_all all_earlier is_earlier_step
  visit_all-Ends k call [] m calls early behind = (m, refl, refl)
  visit_all-Ends k call (d ∷ ds) m calls early behind = elim (Option-cases (index_of d table)) [
    | inl gone ↦ absurd (ground (arith, gone, early))
    | inr a ↦
        let below : a.0 < k = ground (arith, a.1, early) in
        let (after, ends, same) = calls d a.0 m a.1 below (behind a.0 below) in
        let (last, done, kept) =
          visit_all-Ends k call ds after calls (ground (arith, early))
            (λ n h. rw same (behind n h)) in
        (last, visit_all-next call d ds m after ends ∙ done, kept ∙ same)
  ]

  not_visiting :
      (id : String) (k : ℕ) (vs : List String)
      → index_of id table ≡ some k
      → All (Behind k) vs
      → contains vs id ≡ false
  not_visiting id k [] h behind = refl
  not_visiting id k (v ∷ vs) h behind = ground (arith, h, behind.0, not_visiting id k vs h behind.1)

  Behind-call :
      (id : String) (k n : ℕ) (m : Marks)
      → index_of id table ≡ some k
      → n < k
      → All (Behind k) m.visiting
      → All (Behind n) (id ∷ m.visiting)
  Behind-call id k n m h below behind =
      ((k, h, below), All-map (λ v b. (b.0, b.1, omega (arith, below, b.2))) m.visiting behind)

  remove-head : (id : String) (vs : List String) → remove id (id ∷ vs) ≡ vs
  unfolding remove
  remove-head id vs = ground arith

  -- With more fuel than the index of its step, a visit ends.
  visit-Ends : (fuel : ℕ) → Calls fuel (visit fuel steps)
  unfolding visit leave
  visit-Ends zero d n m h below behind = absurd (omega (arith, below))
  visit-Ends (suc fuel) d n m h below behind = elim (Bool-cases (contains m.visited d)) [
    | inl seen ↦ (m, ground (arith, seen), refl)
    | inr new ↦
        let (s, found) = find_step-index_of 0 steps d n h in
        let start : Marks = record m { visiting = d ∷ m.visiting } in
        let (after, ends, same) =
          visit_all-Ends n (visit fuel steps) s.depends_on start
            (λ e j x g lt b. visit-Ends fuel e j x g (omega (arith, lt, below)) b)
            (all_earlier-find_step table 0 steps d n s good h found)
            (λ j lt. Behind-call d n j m h lt behind) in
        (
          record { visiting = remove d after.visiting; visited = d ∷ after.visited },
          ground (arith, new, not_visiting d n m.visiting h behind, found, ends),
          ap (remove d) same ∙ remove-head d m.visiting,
        )
  ]

  -- Every identifier of a step stands before the end.
  all_earlier-ids :
      (ids : List String) → All (HasIndex table) ids → all_earlier table (length steps) ids ≡ true
  unfolding all_earlier is_earlier_step HasIndex
  all_earlier-ids [] h = refl
  all_earlier-ids (id ∷ ids) h =
      let bounds = index_of-bounds 0 steps id h.0.0 h.0.1 in
      ground (arith, h.0.1, bounds, all_earlier-ids ids h.1)

  -- The search ends, with the fuel that it is given, and finds no cycle.
  pub search_cycles-Ends : (after : Marks) × (search_cycles steps ≡ found_none after)
  unfolding search_cycles
  search_cycles-Ends =
      let start : Marks = record { visiting = []; visited = [] } in
      let (after, ends, _) =
        visit_all-Ends (length steps) (visit (length steps) steps) (ids_of steps) start
          (visit-Ends (length steps)) (all_earlier-ids (ids_of steps) (HasIndex-ids 0 steps))
          (λ n h. tt) in
      (after, ends)
