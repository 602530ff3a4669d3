-- ===== src/Workflows/Order.antt =====
-- soma/workflows/models.py: a graph is accepted exactly if every step depends on earlier steps only.
use codex_bridge.Prelude.{
  ℕ, suc, ◌≤◌, String, Bool, true, false, none, some, List, [], ◌∷◌, ◌==◌, ◌&&◌, ◌≡◌, refl, sym,
  ◌∙◌, contains, string_eq, not, if◌then◌else◌, ok, raised, value_error, length, leb, ltb, arith,
  Bool-cases, Option-cases, inl, inr,
}
use codex_bridge.Runs.Update.{is_empty}
use codex_bridge.Workflows.Models.{
  StepDefinition, has_good_ids, index_by_id, index_of, is_earlier_step, all_earlier,
  has_good_dependencies, validate_graph, max_workflow_steps,
}
use codex_bridge.Workflows.Graph.{index_of-bounds, search_cycles-Ends}

abbrev all_among : List String → List String → Bool
all_among earlier [] = true
all_among earlier (d ∷ ds) = contains earlier d && all_among earlier ds

-- Every dependency is the identifier of an earlier step.
abbrev pub follows : List String → List StepDefinition → Bool
follows earlier [] = true
follows earlier (s ∷ rest) = all_among earlier s.depends_on && follows (s.id ∷ earlier) rest

-- What a graph has to be, without a table and without a search.
abbrev pub is_graph : List StepDefinition → Bool
is_graph steps =
    not (is_empty steps)
    && not (ltb max_workflow_steps (length steps))
    && has_good_ids [] steps
    && follows [] steps

-- An identifier that was seen does not come again.
seen_once :
    (i : ℕ) (seen : List String) (ss : List StepDefinition) (d : String)
    → has_good_ids seen ss ≡ true
    → contains seen d ≡ true
    → index_of d (index_by_id i ss) ≡ none
unfolding has_good_ids index_by_id index_of
seen_once i seen [] d good h = refl
seen_once i seen (s ∷ rest) d good h =
    ground (arith, good, h, seen_once (suc i) (s.id ∷ seen) rest d)

module _ (table : List (String × ℕ)) where
  -- The identifiers in front of an index.
  abbrev Sees : ℕ → List String → Type 0
  Sees k earlier = (d : String) → is_earlier_step table k d ≡ contains earlier d

  -- The table goes on with the steps that are left.
  abbrev IsTail : ℕ → List StepDefinition → Type 0
  IsTail k ss =
      ((d : String) (n : ℕ) → index_of d (index_by_id k ss) ≡ some n → index_of d table ≡ some n)
      × ((d : String) (n : ℕ)
          → k ≤ n
          → index_of d table ≡ some n
          → index_of d (index_by_id k ss) ≡ some n)

  index_of-other :
      (k : ℕ) (s : StepDefinition) (rest : List StepDefinition) (d : String)
      → (s.id == d) ≡ false
      → index_of d (index_by_id k (s ∷ rest)) ≡ index_of d (index_by_id (suc k) rest)
  unfolding index_by_id index_of
  index_of-other k s rest d other = ground (arith, other)

  index_of-head :
      (k : ℕ) (s : StepDefinition) (rest : List StepDefinition) (d : String)
      → (s.id == d) ≡ true
      → index_of d (index_by_id k (s ∷ rest)) ≡ some k
  unfolding index_by_id index_of
  index_of-head k s rest d same = ground (arith, same)

  IsTail-rest :
      (k : ℕ) (seen : List String) (s : StepDefinition) (rest : List StepDefinition)
      → has_good_ids (s.id ∷ seen) rest ≡ true
      → IsTail k (s ∷ rest)
      → IsTail (suc k) rest
  IsTail-rest k seen s rest good tail = (
    λ d n h. elim (Bool-cases (s.id == d)) [
      | inl same ↦
          absurd (cc (h, seen_once (suc k) (s.id ∷ seen) rest d good (ground (arith, same))))
      | inr other ↦ tail.0 d n (index_of-other k s rest d other ∙ h)
    ],
    λ d n below h.
        let there = tail.1 d n (omega (arith, below)) h in
        elim (Bool-cases (s.id == d)) [
          | inl same ↦ absurd (ground (arith, below, there, index_of-head k s rest d same))
          | inr other ↦ sym (index_of-other k s rest d other) ∙ there
        ],
  )

  Sees-next :
      (k : ℕ) (earlier : List String) (s : StepDefinition) (rest : List StepDefinition)
      → Sees k earlier
      → IsTail k (s ∷ rest)
      → Sees (suc k) (s.id ∷ earlier)
  unfolding is_earlier_step
  Sees-next k earlier s rest sees tail d = elim (Bool-cases (s.id == d)) [
    | inl same ↦
        let there = tail.0 d k (index_of-head k s rest d same) in ground (arith, same, there)
    | inr other ↦ elim (Option-cases (index_of d table)) [
      | inl gone ↦ ground (arith, other, gone, sees d)
      | inr a ↦ elim (Bool-cases (leb k a.0)) [
        | inr below ↦ ground (arith, other, a.1, below, sees d)
        | inl above ↦
            let there : index_of d (index_by_id (suc k) rest) ≡ some a.0 =
              sym (index_of-other k s rest d other) ∙ tail.1 d a.0 (ground (arith, above)) a.1 in
            ground (arith, other, a.1, sees d, index_of-bounds (suc k) rest d a.0 there)
      ]
    ]
  ]

  all_earlier-all_among :
      (k : ℕ) (earlier ds : List String)
      → Sees k earlier
      → all_earlier table k ds ≡ all_among earlier ds
  unfolding all_earlier
  all_earlier-all_among k earlier [] sees = refl
  all_earlier-all_among k earlier (d ∷ ds) sees =
      ground (arith, sees d, all_earlier-all_among k earlier ds sees)

  dependencies-follows :
      (k : ℕ) (earlier : List String) (ss : List StepDefinition)
      → has_good_ids earlier ss ≡ true
      → Sees k earlier
      → IsTail k ss
      → has_good_dependencies table k ss ≡ follows earlier ss
  unfolding has_good_dependencies has_good_ids
  dependencies-follows k earlier [] good sees tail = refl
  dependencies-follows k earlier (s ∷ rest) good sees tail =
      let later : has_good_ids (s.id ∷ earlier) rest ≡ true = ground (arith, good) in
      ground (
        arith,
        all_earlier-all_among k earlier s.depends_on sees,
        dependencies-follows (suc k) (s.id ∷ earlier) rest later
            (Sees-next k earlier s rest sees tail) (IsTail-rest k earlier s rest later tail),
      )

good_dependencies :
    (steps : List StepDefinition)
    → has_good_ids [] steps ≡ true
    → has_good_dependencies (index_by_id 0 steps) 0 steps ≡ follows [] steps
unfolding is_earlier_step
good_dependencies steps good =
    dependencies-follows (index_by_id 0 steps) 0 [] steps good
      (λ d. elim (Option-cases (index_of d (index_by_id 0 steps))) [
        | inl gone ↦ ground (arith, gone)
        | inr a ↦ ground (arith, a.1)
      ])
      ((λ d n h. h), (λ d n below h. h))

-- The check of a graph ends with the fuel that its search is given, the search never finds a
-- cycle, and the graph is accepted exactly if it is not empty, has at most fifty steps with
-- identifiers that are not blank and differ, and every dependency is an earlier step.
pub validate_graph_lem :
    (steps : List StepDefinition)
    → validate_graph steps ≡ some (if is_graph steps then ok tt else raised value_error)
unfolding validate_graph
validate_graph_lem steps = elim (Bool-cases (has_good_ids [] steps)) [
  | inr bad ↦ ground (arith, bad)
  | inl good ↦
      let same = good_dependencies steps good in
      elim (Bool-cases (follows [] steps)) [
        | inr bad ↦ ground (arith, good, bad, same)
        | inl fits ↦
            let (after, ends) = search_cycles-Ends steps (same ∙ fits) in
            ground (arith, good, fits, same, ends)
      ]
]
