-- ===== src/Policy/Authority.antt =====
-- soma/policy: ChatGPT never approves what asks for a human.
use codex_bridge.Prelude.{
  String, ◌≡◌, ◌≢◌, Bool, true, false, not, ◌&&◌, none, some, List, [], ◌∷◌, ◌==◌, string_eq, arith,
  Bool-cases, Option-cases, inl, inr, raised, permission_error,
}
use codex_bridge.Policy.Model.{
  ApprovalRequest, approval_status_eq, approved, PolicyRequest, tier_eq, decision_eq,
}
use codex_bridge.Policy.Risk.{classify}
use codex_bridge.Policy.Approvals.{
  Files, path, write_file, read_file, create, get_approval, record_decision, expire_all,
  expire_stale, list_pending, decided, lapsed,
}
use codex_bridge.Policy.Engine.{AutonomyConfig, Fresh, evaluate, choose, approval_of, result_of}

read-write :
    (name : String) (r : ApprovalRequest) (files : Files)
    → read_file name (write_file name r files) ≡ some r
unfolding read_file write_file
read-write name r [] = ground arith
read-write name r ((known, old) ∷ rest) = ground (arith, read-write name r rest)

-- ChatGPT did not approve the request, if it asks for a human.
abbrev pub IsLawful : ApprovalRequest → Type 0
IsLawful r = r.required_approver ≡ "human" → r.status ≡ approved → r.decided_by ≢ some "chatgpt"

abbrev pub AllLawful : Files → Type 0
AllLawful [] = Unit
AllLawful ((name, r) ∷ rest) = IsLawful r × AllLawful rest

create-AllLawful :
    (r : ApprovalRequest) (files : Files)
    → IsLawful r
    → AllLawful files
    → AllLawful (create r files)
unfolding create write_file
create-AllLawful r files lawful all = go files all
  where
    go :
        (files : Files)
        → AllLawful files
        → AllLawful (write_file (path r.approval_request_id) r files)
    go [] all = (lawful, tt)
    go ((known, old) ∷ rest) all = elim (Bool-cases (known == path r.approval_request_id)) [
      | inl same ↦ rw same (lawful, all.1)
      | inr differs ↦ rw differs (all.0, go rest all.1)
    ]

decided-IsLawful :
    (r : ApprovalRequest) (decided_by : String) (approve : Bool) (notes now : String)
    → (r.required_approver == "human" && decided_by == "chatgpt" && approve) ≡ false
    → IsLawful (decided r decided_by approve notes now)
decided-IsLawful r decided_by approve notes now fair human passed by = ground arith

-- ChatGPT may not give this approval.
abbrev is_forbidden : ApprovalRequest → String → Bool → Bool
is_forbidden r decided_by approve =
    r.required_approver == "human" && decided_by == "chatgpt" && approve

module _ (id decided_by : String) (approve : Bool) (notes now : String) (files : Files) where
  abbrev after_decision : Files
  after_decision = (record_decision id decided_by approve notes now files).1

  after-missing : read_file (path id) files ≡ none → after_decision ≡ files
  unfolding record_decision get_approval
  after-missing missing = ground arith

  after-refused :
      (r : ApprovalRequest)
      → read_file (path id) files ≡ some r
      → is_forbidden r decided_by approve ≡ true
      → after_decision ≡ files
  unfolding record_decision get_approval
  after-refused r found forbidden = ground arith

  after-decided :
      (r : ApprovalRequest)
      → read_file (path id) files ≡ some r
      → is_forbidden r decided_by approve ≡ false
      → after_decision ≡ create (decided r decided_by approve notes now) files
  unfolding record_decision get_approval
  after-decided r found fair = ground arith

  record_decision-AllLawful : AllLawful files → AllLawful after_decision
  record_decision-AllLawful all = elim (Option-cases (read_file (path id) files)) [
    | inl missing ↦ rw (after-missing missing) all
    | inr p ↦ elim (Bool-cases (is_forbidden p.0 decided_by approve)) [
      | inl forbidden ↦ rw (after-refused p.0 p.1 forbidden) all
      | inr fair ↦ rw (after-decided p.0 p.1 fair) (
          create-AllLawful (decided p.0 decided_by approve notes now) files
            (decided-IsLawful p.0 decided_by approve notes now fair) all)
    ]
  ]

lapsed-IsLawful : (now : String) (r : ApprovalRequest) → IsLawful (lapsed now r)
lapsed-IsLawful now r human passed = ground arith

expire_all-AllLawful :
    (now : String) (rs : List ApprovalRequest) (files : Files)
    → AllLawful files
    → AllLawful (expire_all now rs files)
unfolding expire_all
expire_all-AllLawful now [] files all = all
expire_all-AllLawful now (r ∷ rest) files all =
    expire_all-AllLawful now rest (create (lapsed now r) files)
      (create-AllLawful (lapsed now r) files (lapsed-IsLawful now r) all)

module _ (lower : String → String) (config : AutonomyConfig) (fresh : Fresh) (q : PolicyRequest)
    (files : Files) where
  abbrev asked : ApprovalRequest
  asked = approval_of fresh q (classify lower q) (choose lower config fresh q)

  asked-IsLawful : IsLawful asked
  unfolding approval_of
  asked-IsLawful human passed = ground arith

  evaluate-AllLawful : AllLawful files → AllLawful (evaluate lower config fresh q files).1
  unfolding evaluate
  evaluate-AllLawful all =
      elim (Bool-cases (
        (choose lower config fresh q).approval_required
        && not (choose lower config fresh q).blocked)) [
          | inl asks ↦ rw asks (create-AllLawful asked files asked-IsLawful all)
          | inr silent ↦ rw silent all
        ]

  -- Where an evaluation asks for an approval and for a human, the approval of ChatGPT is refused
  -- with a permission error, and the request stays as it is.
  evaluate-refuses_chatgpt :
      (notes now : String)
      → (evaluate lower config fresh q files).0.approval_request_id ≡ some fresh.approval_id
      → (evaluate lower config fresh q files).0.human_required ≡ true
      → let after = (evaluate lower config fresh q files).1 in
        record_decision fresh.approval_id "chatgpt" true notes now after
        ≡ (raised permission_error, after)
  unfolding evaluate result_of approval_of create record_decision get_approval
  evaluate-refuses_chatgpt notes now asked_for human =
      ground (arith, read-write (path fresh.approval_id) asked files)

-- The operations of the engine and of its approval store, one step each.
pub data Step : Type 0 where
  ask : (String → String) → AutonomyConfig → Fresh → PolicyRequest → Step
  decide : String → String → Bool → String → String → Step
  maintain : String → Step

pub run_step : Step → Files → Files
run_step (ask lower config fresh q) files = (evaluate lower config fresh q files).1
run_step (decide id decided_by approve notes now) files =
    (record_decision id decided_by approve notes now files).1
run_step (maintain now) files = (expire_stale now files).1

unfoldable pub run_steps : List Step → Files → Files
unfolding run_step
run_steps [] files = files
run_steps (s ∷ rest) files = run_steps rest (run_step s files)

run_step-AllLawful : (s : Step) (files : Files) → AllLawful files → AllLawful (run_step s files)
unfolding run_step expire_stale
run_step-AllLawful (ask lower config fresh q) files all =
    evaluate-AllLawful lower config fresh q files all
run_step-AllLawful (decide id decided_by approve notes now) files all =
    record_decision-AllLawful id decided_by approve notes now files all
run_step-AllLawful (maintain now) files all =
    expire_all-AllLawful now (list_pending files) files all

-- Over every sequence of evaluations, decisions and expirations, no approval request that asks for
-- a human is approved by ChatGPT, if none was before.
pub run_steps-AllLawful :
    (steps : List Step) (files : Files) → AllLawful files → AllLawful (run_steps steps files)
unfolding run_steps
run_steps-AllLawful [] files all = all
run_steps-AllLawful (s ∷ rest) files all =
    run_steps-AllLawful rest (run_step s files) (run_step-AllLawful s files all)
