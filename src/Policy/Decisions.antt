-- ===== src/Policy/Decisions.antt =====
-- soma/policy/policy_engine.py: what an evaluation decides.
use codex_bridge.Prelude.{String, ◌≡◌, true, false, not, ◌||◌, none, [], ◌==◌, string_eq, arith}
use codex_bridge.Runs.Update.{is_empty}
use codex_bridge.Policy.Model.{
  tier_eq, t6_human_only_risky_action, decision_eq, needs_human_approval, blocked_decision, Profile,
  RiskClassification, PolicyRequest,
}
use codex_bridge.Policy.Risk.{classify, sensitivity, is_destructive, request_text}
use codex_bridge.Policy.Approvals.{Files}
use codex_bridge.Policy.Engine.{
  AutonomyConfig, Fresh, Choice, start, repo_allowed, by_profile, for_human_only, result_of, choose,
  evaluate, profile_of,
}

-- A choice for the highest tier asks for a human, and is refused or left to the human.
human_only_lem :
    (profile : Profile) (c : RiskClassification) (v : Choice)
    → c.permission_tier ≡ t6_human_only_risky_action
    → let w = for_human_only c.permission_tier (by_profile profile c v) in
      (w.human_required ≡ true)
      × (w.approval_required ≡ true)
      × (((w.decision == blocked_decision) || (w.decision == needs_human_approval)) ≡ true)
unfolding for_human_only by_profile
human_only_lem profile c v top = ground arith

module _ (lower : String → String) (config : AutonomyConfig) (fresh : Fresh) (q : PolicyRequest)
    (files : Files) where
  -- An action of the highest tier is never allowed and never left to ChatGPT: whatever the profile
  -- and the whitelist, the result asks for a human and an approval, and its decision is to block
  -- or to ask a human.
  pub evaluate-human_only :
      (classify lower q).permission_tier ≡ t6_human_only_risky_action
      → let (r, after) = evaluate lower config fresh q files in
        (r.human_required ≡ true)
        × (r.approval_required ≡ true)
        × (((r.decision == blocked_decision) || (r.decision == needs_human_approval)) ≡ true)
  unfolding evaluate choose result_of
  evaluate-human_only top = ground (
    arith,
    human_only_lem (profile_of lower config fresh q) (classify lower q)
        (start (repo_allowed config q (classify lower q).permission_tier) (classify lower q)) top,
  )

  -- An action whose text has a secret or destructive marker is blocked: the decision is to block,
  -- no approval is asked for, and the approval store stays as it is.
  evaluate-blocked :
      (not (is_empty (sensitivity (request_text lower q))) || is_destructive (request_text lower q))
        ≡ true
      → let (r, after) = evaluate lower config fresh q files in
        (r.blocked ≡ true)
        × (r.decision ≡ blocked_decision)
        × (r.approval_request_id ≡ none)
        × (after ≡ files)
  unfolding evaluate choose result_of classify by_profile for_human_only is_empty decision_eq
  evaluate-blocked marked = ground arith

  -- A write to a repository that is not on the whitelist is blocked, files no approval request and
  -- leaves the approval store as it is, but its decision is the one that an empty whitelist would
  -- give.
  pub evaluate-unlisted :
      repo_allowed config q (classify lower q).permission_tier ≡ false
      → let (r, after) = evaluate lower config fresh q files in
        (r.blocked ≡ true)
        × (r.approval_request_id ≡ none)
        × (after ≡ files)
        × (r.decision
            ≡ (evaluate lower
                (record config { autonomy_whitelisted_repos = [] })
                fresh
                q
                files).0.decision)
  unfolding evaluate choose result_of by_profile for_human_only profile_of
  evaluate-unlisted unlisted = ground arith
