-- ===== src/Policy/Engine.antt =====
-- soma/policy/policy_engine.py. The fresh identifiers and the time are arguments.
use codex_bridge.Prelude.{
  String, Bool, true, false, not, ◌&&◌, ◌||◌, Option, none, some, List, [], ◌∷◌, ◌++◌, ◌==◌,
  contains, string_eq, if◌then◌else◌,
}
use codex_bridge.Runs.Update.{is_empty}
use codex_bridge.Policy.Model.{
  Tier, tier_eq, t0_read_only, t1_safe_local_test, t2_long_running_non_destructive_job,
  t6_human_only_risky_action, Decision, decision_eq, allowed, needs_chatgpt_approval,
  needs_human_approval, blocked_decision, unknown_decision, pending, Profile, RiskClassification,
  ApprovalRequest, PolicyRequest, PolicyResult, get_autonomy_profile,
}
use codex_bridge.Policy.Risk.{classify}
use codex_bridge.Policy.Approvals.{Files, create}

-- What the engine reads of the configuration.
pub record AutonomyConfig : Type 0 where
  pub autonomy_default_profile : String
  pub autonomy_whitelisted_repos : List String

-- The identifiers and the time of one evaluation.
pub record Fresh : Type 0 where
  pub approval_id : String
  pub audit_id : String
  pub now : String

is_whitelisted : Option String → List String → Bool
is_whitelisted none repos = false
is_whitelisted (some name) repos = not (name == "") && contains repos name

-- `_repo_allowed`
unfoldable pub repo_allowed : AutonomyConfig → PolicyRequest → Tier → Bool
unfolding is_whitelisted is_empty tier_eq
repo_allowed config q tier =
    contains (t0_read_only ∷ t1_safe_local_test ∷ t2_long_running_non_destructive_job ∷ []) tier
    || is_empty config.autonomy_whitelisted_repos
    || is_whitelisted q.repo_name config.autonomy_whitelisted_repos

-- The local variables of `evaluate`.
pub record Choice : Type 0 where
  pub decision : Decision
  pub approval_required : Bool
  pub human_required : Bool
  pub chatgpt_allowed : Bool
  pub blocked : Bool
  pub reasons : List String

-- The variables before the decision.
abbrev pub start : Bool → RiskClassification → Choice
start repo_fits c = record {
  decision = unknown_decision;
  approval_required = false;
  human_required = c.human_required;
  chatgpt_allowed = false;
  blocked = c.blocked || not repo_fits;
  reasons = if repo_fits then c.reasons else c.reasons ++ ("repo_not_whitelisted" ∷ []);
}

-- The decision by the tier and the profile.
unfoldable pub by_profile : Profile → RiskClassification → Choice → Choice
by_profile profile c v =
    if c.blocked
    then record v { decision = blocked_decision }
    else if contains profile.allow_tiers c.permission_tier
    then record v { decision = allowed }
    else if contains profile.chatgpt_approval_tiers c.permission_tier
    then record v {
      decision = needs_chatgpt_approval;
      approval_required = true;
      chatgpt_allowed = true;
    }
    else if contains profile.human_approval_tiers c.permission_tier || v.human_required
    then record v {
      decision = needs_human_approval;
      approval_required = true;
      human_required = true;
    }
    else record v {
      decision = blocked_decision;
      blocked = true;
      reasons = v.reasons ++ ("tier_not_allowed_by_profile" ∷ []);
    }

-- The highest tier asks for a human whatever the profile says.
unfoldable pub for_human_only : Tier → Choice → Choice
for_human_only tier v =
    if tier == t6_human_only_risky_action
    then record v {
      human_required = true;
      approval_required = true;
      decision = if v.decision == blocked_decision then v.decision else needs_human_approval;
    }
    else v

unfoldable pub approval_of : Fresh → PolicyRequest → RiskClassification → Choice → ApprovalRequest
approval_of fresh q c v = record {
  approval_request_id = fresh.approval_id;
  request_id = q.request_id;
  action_type = q.action_type;
  repo_name = q.repo_name;
  repo_path = q.repo_path;
  permission_tier = c.permission_tier;
  risk_level = c.risk_level;
  requested_by = q.requested_by;
  required_approver = if v.human_required then "human" else "chatgpt";
  status = pending;
  reasons = v.reasons;
  created_at = fresh.now;
  decided_at = none;
  decided_by = none;
  decision_notes = "";
  audit_event_id = fresh.audit_id;
}

unfoldable pub result_of :
    Fresh → PolicyRequest → RiskClassification → Profile → Choice → Option String → PolicyResult
unfolding decision_eq
result_of fresh q c profile v approval = record {
  request_id = q.request_id;
  action_type = q.action_type;
  repo_name = q.repo_name;
  repo_path = q.repo_path;
  requested_by = q.requested_by;
  autonomy_profile = profile.name;
  permission_tier = c.permission_tier;
  risk_level = c.risk_level;
  decision = v.decision;
  approval_required = v.approval_required;
  human_required = v.human_required;
  chatgpt_delegated_allowed = v.chatgpt_allowed;
  blocked = v.blocked || v.decision == blocked_decision;
  reasons = v.reasons;
  matched_rules = c.matched_rules;
  sensitivity_flags = c.sensitivity_flags;
  approval_request_id = approval;
  audit_event_id = fresh.audit_id;
  created_at = fresh.now;
}

module _ (lower : String → String) (config : AutonomyConfig) (fresh : Fresh) where
  unfoldable pub profile_of : PolicyRequest → Profile
  profile_of q =
      get_autonomy_profile
        (if q.autonomy_profile == "" then config.autonomy_default_profile else q.autonomy_profile)

  unfoldable pub choose : PolicyRequest → Choice
  unfolding by_profile for_human_only profile_of repo_allowed
  choose q =
      let c = classify lower q in
      for_human_only c.permission_tier
        (by_profile (profile_of q) c (start (repo_allowed config q c.permission_tier) c))

  -- `PolicyEngine.evaluate`: the result, and the approval store after it.
  unfoldable pub evaluate : PolicyRequest → Files → PolicyResult × Files
  unfolding choose approval_of result_of profile_of
  evaluate q files =
      let c = classify lower q in
      let v = choose q in
      if v.approval_required && not v.blocked
      then (
        result_of fresh q c (profile_of q) v (some fresh.approval_id),
        create (approval_of fresh q c v) files,
      )
      else (result_of fresh q c (profile_of q) v none, files)
