-- ===== src/Policy/Model.antt =====
-- soma/policy/models.py and soma/policy/profiles.py.
use codex_bridge.Prelude.{String, Bool, Option, List, [], ◌∷◌, Eq, ◌==◌, string_eq, if◌then◌else◌}

-- `CanonicalPermissionTier`
pub data Tier : Type 0 where
  t0_read_only t1_safe_local_test t2_long_running_non_destructive_job : Tier
  t3_write_preview_dry_run t4_write_apply_chatgpt_delegated : Tier
  t5_commit_private_branch_chatgpt_delegated t6_human_only_risky_action : Tier

pub Tier-discrete : Discrete Tier
Tier-discrete = hlevel

instance unfoldable pub tier_eq : Eq Tier
unfolding Tier-discrete
tier_eq = record { dec = Tier-discrete }

pub data RiskLevel : Type 0 where
  low medium high critical unknown_risk : RiskLevel

-- `PolicyDecisionValue`
pub data Decision : Type 0 where
  allowed allowed_with_chatgpt_delegated_approval needs_chatgpt_approval : Decision
  needs_human_approval blocked_decision denied_decision unknown_decision : Decision

pub Decision-discrete : Discrete Decision
Decision-discrete = hlevel

instance unfoldable pub decision_eq : Eq Decision
unfolding Decision-discrete
decision_eq = record { dec = Decision-discrete }

pub data ApprovalStatus : Type 0 where
  pending approved denied expired cancelled_approval : ApprovalStatus

pub ApprovalStatus-discrete : Discrete ApprovalStatus
ApprovalStatus-discrete = hlevel

instance unfoldable pub approval_status_eq : Eq ApprovalStatus
unfolding ApprovalStatus-discrete
approval_status_eq = record { dec = ApprovalStatus-discrete }

-- `AutonomyProfileModel`
pub record Profile : Type 0 where
  pub name : String
  pub allow_tiers : List Tier
  pub chatgpt_approval_tiers : List Tier
  pub human_approval_tiers : List Tier

pub record RiskClassification : Type 0 where
  pub action_type : String
  pub permission_tier : Tier
  pub risk_level : RiskLevel
  pub human_required : Bool
  pub blocked : Bool
  pub reasons : List String
  pub matched_rules : List String
  pub sensitivity_flags : List String

pub record ApprovalRequest : Type 0 where
  pub approval_request_id : String
  pub request_id : String
  pub action_type : String
  pub repo_name : Option String
  pub repo_path : Option String
  pub permission_tier : Tier
  pub risk_level : RiskLevel
  pub requested_by : String
  pub required_approver : String
  pub status : ApprovalStatus
  pub reasons : List String
  pub created_at : String
  pub decided_at : Option String
  pub decided_by : Option String
  pub decision_notes : String
  pub audit_event_id : String

pub record ApprovalDecision : Type 0 where
  pub approval_request_id : String
  pub status : ApprovalStatus
  pub decided_by : String
  pub decided_at : String
  pub decision_notes : String

-- A tier that a request names, by the value of the enumeration or by a text.
pub data TierName : Type 0 where
  canonical : Tier → TierName
  named : String → TierName

-- `PolicyEvaluationRequest`; the metadata are their printed text.
pub record PolicyRequest : Type 0 where
  pub request_id : String
  pub action : String
  pub action_type : String
  pub repo_name : Option String
  pub repo_path : Option String
  pub requested_by : String
  pub autonomy_profile : String
  pub permission_tier : Option TierName
  pub metadata : String

pub record PolicyResult : Type 0 where
  pub request_id : String
  pub action_type : String
  pub repo_name : Option String
  pub repo_path : Option String
  pub requested_by : String
  pub autonomy_profile : String
  pub permission_tier : Tier
  pub risk_level : RiskLevel
  pub decision : Decision
  pub approval_required : Bool
  pub human_required : Bool
  pub chatgpt_delegated_allowed : Bool
  pub blocked : Bool
  pub reasons : List String
  pub matched_rules : List String
  pub sensitivity_flags : List String
  pub approval_request_id : Option String
  pub audit_event_id : String
  pub created_at : String

abbrev pub conservative : Profile
conservative = record {
  name = "conservative";
  allow_tiers = t0_read_only ∷ [];
  chatgpt_approval_tiers = [];
  human_approval_tiers =
      t1_safe_local_test ∷ t2_long_running_non_destructive_job ∷ t3_write_preview_dry_run
      ∷ t4_write_apply_chatgpt_delegated ∷ t5_commit_private_branch_chatgpt_delegated
      ∷ t6_human_only_risky_action ∷ [];
}

abbrev pub balanced : Profile
balanced = record {
  name = "balanced";
  allow_tiers = t0_read_only ∷ t1_safe_local_test ∷ t2_long_running_non_destructive_job ∷ [];
  chatgpt_approval_tiers =
      t3_write_preview_dry_run ∷ t4_write_apply_chatgpt_delegated
      ∷ t5_commit_private_branch_chatgpt_delegated ∷ [];
  human_approval_tiers = t6_human_only_risky_action ∷ [];
}

abbrev pub permissive : Profile
permissive = record {
  name = "permissive";
  allow_tiers =
      t0_read_only ∷ t1_safe_local_test ∷ t2_long_running_non_destructive_job
      ∷ t3_write_preview_dry_run ∷ t4_write_apply_chatgpt_delegated
      ∷ t5_commit_private_branch_chatgpt_delegated ∷ [];
  chatgpt_approval_tiers = [];
  human_approval_tiers = t6_human_only_risky_action ∷ [];
}

-- `get_autonomy_profile`
unfoldable pub get_autonomy_profile : String → Profile
get_autonomy_profile name =
    if name == "conservative"
    then conservative
    else if name == "permissive"
    then permissive
    else balanced
