-- ===== src/Policy/Risk.antt =====
-- soma/policy/risk_classifier.py. `lower` is `str.lower`.
use Prim.Native.String.{len, find, ◌++◌}
use codex_bridge.Prelude.{
  String, Bool, true, false, not, ◌||◌, Option, none, some, List, [], ◌∷◌, ◌==◌, string_eq, leb,
  if◌then◌else◌,
}
use codex_bridge.Runs.Update.{is_empty}
use codex_bridge.Policy.Model.{
  Tier, tier_eq, t0_read_only, t1_safe_local_test, t2_long_running_non_destructive_job,
  t3_write_preview_dry_run, t4_write_apply_chatgpt_delegated,
  t5_commit_private_branch_chatgpt_delegated, t6_human_only_risky_action, RiskLevel, low, medium,
  high, critical, RiskClassification, TierName, canonical, named, PolicyRequest,
}

-- `marker in text`
unfoldable pub occurs : String → String → Bool
occurs text marker = leb (find text marker) (len text)

unfoldable pub any_occurs : String → List String → Bool
unfolding occurs
any_occurs text [] = false
any_occurs text (marker ∷ rest) = occurs text marker || any_occurs text rest

-- `SENSITIVE_MARKERS`, each with its flag.
abbrev sensitive_markers : List (String × String)
sensitive_markers =
    ("api key", "API_KEY")
    ∷ ("secret", "SECRET")
    ∷ ("password", "PASSWORD")
    ∷ ("token", "TOKEN")
    ∷ ("private key", "PRIVATE_KEY")
    ∷ ("credential", "CREDENTIAL")
    ∷ ("authorization", "AUTHORIZATION")
    ∷ ("bearer", "BEARER")
    ∷ []

abbrev human_markers : List String
human_markers =
    "production deploy" ∷ "production infrastructure" ∷ "real-money" ∷ "real money"
    ∷ "public repo push" ∷ "push to main" ∷ "push main" ∷ "push to master" ∷ "release tag"
    ∷ "deployment branch" ∷ "grant external access" ∷ "external permission"
    ∷ "connector ui approval" ∷ "sudo" ∷ "chmod -r" ∷ "chown -r" ∷ []

abbrev blocked_markers : List String
blocked_markers =
    "rm -rf" ∷ "delete volume" ∷ "drop database" ∷ "wipe" ∷ "format drive"
    ∷ "remove-item -recurse -force" ∷ []

flags_of : String → List (String × String) → List String
unfolding occurs
flags_of text [] = []
flags_of text ((marker, flag) ∷ rest) =
    let flags = flags_of text rest in if occurs text marker then flag ∷ flags else flags

unfoldable pub sensitivity : String → List String
unfolding flags_of
sensitivity text = flags_of text sensitive_markers

unfoldable pub is_destructive : String → Bool
unfolding any_occurs
is_destructive text = any_occurs text blocked_markers

unfoldable pub is_human_only : String → Bool
unfolding any_occurs
is_human_only text = any_occurs text human_markers

tier_value : Tier → String
tier_value t0_read_only = "T0_READ_ONLY"
tier_value t1_safe_local_test = "T1_SAFE_LOCAL_TEST"
tier_value t2_long_running_non_destructive_job = "T2_LONG_RUNNING_NON_DESTRUCTIVE_JOB"
tier_value t3_write_preview_dry_run = "T3_WRITE_PREVIEW_DRY_RUN"
tier_value t4_write_apply_chatgpt_delegated = "T4_WRITE_APPLY_CHATGPT_DELEGATED"
tier_value t5_commit_private_branch_chatgpt_delegated = "T5_COMMIT_PRIVATE_BRANCH_CHATGPT_DELEGATED"
tier_value t6_human_only_risky_action = "T6_HUMAN_ONLY_RISKY_ACTION"

-- The legacy names and the values of the enumeration.
abbrev tier_names : List (String × Tier)
tier_names =
    ("read_only", t0_read_only)
    ∷ ("safe_local_test", t1_safe_local_test)
    ∷ ("long_running_non_destructive_job", t2_long_running_non_destructive_job)
    ∷ ("write_preview_dry_run", t3_write_preview_dry_run)
    ∷ ("write_apply_under_delegated_approval", t4_write_apply_chatgpt_delegated)
    ∷ (
      "commit_private_branch_push_under_delegated_approval",
      t5_commit_private_branch_chatgpt_delegated,
    )
    ∷ ("human_only_risky_action", t6_human_only_risky_action)
    ∷ ("T0_READ_ONLY", t0_read_only)
    ∷ ("T1_SAFE_LOCAL_TEST", t1_safe_local_test)
    ∷ ("T2_LONG_RUNNING_NON_DESTRUCTIVE_JOB", t2_long_running_non_destructive_job)
    ∷ ("T3_WRITE_PREVIEW_DRY_RUN", t3_write_preview_dry_run)
    ∷ ("T4_WRITE_APPLY_CHATGPT_DELEGATED", t4_write_apply_chatgpt_delegated)
    ∷ ("T5_COMMIT_PRIVATE_BRANCH_CHATGPT_DELEGATED", t5_commit_private_branch_chatgpt_delegated)
    ∷ ("T6_HUMAN_ONLY_RISKY_ACTION", t6_human_only_risky_action)
    ∷ []

tier_named : String → List (String × Tier) → Option Tier
tier_named name [] = none
tier_named name ((known, tier) ∷ rest) = if known == name then some tier else tier_named name rest

-- `_normalize_tier`
unfoldable pub normalize_tier : Option TierName → Option Tier
unfolding tier_named
normalize_tier none = none
normalize_tier (some (canonical tier)) = some tier
normalize_tier (some (named name)) = tier_named name tier_names

-- `_infer_tier`
unfoldable pub infer_tier : String → String → Tier
unfolding any_occurs
infer_tier text action_type =
    if any_occurs text
      ("git status" ∷ "git diff" ∷ "inspect" ∷ "list files" ∷ "read-only" ∷ "read only" ∷ [])
    then t0_read_only
    else if any_occurs text ("pytest" ∷ "pip check" ∷ "run tests" ∷ "safe test" ∷ [])
    then t1_safe_local_test
    else if any_occurs text (
        "long-running" ∷ "long running" ∷ "job profile" ∷ "benchmark job" ∷ "cancel job"
        ∷ "job status" ∷ [])
    then t2_long_running_non_destructive_job
    else if any_occurs text ("dry run" ∷ "preview" ∷ "plan write" ∷ [])
    then t3_write_preview_dry_run
    else if any_occurs text ("commit" ∷ "private branch" ∷ "feature branch push" ∷ [])
    then t5_commit_private_branch_chatgpt_delegated
    else if any_occurs text (
        "edit" ∷ "write" ∷ "apply" ∷ "fix" ∷ "refactor" ∷ "create module" ∷ "non-secret config"
        ∷ [])
    then t4_write_apply_chatgpt_delegated
    else if action_type == "unknown"
    then t6_human_only_risky_action
    else t0_read_only

risk_of : Tier → RiskLevel
risk_of t0_read_only = low
risk_of t1_safe_local_test = low
risk_of t2_long_running_non_destructive_job = medium
risk_of t3_write_preview_dry_run = medium
risk_of t4_write_apply_chatgpt_delegated = medium
risk_of t5_commit_private_branch_chatgpt_delegated = medium
risk_of t6_human_only_risky_action = high

abbrev or_infer : Option Tier → Tier → Tier
or_infer none inferred = inferred
or_infer (some tier) inferred = tier

module _ (lower : String → String) where
  unfoldable pub request_text : PolicyRequest → String
  request_text q = lower (q.action ++ " " ++ q.action_type ++ " " ++ q.metadata)

  classified : PolicyRequest → Tier → RiskClassification
  unfolding risk_of tier_value tier_eq
  classified q tier = record {
    action_type = q.action_type;
    permission_tier = tier;
    risk_level = risk_of tier;
    human_required = tier == t6_human_only_risky_action;
    blocked = false;
    reasons = ("classified_" ++ lower (tier_value tier)) ∷ [];
    matched_rules = "metadata_or_text_classification" ∷ [];
    sensitivity_flags = [];
  }

  -- `RiskClassifier.classify`
  unfoldable pub classify : PolicyRequest → RiskClassification
  unfolding request_text classified sensitivity is_destructive is_human_only is_empty
  classify q =
      let content = request_text q in
      if not (is_empty (sensitivity content))
      then record {
        action_type = q.action_type;
        permission_tier = t6_human_only_risky_action;
        risk_level = critical;
        human_required = true;
        blocked = true;
        reasons = "secret_like_content" ∷ [];
        matched_rules = "sensitive_marker" ∷ [];
        sensitivity_flags = sensitivity content;
      }
      else if is_destructive content
      then record {
        action_type = q.action_type;
        permission_tier = t6_human_only_risky_action;
        risk_level = critical;
        human_required = true;
        blocked = true;
        reasons = "destructive_action" ∷ [];
        matched_rules = "destructive_marker" ∷ [];
        sensitivity_flags = [];
      }
      else if is_human_only content
      then record {
        action_type = q.action_type;
        permission_tier = t6_human_only_risky_action;
        risk_level = high;
        human_required = true;
        blocked = false;
        reasons = "human_only_boundary" ∷ [];
        matched_rules = "human_required_marker" ∷ [];
        sensitivity_flags = [];
      }
      else classified q
          (or_infer (normalize_tier q.permission_tier) (infer_tier content q.action_type))
