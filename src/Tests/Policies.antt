-- ===== src/Tests/Policies.antt =====
-- The theorems of soma/policy at concrete requests.
use codex_bridge.Prelude.{
  String, ◌≡◌, refl, true, false, ◌||◌, none, some, List, [], ◌∷◌, ◌==◌, string_eq,
}
use codex_bridge.Policy.Model.{
  tier_eq, t6_human_only_risky_action, decision_eq, allowed, blocked_decision, needs_human_approval,
  PolicyRequest, get_autonomy_profile,
}
use codex_bridge.Policy.Risk.{classify, infer_tier, normalize_tier}
use codex_bridge.Policy.Engine.{
  AutonomyConfig, Fresh, evaluate, choose, by_profile, for_human_only, profile_of, repo_allowed,
}
use codex_bridge.Policy.Decisions.{evaluate-human_only, evaluate-unlisted}
use codex_bridge.Policy.Authority.{
  AllLawful, Step, ask, decide, maintain, run_steps, run_steps-AllLawful,
}

-- The requests are written in small letters.
abbrev same : String → String
same s = s

abbrev config : AutonomyConfig
config = record {
  autonomy_default_profile = "balanced";
  autonomy_whitelisted_repos = "bridge" ∷ [];
}

abbrev fresh : Fresh
fresh = record { approval_id = "approval_1"; audit_id = "policy_1"; now = "t" }

abbrev request : String → String → PolicyRequest
request repo action = record {
  request_id = "policy_0";
  action = action;
  action_type = "shell";
  repo_name = some repo;
  repo_path = none;
  requested_by = "chatgpt";
  autonomy_profile = "permissive";
  permission_tier = none;
  metadata = "{}";
}

sudo_tier :
    (classify same (request "bridge" "sudo reboot")).permission_tier ≡ t6_human_only_risky_action
unfolding classify
sudo_tier = refl

evaluate-human_only_example :
    let (r, after) = evaluate same config fresh (request "bridge" "sudo reboot") [] in
    (r.human_required ≡ true)
    × (r.approval_required ≡ true)
    × (((r.decision == blocked_decision) || (r.decision == needs_human_approval)) ≡ true)
evaluate-human_only_example =
    evaluate-human_only same config fresh (request "bridge" "sudo reboot") [] sudo_tier

unlisted :
    repo_allowed config
      (request "other" "edit a file")
      (classify same (request "other" "edit a file")).permission_tier
    ≡ false
unfolding repo_allowed classify string_eq normalize_tier infer_tier
unlisted = refl

evaluate-unlisted_example :
    let (r, after) = evaluate same config fresh (request "other" "edit a file") [] in
    (r.blocked ≡ true)
    × (r.approval_request_id ≡ none)
    × (after ≡ [])
    × (r.decision
        ≡ (evaluate same
            (record config { autonomy_whitelisted_repos = [] })
            fresh
            (request "other" "edit a file")
            []).0.decision)
evaluate-unlisted_example =
    evaluate-unlisted same config fresh (request "other" "edit a file") [] unlisted

-- The decision on that write says that it is allowed.
unlisted_allowed :
    (evaluate same config fresh (request "other" "edit a file") []).0.decision ≡ allowed
unfolding evaluate choose by_profile for_human_only profile_of repo_allowed classify string_eq
    tier_eq decision_eq get_autonomy_profile normalize_tier infer_tier
unlisted_allowed = refl

sudo_asked :
    (evaluate same config fresh (request "bridge" "sudo reboot") []).0.approval_request_id
    ≡ some "approval_1"
unfolding evaluate choose by_profile for_human_only profile_of repo_allowed classify string_eq
    tier_eq decision_eq get_autonomy_profile
sudo_asked = refl

-- A request for a human, a try of ChatGPT to approve it, and the end of the day.
abbrev day : List Step
day =
    ask same config fresh (request "bridge" "sudo reboot")
    ∷ decide "approval_1" "chatgpt" true "fine" "u"
    ∷ maintain "v"
    ∷ []

run_steps-AllLawful_example : AllLawful (run_steps day [])
run_steps-AllLawful_example = run_steps-AllLawful day [] tt
