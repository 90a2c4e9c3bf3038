-- ===== src/Risk/Tests.antt =====
-- Concrete inputs of shared/risk_config.py, and the theorems at them.
use xoc_api_aws.Base.{
  String, ◌≡◌, refl, ◌≢◌, ◌⊎◌, true, Option, none, some, arith, In, here, there, eq_iff,
}
use xoc_api_aws.Base.Text.{strip, upper, lower, words}
use xoc_api_aws.Base.Value.{Value, Fields, dict, list, text, field, end, cons, nil, get, to_list}
use xoc_api_aws.Base.Outcome.{ok}
use xoc_api_aws.Risk.Levels.{RiskLevel, critical, required_role, is_role_sufficient}
use xoc_api_aws.Risk.Command.{
  infer_risk_from_command, split_command_segments, segment_risk, segment_head, mentions_system_path,
}
use xoc_api_aws.Risk.Pattern.{search_in}
use xoc_api_aws.Risk.Plan.{
  declared_step_risk_level, inferred_step_risk_level, higher, resolve_step_risk_level, entry_risk,
  max_step_level, compute_max_risk_level, requirement_of, approval_requirement,
}
use xoc_api_aws.Risk.Order.{IsAtMost, Reaches}
use xoc_api_aws.Risk.Inference.{IsFinding, by_segment, infer-Reaches, infer-IsFinding}
use xoc_api_aws.Risk.Governance.{
  IsStep, in_list, compute_max_floor, approval_covers_steps, recursive_delete_needs_operator,
}

abbrev command : String
command = "echo hi; sudo rm -rf /etc/nginx"

command_text : strip command ≢ ""
unfolding strip
command_text e = ground (arith, eq_iff command "")

abbrev step : Fields
step =
    field "risk_level" (text "basic") (field "command" (text "echo hi; sudo rm -rf /etc/nginx") end)

abbrev plan : Value
plan = list (cons (dict step) nil)

segment-In : In "sudo rm -rf /etc/nginx" (split_command_segments (strip command))
unfolding split_command_segments strip
segment-In = there here

segment-critical : segment_risk "sudo rm -rf /etc/nginx" ≡ some critical
unfolding segment_risk
segment-critical = refl

infer-Reaches_example : Reaches critical (infer_risk_from_command command)
unfolding segment_risk
infer-Reaches_example =
    infer-Reaches command critical command_text (by_segment "sudo rm -rf /etc/nginx" segment-In)
      (omega arith)

infer-IsFinding_example :
    (finding : Option RiskLevel) × IsFinding command finding
    × (infer_risk_from_command command ≡ finding)
infer-IsFinding_example = infer-IsFinding command command_text

plan-requirement : approval_requirement plan ≡ ok (requirement_of critical)
unfolding approval_requirement compute_max_risk_level max_step_level entry_risk
    resolve_step_risk_level declared_step_risk_level inferred_step_risk_level higher to_list
    infer_risk_from_command get
plan-requirement = refl

plan-level : compute_max_risk_level plan ≡ ok critical
unfolding compute_max_risk_level max_step_level entry_risk resolve_step_risk_level
    declared_step_risk_level inferred_step_risk_level higher to_list infer_risk_from_command get
plan-level = refl

step-IsStep : IsStep step plan
unfolding to_list
step-IsStep = in_list (cons (dict step) nil) here

compute_max_floor_example : IsAtMost (resolve_step_risk_level step) critical
compute_max_floor_example = compute_max_floor plan step critical plan-level step-IsStep

superadmin_may : is_role_sufficient "superadmin" "SUPERADMIN" ≡ true
unfolding is_role_sufficient
superadmin_may = refl

approval_covers_steps_example :
    is_role_sufficient "superadmin" (required_role (resolve_step_risk_level step)) ≡ true
unfolding requirement_of
approval_covers_steps_example =
    approval_covers_steps plan step "superadmin" (requirement_of critical) plan-requirement
      superadmin_may step-IsStep

recursive_delete_needs_operator_example :
    (upper "superadmin" ≡ "ADMIN_XOC") ⊎ (upper "superadmin" ≡ "SUPERADMIN")
unfolding requirement_of get segment_head search_in mentions_system_path lower words
recursive_delete_needs_operator_example =
    recursive_delete_needs_operator plan step command "sudo rm -rf /etc/nginx" "-rf /etc/nginx"
      "superadmin" (requirement_of critical) refl command_text segment-In refl refl refl step-IsStep
      plan-requirement superadmin_may

-- A flag of sudo hides the command behind it.
flagged_sudo : infer_risk_from_command "sudo -n rm -rf /etc" ≡ none
unfolding infer_risk_from_command
flagged_sudo = refl
