-- ===== src/Remediation/Tests.antt =====
-- A plan of two steps is undone, and its theorem at this input.
use xoc_api_aws.Base.{String, ◌≡◌, refl, true, Option, none, some, [], ◌∷◌, All}
use xoc_api_aws.Base.Value.{Value, bool, text, list, dict, nil, cons, Fields, end, field}
use xoc_api_aws.Risk.Levels.{risky}
use xoc_api_aws.Remediation.Rollback.{Rollback}
use xoc_api_aws.Base.Text.{
  contains, is_space, lower, lstrip_by, non_empty, rstrip_by, split_by, strip, strip_by, take_while,
  unwords, words,
}
use xoc_api_aws.Base.Value.{find, get, get_or, of_list, or_else, str, to_list, truthy}
use xoc_api_aws.Remediation.Rollback.{
  build_rollback_plan, rollback_from, index_steps, is_known, scan_results, step_of, after_result,
  succeeded, rollback_of, is_missing, undo_from, is_mutating, declared, rollback_value, step_value,
  undo_step,
}
use xoc_api_aws.Risk.Command.{
  command_risk, infer_risk_from_command, mentions_system_path, pattern_risk, raise_all,
  redirect_risk, segment_head, segment_risk, split_command_segments,
}
use xoc_api_aws.Risk.Levels.{level_of, table_get}
use xoc_api_aws.Risk.Pattern.{match, match_at_start, redirect_target, search_in}
use xoc_api_aws.Risk.Plan.{
  resolve_step_risk_level, higher, inferred_step_risk_level, declared_step_risk_level,
  approval_requirement, as_lower_text, compute_max_risk_level, dict_risk, entry_risk, impact_risk,
  is_important, iterate, max_step_level, nested_plan, plan_level, plan_steps, requirement_of,
}
use xoc_api_aws.Remediation.Compensation.{IsEntryUndone, IsNumbered, build_rollback_plan-IsUndone}

abbrev no_repr : Value → String
no_repr v = ""

abbrev text_key : Value → Option String
text_key (text s) = some s
text_key _ = none

abbrev one_print : Value → String
one_print v = "sha"

-- A step that changes a service, with its compensation, and one that reads.
abbrev restart : Fields
restart = field "step_id" (text "s1") (
    field "risk_level" (text "risky") (
      field "rollback"
        (dict (
          field "supported" (bool true) (
            field "command" (text "start web")
              (field "verification_command" (text "status web") end))))
        end))

abbrev look : Fields
look = field "step_id" (text "s2") (field "risk_level" (text "basic") end)

abbrev plan_fields : Fields
plan_fields = field "steps" (list (cons (dict restart) (cons (dict look) nil))) end

abbrev result_of : String → Value
result_of s =
    dict (field "step_id" (text s) (field "status" (text "ok") (field "success" (bool true) end)))

abbrev results : Value
results = list (cons (result_of "s2") (cons (result_of "s1") nil))

abbrev undo_plan : Rollback
undo_plan = record {
  original_plan_sha256 = "sha";
  steps =
      (record {
        step_id = "rollback-s1-undo";
        order = 1;
        command = "start web";
        risk_level = text "risky";
        description = "Rollback undo: s1";
      })
      ∷ (record {
        step_id = "rollback-s1-verify";
        order = 2;
        command = "status web";
        risk_level = text "risky";
        description = "Rollback verify: s1";
      })
      ∷ [];
  requirement = requirement_of risky;
}

plan_built :
    build_rollback_plan no_repr text_key one_print (dict plan_fields) results ≡ some undo_plan
unfolding contains is_space lower lstrip_by non_empty rstrip_by split_by strip strip_by take_while
    unwords words find get get_or of_list or_else str to_list truthy build_rollback_plan
    rollback_from index_steps is_known scan_results step_of after_result succeeded rollback_of
    is_missing undo_from is_mutating declared rollback_value step_value undo_step command_risk
    infer_risk_from_command mentions_system_path pattern_risk raise_all redirect_risk segment_head
    segment_risk split_command_segments level_of table_get match match_at_start redirect_target
    search_in resolve_step_risk_level higher inferred_step_risk_level declared_step_risk_level
    approval_requirement as_lower_text compute_max_risk_level dict_risk entry_risk impact_risk
    is_important iterate max_step_level nested_plan plan_level plan_steps requirement_of
plan_built = refl

build_rollback_plan-IsUndone_example :
    All (IsEntryUndone undo_plan.steps) (dict restart ∷ dict look ∷ [])
    × IsNumbered 0 undo_plan.steps
unfolding get to_list
build_rollback_plan-IsUndone_example =
    build_rollback_plan-IsUndone no_repr text_key one_print plan_fields
      (cons (dict restart) (cons (dict look) nil)) results undo_plan refl plan_built
