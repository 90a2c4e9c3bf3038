-- ===== src/Risk/Plan.antt =====
-- The risk of a step and of a plan, and the approval contract, of shared/risk_config.py.
use xoc_api_aws.Base.{
  String, ◌≡◌, refl, Bool, false, ◌||◌, Option, none, some, List, [], ◌∷◌, ltb, eqb, ◌==◌,
  if◌then◌else◌,
}
use xoc_api_aws.Base.Text.{strip, lower}
use xoc_api_aws.Base.Value.{
  Value, other, null, bool, num, text, list, dict, Fields, end, field, nil, cons, to_list, get,
  get_or, str, truthy,
}
use xoc_api_aws.Base.Outcome.{Result, ok, err, crash, and_then}
use xoc_api_aws.Risk.Levels.{
  RiskLevel, risky, critical, level_order, level_of, default_risk_level, table_get,
  action_type_risk_map, required_role, approver_label,
}
use xoc_api_aws.Risk.Command.{infer_risk_from_command, one_text}

-- _as_lower_text
unfoldable pub as_lower_text : Value → String
unfolding str strip lower
as_lower_text null = ""
as_lower_text v = elim (str v) [ none ↦ "" | some s ↦ lower (strip s) ]

-- `step.get("important") in (True, "true", "True", 1)`
unfoldable pub is_important : Value → Bool
is_important (bool b) = b
is_important (num n) = eqb n 1
is_important (text s) = s == "true" || s == "True"
is_important (other s) = s == "1.0"
is_important _ = false

abbrev or_default : Option RiskLevel → RiskLevel
or_default none = default_risk_level
or_default (some level) = level

-- The level that an impact stands for, if it stands for one.
unfoldable pub impact_risk : String → Option RiskLevel
impact_risk impact =
    if one_text ("important" ∷ "critical" ∷ "high" ∷ []) impact
    then some risky
    else if impact == "irreversible"
    then some critical
    else none

-- what a step without a level of its own declares
declared_by_effect : Fields → RiskLevel
unfolding impact_risk as_lower_text is_important get table_get
declared_by_effect step = elim (impact_risk (as_lower_text (get "impact" step))) [
  | some level ↦ level
  | none ↦
      if is_important (get "important" step)
      then risky
      else or_default (table_get action_type_risk_map (as_lower_text (get "action_type" step)))
]

-- _declared_step_risk_level
unfoldable pub declared_step_risk_level : Fields → RiskLevel
unfolding declared_by_effect as_lower_text level_of get
declared_step_risk_level step = elim (level_of (as_lower_text (get "risk_level" step))) [
  | some level ↦ level
  | none ↦ declared_by_effect step
]

-- `infer_risk_from_command(step.get("command") or "")`
unfoldable pub inferred_step_risk_level : Fields → Option RiskLevel
inferred_step_risk_level step = elim (get "command" step) [
  | text command ↦ infer_risk_from_command command
  | _ ↦ none
]

unfoldable pub higher : RiskLevel → Option RiskLevel → RiskLevel
higher declared none = declared
higher declared (some inferred) =
    if ltb (level_order declared) (level_order inferred) then inferred else declared

unfoldable pub resolve_step_risk_level : Fields → RiskLevel
resolve_step_risk_level step =
    higher (declared_step_risk_level step) (inferred_step_risk_level step)

-- The level of an entry of `steps`; an entry that is no dictionary is passed over.
unfoldable pub entry_risk : Value → Option RiskLevel
entry_risk (dict step) = some (resolve_step_risk_level step)
entry_risk _ = none

-- The loop over the steps, with the highest level so far.
unfoldable pub max_step_level : RiskLevel → List Value → RiskLevel
max_step_level level [] = level
max_step_level level (entry ∷ entries) = max_step_level (higher level (entry_risk entry)) entries

-- The values that a `for` goes over. The entries of a text or of a dictionary are texts, which the
-- loop passes over; any other value that is no list is not iterable.
unfoldable pub iterate : Value → Result (List Value)
unfolding to_list
iterate (list entries) = ok (to_list entries)
iterate (text _) = ok []
iterate (dict _) = ok []
iterate _ = err crash

-- `(plan.get("risk_level") or "").lower()`, as a level
unfoldable pub plan_level : Value → Result (Option RiskLevel)
unfolding truthy
plan_level (text s) = ok (level_of (lower s))
plan_level v = if truthy v then err crash else ok none

-- `plan.get("plan")`, or the plan itself where that is no dictionary and no list
unfoldable pub nested_plan : Fields → Value
nested_plan plan = elim (get "plan" plan) [
  | dict inner ↦ dict inner
  | list inner ↦ list inner
  | _ ↦ dict plan
]

unfoldable pub plan_steps : Value → Result (List Value)
unfolding iterate
plan_steps (dict plan) = iterate (get_or "steps" (list nil) plan)
plan_steps (list entries) = ok (to_list entries)
plan_steps _ = ok []

-- the level of a plan that is a dictionary
unfoldable pub dict_risk : Fields → Result RiskLevel
dict_risk plan = and_then (plan_level (get "risk_level" plan)) λ explicit.
    and_then (plan_steps (nested_plan plan))
      λ steps. ok (higher (max_step_level default_risk_level steps) explicit)

unfoldable pub compute_max_risk_level : Value → Result RiskLevel
compute_max_risk_level (dict plan) = dict_risk plan
compute_max_risk_level (list entries) = ok (max_step_level default_risk_level (to_list entries))
compute_max_risk_level _ = ok default_risk_level

pub record Requirement : Type 0 where
  pub max_risk_level : RiskLevel
  pub required_approver_role : String
  pub approver_label : String
  pub publicly_approvable : Bool

-- what follows from the level of a plan
unfoldable pub requirement_of : RiskLevel → Requirement
requirement_of level = record {
  max_risk_level = level;
  required_approver_role = required_role level;
  approver_label = approver_label level;
  publicly_approvable = required_role level == "USER";
}

unfoldable pub approval_requirement : Value → Result Requirement
approval_requirement plan =
    and_then (compute_max_risk_level plan) λ level. ok (requirement_of level)

-- A plan of tests/test_risk_config.py: what a step declares does not hide what its command does.
abbrev disguised_step : Fields
disguised_step = field "risk_level" (text "basic") (field "command" (text "rm -rf /etc") end)

disguised :
    approval_requirement (list (cons (dict disguised_step) nil)) ≡ ok (requirement_of critical)
unfolding approval_requirement compute_max_risk_level max_step_level entry_risk
    resolve_step_risk_level declared_step_risk_level inferred_step_risk_level higher to_list
    infer_risk_from_command get
disguised = refl
