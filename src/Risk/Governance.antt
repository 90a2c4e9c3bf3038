-- ===== src/Risk/Governance.antt =====
-- The approval contract of shared/risk_config.py: who may approve a plan may approve every step.
use Prim.Native.String
use xoc_api_aws.Base.{
  String, ◌≡◌, refl, ap, ◌⊎◌, inl, inr, true, Option, none, some, List, [], ◌∷◌, arith, In, here,
  there, ◌≢◌, subst,
}
use xoc_api_aws.Base.Text.{strip, lower, words}
use xoc_api_aws.Base.Value.{
  Value, Fields, Items, null, dict, list, text, find, get, get_or, to_list,
}
use xoc_api_aws.Base.Outcome.{ok, Result-cases, ok-injective}
use xoc_api_aws.Risk.Levels.{
  RiskLevel, critical, level_order, required_role, default_risk_level, is_role_sufficient,
}
use xoc_api_aws.Risk.Pattern.{search_in, recursive_flag_pattern}
use xoc_api_aws.Risk.Command.{
  infer_risk_from_command, split_command_segments, segment_risk, segment_head, mentions_system_path,
}
use xoc_api_aws.Risk.Plan.{
  declared_step_risk_level, inferred_step_risk_level, higher, resolve_step_risk_level, entry_risk,
  max_step_level, plan_steps, plan_level, nested_plan, dict_risk, compute_max_risk_level,
  Requirement, requirement_of, approval_requirement,
}
use xoc_api_aws.Base.Text.{upper}
use xoc_api_aws.Risk.Order.{
  IsAtMost, Reaches, higher_left, higher_right, higher-or, critical-max, is_role_sufficient_mono,
  sufficient_for_critical,
}
use xoc_api_aws.Risk.Inference.{by_segment, infer-Reaches, recursive_rm-critical}

-- The risk of a step is no lower than what the step declares and no lower than what its command
-- shows, and it is one of the two.
resolve_step_bounds :
    (step : Fields)
    → IsAtMost (declared_step_risk_level step) (resolve_step_risk_level step)
      × ((l : RiskLevel)
          → inferred_step_risk_level step ≡ some l
          → IsAtMost l (resolve_step_risk_level step))
      × ((resolve_step_risk_level step ≡ declared_step_risk_level step)
          ⊎ (inferred_step_risk_level step ≡ some (resolve_step_risk_level step)))
unfolding resolve_step_risk_level
resolve_step_bounds step = (
  higher_left (declared_step_risk_level step) (inferred_step_risk_level step),
  (λ l e. higher_right (declared_step_risk_level step) (inferred_step_risk_level step) e),
  higher-or (declared_step_risk_level step) (inferred_step_risk_level step),
)

-- What counts as a step of a plan in each of the forms that the function accepts.
pub data IsStep (step : Fields) : Value → Type 0 where
  in_list : (entries : Items) → In (dict step) (to_list entries) → IsStep step (list entries)
  in_plan :
      (plan : Fields) (entries : Items)
      → get "plan" plan ≡ null
      → find "steps" plan ≡ some (list entries)
      → In (dict step) (to_list entries)
      → IsStep step (dict plan)
  in_nested :
      (plan inner : Fields) (entries : Items)
      → get "plan" plan ≡ dict inner
      → find "steps" inner ≡ some (list entries)
      → In (dict step) (to_list entries)
      → IsStep step (dict plan)
  in_nested_list :
      (plan : Fields) (entries : Items)
      → get "plan" plan ≡ list entries
      → In (dict step) (to_list entries)
      → IsStep step (dict plan)

max_step_level_start :
    (acc : RiskLevel) (entries : List Value) → IsAtMost acc (max_step_level acc entries)
unfolding max_step_level
max_step_level_start acc [] = omega arith
max_step_level_start acc (v ∷ vs) =
    omega
      (arith, higher_left acc (entry_risk v), max_step_level_start (higher acc (entry_risk v)) vs)

max_step_level_floor :
    (acc : RiskLevel) (step : Fields) (entries : List Value)
    → In (dict step) entries
    → IsAtMost (resolve_step_risk_level step) (max_step_level acc entries)
unfolding max_step_level entry_risk
max_step_level_floor acc step [] i = elim i [ ]
max_step_level_floor acc step (_ ∷ vs) here = omega (
  arith,
  higher_right acc (some (resolve_step_risk_level step)) refl,
  max_step_level_start (higher acc (some (resolve_step_risk_level step))) vs,
)
max_step_level_floor acc step (v ∷ vs) (there i) =
    max_step_level_floor (higher acc (entry_risk v)) step vs i

-- A plan that is a dictionary has at least the level of the entries that the loop goes over.
dict_risk_floor :
    (plan step : Fields) (entries : List Value) (m : RiskLevel)
    → plan_steps (nested_plan plan) ≡ ok entries
    → dict_risk plan ≡ ok m
    → In (dict step) entries
    → IsAtMost (resolve_step_risk_level step) m
unfolding dict_risk
dict_risk_floor plan step entries m steps h i =
    elim (Result-cases (plan_level (get "risk_level" plan))) [
      | inr (e, bad) ↦ cc
      | inl (explicit, fine) ↦ omega (
        arith,
        max_step_level_floor default_risk_level step entries i,
        higher_left (max_step_level default_risk_level entries) explicit,
        ap level_order (ok-injective (rw (fine, steps) at h)),
      )
    ]

-- The entries that the loop goes over, in each form of a dictionary.
in_dict :
    (plan : Fields) {entries : Items}
    → find "steps" plan ≡ some (list entries)
    → plan_steps (dict plan) ≡ ok (to_list entries)
unfolding plan_steps get_or
in_dict plan steps = ground arith

-- The level of a plan is no lower than that of any of its steps, in whichever form it comes.
pub compute_max_floor :
    (plan : Value) (step : Fields) (m : RiskLevel)
    → compute_max_risk_level plan ≡ ok m
    → IsStep step plan
    → IsAtMost (resolve_step_risk_level step) m
unfolding compute_max_risk_level nested_plan
compute_max_floor p step m h (in_list entries i) = omega (
  arith,
  max_step_level_floor default_risk_level step (to_list entries) i,
  ap level_order (ok-injective h),
)
compute_max_floor p step m h (in_plan plan entries none_nested steps i) =
    dict_risk_floor plan step (to_list entries) m
      (rw (none_nested, nested_plan) (in_dict plan steps)) h i
compute_max_floor p step m h (in_nested plan inner entries nested steps i) =
    dict_risk_floor plan step (to_list entries) m (rw (nested, nested_plan) (in_dict inner steps)) h
      i
compute_max_floor p step m h (in_nested_list plan entries nested i) =
    dict_risk_floor plan step (to_list entries) m
      (rw (nested, nested_plan) (unfold plan_steps in refl)) h i

-- Whoever may approve a plan may approve each of its steps on its own: no step of a plan asks for
-- a role that the plan does not ask for.
pub approval_covers_steps :
    (plan : Value) (step : Fields) (role : String) (r : Requirement)
    → approval_requirement plan ≡ ok r
    → is_role_sufficient role r.required_approver_role ≡ true
    → IsStep step plan
    → is_role_sufficient role (required_role (resolve_step_risk_level step)) ≡ true
unfolding approval_requirement requirement_of
approval_covers_steps plan step role r h p s = elim (Result-cases (compute_max_risk_level plan)) [
  | inr (e, bad) ↦ cc
  | inl (m, fine) ↦
      is_role_sufficient_mono role (resolve_step_risk_level step) m
        (compute_max_floor plan step m fine s)
        (rw (ap (λ x. x.required_approver_role) (ok-injective (rw fine at h))) p)
]

-- What the inference reaches, the step reaches.
Reaches-step :
    (step : Fields) (l : RiskLevel) (found : Option RiskLevel)
    → inferred_step_risk_level step ≡ found
    → Reaches l found
    → IsAtMost l (resolve_step_risk_level step)
Reaches-step step l none e h = absurd h
Reaches-step step l (some m) e h = omega (arith, (resolve_step_bounds step).1 m e)

-- A step is as risky as any segment of its command.
segment_floor :
    (step : Fields) (command segment : String) (l : RiskLevel)
    → get "command" step ≡ text command
    → strip command ≢ ""
    → In segment (split_command_segments (strip command))
    → segment_risk segment ≡ some l
    → IsAtMost l (resolve_step_risk_level step)
unfolding inferred_step_risk_level
segment_floor step command segment l c some_text i risk =
    Reaches-step step l (infer_risk_from_command command) (rw (c, inferred_step_risk_level) refl)
      (infer-Reaches command l some_text (by_segment segment i) (rw risk (omega arith)))

-- Take a plan with a step whose command has a segment that segment_head reads as `rm`, behind the
-- assignments and prefixes that it passes over, with a recursive flag in its arguments and a system
-- path among their words. Whatever the step declares, the plan can be approved by the roles ADMIN_XOC
-- and SUPERADMIN only.
pub recursive_delete_needs_operator :
    (plan : Value) (step : Fields) (command segment args role : String) (r : Requirement)
    → get "command" step ≡ text command
    → strip command ≢ ""
    → In segment (split_command_segments (strip command))
    → segment_head segment ≡ ("rm", args)
    → search_in recursive_flag_pattern (String.◌++◌ " " (String.◌++◌ (lower args) " ")) ≡ true
    → mentions_system_path (words args) ≡ true
    → IsStep step plan
    → approval_requirement plan ≡ ok r
    → is_role_sufficient role r.required_approver_role ≡ true
    → (upper role ≡ "ADMIN_XOC") ⊎ (upper role ≡ "SUPERADMIN")
recursive_delete_needs_operator plan step command segment args role r c some_text i head flag path s
      h p =
    sufficient_for_critical role (
      subst (λ l. is_role_sufficient role (required_role l) ≡ true)
        (critical-max (resolve_step_risk_level step) (
          segment_floor step command segment critical c some_text i
            (recursive_rm-critical segment args head flag path)))
        (approval_covers_steps plan step role r h p s))
