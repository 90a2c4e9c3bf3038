-- ===== src/Tickets/Choice.antt =====
-- Which plan an approval runs: resolve_executable_plan of shared/tickets_store.py, and
-- _plan_steps_for_option, _normalize_custom_steps and _evaluate_solution of
-- handlers/domains/tickets_dynamo.py.
use Prim.Native.String
use xoc_api_aws.Base.{
  ℕ, ◌+◌, String, Bool, true, false, Option, none, some, List, [], ◌∷◌, ◌++◌, eqb, ◌==◌,
  if◌then◌else◌,
}
use xoc_api_aws.Base.Decimal.{show_nat}
use xoc_api_aws.Base.Value.{
  Value, null, bool, num, other, text, list, dict, Items, Fields, end, field, nil, cons, get,
  get_or, put, or_else, truthy, dict_or_empty, to_list,
}
use xoc_api_aws.Base.Outcome.{Result, ok, and_then}
use xoc_api_aws.Risk.Levels.{level_name}
use xoc_api_aws.Risk.Plan.{Requirement, iterate, approval_requirement}
use xoc_api_aws.Tickets.Item.{Ticket}

-- `==` between ids, which are scalars: a truth value is the number 0 or 1.
abbrev number_of : Bool → ℕ
number_of true = 1
number_of false = 0

unfoldable pub same_id : Value → Value → Bool
same_id null null = true
same_id (bool b) (bool c) = eqb (number_of b) (number_of c)
same_id (bool b) (num n) = eqb (number_of b) n
same_id (num n) (bool b) = eqb n (number_of b)
same_id (num m) (num n) = eqb m n
same_id (other s) (other t) = s == t
same_id (text s) (text t) = s == t
same_id _ _ = false

-- {"steps": steps, "source": source}
abbrev pub plan_of : Items → String → Value
plan_of steps source = dict (field "steps" (list steps) (field "source" (text source) end))

-- The plan of an option, if it has steps.
abbrev pub option_plan : Fields → Option Value
option_plan option = elim (get "plan" option) [
  | list (cons step steps) ↦ some (plan_of (cons step steps) "plan-selection")
  | _ ↦ none
]

-- The options in the order in which they are tried: each that has the recommended id is put in
-- front of all before it.
order_options : Value → List Fields → List Value → List Fields
order_options recommended ordered [] = ordered
order_options recommended ordered (dict option ∷ options) =
    order_options recommended
      (if same_id (get "option_id" option) recommended
        then option ∷ ordered
        else ordered ++ option ∷ [])
      options
order_options recommended ordered (_ ∷ options) = order_options recommended ordered options

unfoldable pub first_plan : List Fields → Option Value
unfolding get
first_plan [] = none
first_plan (option ∷ options) = elim (option_plan option) [
  | some plan ↦ some plan
  | none ↦ first_plan options
]

-- The plan that is stored with the ticket, in its two forms.
unfoldable pub stored_plan : Value → Option Value
unfolding get
stored_plan (dict plan) = elim (get "steps" plan) [
  | list (cons step steps) ↦ some (dict plan)
  | _ ↦ none
]
stored_plan (list (cons step steps)) = some (plan_of (cons step steps) "action_plan")
stored_plan _ = none

-- the options that are tried; `options` that are no list are passed over
unfoldable pub ordered_options : Fields → List Fields
unfolding order_options to_list get same_id
ordered_options pending = elim (get "options" pending) [
  | list options ↦ order_options (get "recommended_option_id" pending) [] (to_list options)
  | _ ↦ []
]

unfoldable pub resolve_executable_plan : Ticket → Option Value
unfolding ordered_options first_plan stored_plan dict_or_empty
resolve_executable_plan item =
    elim (first_plan (ordered_options (dict_or_empty item.pending_decision))) [
      | some plan ↦ some plan
      | none ↦ stored_plan item.action_plan
    ]

-- The loop of _plan_steps_for_option.
plan_for_option : Value → List Value → Option Value
unfolding same_id get
plan_for_option option_id [] = none
plan_for_option option_id (dict option ∷ options) =
    let rest = plan_for_option option_id options in
    if same_id (get "option_id" option) option_id
    then elim (option_plan option) [ some plan ↦ some plan | none ↦ rest ]
    else rest
plan_for_option option_id (_ ∷ options) = plan_for_option option_id options

unfoldable pub plan_steps_for_option : Ticket → Value → Result (Option Value)
unfolding plan_for_option dict_or_empty get or_else
plan_steps_for_option item option_id =
    and_then (iterate (or_else (get "options" (dict_or_empty item.pending_decision)) (list nil)))
      λ options. ok (plan_for_option option_id options)

-- One step that the user wrote, at its place in the list.
normal_step : ℕ → Fields → Fields
unfolding get get_or or_else show_nat
normal_step idx step =
    field "step_id"
      (or_else (get "step_id" step) (text (String.◌++◌ "custom-" (show_nat (idx + 1)))))
      (field "order" (get_or "order" (num (idx + 1)) step) (
        field "action" (get_or "action" (text "shell") step) (
          field "command" (get "command" step) (
            field "description" (get_or "description" (text "") step)
              (field "risk_level" (or_else (get "risk_level" step) (text "")) end)))))

unfoldable pub normalize_custom_steps : ℕ → List Value → List Value
unfolding normal_step truthy get
normalize_custom_steps idx [] = []
normalize_custom_steps idx (dict step ∷ steps) =
    let rest = normalize_custom_steps (idx + 1) steps in
    if truthy (get "command" step) then dict (normal_step idx step) ∷ rest else rest
normalize_custom_steps idx (_ ∷ steps) = normalize_custom_steps (idx + 1) steps

-- The plan of a solution, without its risk; `analysis` is a text.
abbrev pub solution_fields : Value → String → Value → Fields
solution_fields steps source analysis =
    field "steps" steps (
      field "source" (text source) (if truthy analysis then field "analysis" analysis end else end))

-- _evaluate_solution
unfoldable pub evaluate_solution : Value → String → Value → Result (Value × Requirement)
evaluate_solution steps source analysis =
    let plan = solution_fields steps source analysis in
    and_then (approval_requirement (dict plan)) λ requirement.
      ok (dict (put "risk_level" (text (level_name requirement.max_risk_level)) plan), requirement)
