-- ===== src/Tickets/Guards.antt =====
-- What the decision endpoints of handlers/domains/tickets_dynamo.py check before the workflow goes
-- on, and the plan that they run.
use Prim.Native.String
use xoc_api_aws.Base.{String, Bool, false, List, [], ◌∷◌, ◌==◌, if◌then◌else◌, any}
use xoc_api_aws.Base.Value.{
  Value, bool, num, text, list, dict, nil, cons, Fields, end, field, get, get_or, put, or_else,
  truthy, to_list, of_list,
}
use xoc_api_aws.Base.Outcome.{
  Error, app, crash, Result, ok, err, validation, forbidden, and_then, or_error, require,
}
use xoc_api_aws.Risk.Levels.{level_name, is_role_sufficient}
use xoc_api_aws.Risk.Plan.{Requirement, iterate, approval_requirement}
use xoc_api_aws.Tickets.Item.{Ticket}
use xoc_api_aws.Tickets.Choice.{
  same_id, resolve_executable_plan, plan_steps_for_option, normalize_custom_steps,
  evaluate_solution,
}
use xoc_api_aws.Tickets.Claims.{claim_role, assert_can_approve}
use xoc_api_aws.Tickets.Workflow.{is_preapproved}

-- What approve_ticket checks before the workflow goes on, and the plan that it runs.
unfoldable pub approval_guard : Fields → Ticket → Result Value
approval_guard claims item =
    and_then (require (is_preapproved item) (validation "Only PREAPROBADO tickets can be approved"))
      λ _. and_then (assert_can_approve claims item) λ _.
        or_error (resolve_executable_plan item)
          (validation "No action plan is available to execute for this ticket")

unfoldable pub rejection_guard : Fields → Ticket → Result (Unit {0})
rejection_guard claims item =
    and_then (require (is_preapproved item) (validation "Only PREAPROBADO tickets can be rejected"))
      λ _. assert_can_approve claims item

-- `not pending_decision or not isinstance(pending_decision, dict)`
unfoldable pub pending_fields : Ticket → Result Fields
pending_fields item = elim item.pending_decision [
  | dict (field k v fs) ↦ ok (field k v fs)
  | _ ↦ err (validation "No pending decision found for this ticket")
]

-- [o.get("option_id") for o in options if isinstance(o, dict) and o.get("option_id")]
option_ids : List Value → List Value
option_ids [] = []
option_ids (dict option ∷ options) =
    let rest = option_ids options in
    if truthy (get "option_id" option) then get "option_id" option ∷ rest else rest
option_ids (_ ∷ options) = option_ids options

-- The governance of a plan that is chosen or written: its own risk decides who may run it.
unfoldable pub require_role : String → Requirement → String → Result (Unit {0})
require_role user_role requirement message =
    require (is_role_sufficient user_role requirement.required_approver_role) (forbidden message)

unfoldable pub with_risk : Value → Requirement → Value
with_risk (dict plan) requirement =
    dict (put "risk_level" (text (level_name requirement.max_risk_level)) plan)
with_risk plan requirement = plan

-- The plan of the option that the payload names.
unfoldable pub chosen_plan : Fields → Ticket → Fields → Result Value
unfolding option_ids
chosen_plan payload item pending =
    let selected = get "selected_option_id" payload in
    and_then (require (truthy selected) (validation "selected_option_id is required")) λ _.
      and_then (iterate (get_or "options" (list nil) pending)) λ options.
        and_then
          (require (any (same_id selected) (option_ids options))
            (validation "selected_option_id is not a valid option"))
          λ _. and_then (plan_steps_for_option item selected) λ found.
            or_error found (validation "The selected option does not have executable steps")

-- The risk of the chosen plan decides who may run it, and is noted on it.
unfoldable pub govern : String → Value → Result Value
govern user_role chosen = and_then (approval_requirement chosen) λ requirement.
    and_then
      (require_role user_role requirement (
        String.◌++◌ "Insufficient role to approve the selected plan. Required: "
          requirement.required_approver_role))
      λ _. ok (with_risk chosen requirement)

-- The plan that select_ticket_decision runs, or why it refuses.
unfoldable pub selection_guard : Fields → Fields → Ticket → Result Value
selection_guard payload claims item = and_then (pending_fields item) λ pending.
    and_then (claim_role claims)
      λ user_role. and_then (chosen_plan payload item pending) λ chosen. govern user_role chosen

abbrev concat : List String → String
concat [] = ""
concat (s ∷ ss) = String.◌++◌ s (concat ss)

-- What the agent gave back: its first plan's steps, and the analysis.
analyzed : Fields → Result (Value × Value)
unfolding get or_else
analyzed result = elim (or_else (get "plans" result) (list nil)) [
  | list (cons (dict recommended) _) ↦ ok (
    or_else (get "plan" recommended) (list nil),
    or_else (get "analysis" recommended)
        (or_else (get "analysis" result) (or_else (get "plan_summary" recommended) (text ""))),
  )
  | list nil ↦ err (validation "Victor could not generate a plan from your instructions")
  | _ ↦ err crash
]

-- An exception of the worker that is no AppError becomes an explicit 502.
abbrev as_bad_gateway : Result Fields → Result Fields
as_bad_gateway (ok result) = ok result
as_bad_gateway (err (app status code message)) = err (app status code message)
as_bad_gateway (err _) = err (
    app 502 "custom_plan_generation_failed" (
      String.◌++◌ "No se pudo analizar la solucion con Victor. "
        "Intenta de nuevo o escribe los comandos manualmente."))

-- _analyze_custom_instructions
unfoldable pub analyze_custom_instructions :
    (Fields → Result Fields) → String → Ticket → Value → Result (Value × Value)
unfolding analyzed
analyze_custom_instructions assess ticket_id item instructions =
    and_then
      (as_bad_gateway (
        assess (
          field "ticketId" (text ticket_id) (
            field "tenantId" (num item.tenant_id) (
              field "subject" item.subject (
                field "description" item.description (
                  field "phase" (text "plan") (
                    field "generatePlans" (bool false) (
                      field "persist" (bool false)
                        (field "customInstructions" instructions end))))))))))
      analyzed

-- The steps that the user wrote or had written, and the analysis of the agent.
unfoldable pub custom_steps :
    (Fields → Result Fields) → String → Fields → Ticket → Result (Value × Value)
unfolding analyze_custom_instructions
custom_steps assess ticket_id payload item =
    let written = get "custom_plan_steps" payload in
    let instructions = get "custom_instructions" payload in
    if truthy written
    then elim written [
      | list steps ↦ ok (list (of_list (normalize_custom_steps 0 (to_list steps))), text "")
      | _ ↦ err (validation "custom_plan_steps must be a non-empty list of steps")
    ]
    else if truthy instructions
    then analyze_custom_instructions assess ticket_id item instructions
    else err (validation "custom_instructions or custom_plan_steps is required")

-- _governance_violation_message
abbrev governance_violation_message : String → Requirement → String
governance_violation_message user_role requirement =
    let role = if user_role == "" then "SIN ROL" else user_role in
    concat (
      "Tu rol ("
      ∷ role
      ∷ ") no puede aprobar una solucion de riesgo '"
      ∷ level_name requirement.max_risk_level
      ∷ "'. Esta solucion requiere la aprobacion de "
      ∷ requirement.approver_label
      ∷ " ("
      ∷ requirement.required_approver_role
      ∷ "). Pide a un administrador que la ejecute o escribe una solucion de menor riesgo."
      ∷ [])

-- The refusal when no step is left, in the words of its branch.
abbrev no_steps : Fields → Error
no_steps payload =
    if truthy (get "custom_plan_steps" payload)
    then validation "custom_plan_steps must contain at least one step with a command"
    else validation "Victor could not generate an executable plan from your instructions"

-- The plan that custom_ticket_plan runs, or why it refuses.
unfoldable pub custom_guard :
    (Fields → Result Fields) → String → Fields → Fields → Ticket → Result Value
custom_guard assess ticket_id payload claims item = and_then (pending_fields item) λ _.
    and_then (claim_role claims) λ user_role.
      and_then (custom_steps assess ticket_id payload item) λ solution.
        let (steps, analysis) = solution in
        and_then (require (truthy steps) (no_steps payload)) λ _.
          and_then (evaluate_solution steps "custom" analysis) λ evaluated.
            let (plan, requirement) = evaluated in
            and_then
              (require_role user_role requirement
                (governance_violation_message user_role requirement))
              λ _. ok plan

-- The answer of preview_ticket_custom_plan.
pub record Preview : Type 0 where
  pub analysis : Value
  pub plan : Value
  pub requirement : Requirement
  pub can_execute : Bool
  pub governance_message : String

-- What preview_ticket_custom_plan answers for the ticket.
unfoldable pub custom_preview :
    (Fields → Result Fields) → String → Fields → Fields → Ticket → Result Preview
unfolding pending_fields
custom_preview assess ticket_id payload claims item = and_then (pending_fields item) λ _.
    and_then (custom_steps assess ticket_id payload item) λ solution.
      let (steps, analysis) = solution in
      and_then
        (require (truthy steps)
          (validation "The proposed solution did not produce any executable step"))
        λ _. and_then (evaluate_solution steps "custom" analysis) λ evaluated.
          let (plan, requirement) = evaluated in
          and_then (claim_role claims) λ user_role.
            let may = is_role_sufficient user_role requirement.required_approver_role in
            ok (record {
              analysis = analysis;
              plan = plan;
              requirement = requirement;
              can_execute = may;
              governance_message =
                  if may then "" else governance_violation_message user_role requirement;
            })
