-- ===== src/Tickets/Tests.antt =====
-- A ticket that waits for an approval, the decision endpoints run on it, and the theorems at it.

use xoc_api_aws.Base.{◌≡◌, refl, subst, some, [], ◌∷◌}
use xoc_api_aws.Base.{true}
use xoc_api_aws.Base.Text.{upper}
use xoc_api_aws.Base.Decimal.{show_nat}
use xoc_api_aws.Base.Value.{
  of_list, to_list, put, dict_or_empty, get_or, get, truthy, Value, Fields, null, dict, list, text,
  num, field, end, cons, nil, find,
}
use xoc_api_aws.Tickets.Preview.{Runs, custom-preview, preview-custom}
use xoc_api_aws.Base.Outcome.{Result, ok, err, crash}
use xoc_api_aws.Risk.Levels.{basic, is_role_sufficient}
use xoc_api_aws.Tickets.Item.{
  normalize_status, status_index_pk, status_index_sk, tenant_pk, ticket_sk, Ticket, blank_ticket,
  with_index_fields,
}
use xoc_api_aws.Tickets.Table.{
  update_if, get_tenant_ticket_or_404, get_tenant_ticket_or_none,
  publish_ticket_status_notification, status_event_type, World, Env,
}
use xoc_api_aws.Tickets.Claims.{
  optional_int, claim_user, claim_tenant, int_of, resolve_ticket_for_action, claim_role,
}
use xoc_api_aws.Tickets.Guards.{
  custom_guard, pending_fields, custom_steps, require_role, Preview, custom_preview,
}
use xoc_api_aws.Risk.Plan.{
  approval_requirement, requirement_of, compute_max_risk_level, dict_risk, plan_level, plan_steps,
  nested_plan, higher, max_step_level, entry_risk, resolve_step_risk_level,
  inferred_step_risk_level, declared_step_risk_level,
}
use xoc_api_aws.Risk.Command.{infer_risk_from_command}
use xoc_api_aws.Tickets.Handlers.{
  run_decision, preview_ticket_custom_plan, approve_ticket, reject_ticket, select_ticket_decision,
  custom_ticket_plan,
}
use xoc_api_aws.Tickets.Edit.{create_ticket, create_ticket_from_agent_endpoint}
use xoc_api_aws.Tickets.Update.{
  update_ticket_fields, payload_status, asked_status, write_fields, has_updates, changed_item,
  set_status, set_fields,
}
use xoc_api_aws.Tickets.Workflow.{resume_workflow, task_token, send, record_decision, decided_item}
use xoc_api_aws.Tickets.Sample.{update_row, get_row, Rows, rows_table}
use xoc_api_aws.Tickets.Choice.{normalize_custom_steps, evaluate_solution}
use xoc_api_aws.Tickets.Sends.{SendsOnly}
use xoc_api_aws.Tickets.Resumption.{
  IsApproval, IsRejection, IsCovered, approve-sends, reject-sends, select-sends, custom-sends,
}
use xoc_api_aws.Tickets.Indexed.{WellIndexed}
use xoc_api_aws.Tickets.Indexed.Rules.{KeepsIndex}
use xoc_api_aws.Tickets.Indexed.Edits.{
  create_ticket-KeepsIndex, create_from_agent_endpoint-KeepsIndex,
}
use xoc_api_aws.Tickets.Indexed.Decisions.{
  WorkflowKeepsIndex, approve_ticket-KeepsIndex, reject_ticket-KeepsIndex,
}

abbrev step : Fields
step = field "action" (text "view") (field "command" (text "echo hi") end)

abbrev steps : Value
steps = list (cons (dict step) nil)

abbrev pending : Fields
pending = field "task_token" (text "token-1") (
    field "required_approver_role" (text "ADMIN") (
      field "options"
        (list (cons (dict (field "option_id" (text "a") (field "plan" steps end))) nil)) end))

abbrev waiting : Ticket
waiting =
    record (with_index_fields 1 "t7" "PREAPROBADO" "2025-01-01"
      (blank_ticket "2025-01-01" "t7" 1 (num 5) (text "Disk full") null "PREAPROBADO")) {
        pending_decision = dict pending;
      }

abbrev claims : Fields
claims = field "tenantId" (num 1) (field "userId" (num 9) (field "role" (text "admin") end))

abbrev env : Env Rows
env = record {
  now = "2025-01-02";
  new_id = "t8";
  send_task_success = λ message s. some s;
  assess = λ request. err crash;
}

abbrev world : World Rows
world = record {
  table = ("TICKET#1", "TICKET#t7", waiting) ∷ [];
  resumed = [];
  events = [];
  pushes = [];
}

abbrev chosen : Value
chosen = dict (field "steps" steps (field "source" (text "plan-selection") end))

approve-sends_example :
    SendsOnly
      (IsApproval rows_table "t7" claims world)
      world
      (approve_ticket rows_table env "t7" claims world).1
approve-sends_example = approve-sends rows_table env "t7" claims world

reject-sends_example :
    SendsOnly
      (IsRejection rows_table "t7" claims world)
      world
      (reject_ticket rows_table env "t7" claims world).1
reject-sends_example = reject-sends rows_table env "t7" claims world

abbrev selection : Fields
selection = field "selected_option_id" (text "a") end

select-sends_example :
    SendsOnly
      (IsCovered claims)
      world
      (select_ticket_decision rows_table env "t7" selection claims world).1
select-sends_example = select-sends rows_table env "t7" claims world selection

abbrev written : Fields
written = field "custom_plan_steps" steps end

custom-sends_example :
    SendsOnly
      (IsCovered claims)
      world
      (custom_ticket_plan rows_table env "t7" written claims world).1
custom-sends_example = custom-sends rows_table env "t7" claims world written

create_ticket-KeepsIndex_example :
    KeepsIndex rows_table (create_ticket rows_table env (field "subject" (text "Disk") end) claims)
create_ticket-KeepsIndex_example =
    create_ticket-KeepsIndex rows_table env (field "subject" (text "Disk") end) claims

create_from_agent_endpoint-KeepsIndex_example :
    KeepsIndex rows_table
      (create_ticket_from_agent_endpoint rows_table env (field "subject" (text "Disk") end) claims)
create_from_agent_endpoint-KeepsIndex_example =
    create_from_agent_endpoint-KeepsIndex rows_table env (field "subject" (text "Disk") end) claims

workflow_keeps : WorkflowKeepsIndex rows_table env
workflow_keeps r s s' e well = subst (λ t. WellIndexed rows_table t) (same s s' e) well
  where
    same : (a b : Rows) → some a ≡ some b → a ≡ b
    same a b h = cc

approve_ticket-KeepsIndex_example :
    KeepsIndex rows_table (approve_ticket rows_table env "t7" claims)
approve_ticket-KeepsIndex_example =
    approve_ticket-KeepsIndex rows_table env workflow_keeps "t7" claims

reject_ticket-KeepsIndex_example : KeepsIndex rows_table (reject_ticket rows_table env "t7" claims)
reject_ticket-KeepsIndex_example =
    reject_ticket-KeepsIndex rows_table env workflow_keeps "t7" claims

-- The plan that the user's one step becomes.
abbrev written_plan : Value
written_plan = dict (
    field "steps"
      (list (
        cons
          (dict (
            field "step_id" (text "custom-1") (
              field "order" (num 1) (
                field "action" (text "view") (
                  field "command" (text "echo hi")
                    (field "description" (text "") (field "risk_level" (text "") end)))))))
          nil))
      (field "source" (text "custom") (field "risk_level" (text "basic") end)))

abbrev preview : Preview
preview = record {
  analysis = text "";
  plan = written_plan;
  requirement = record {
    max_risk_level = basic;
    required_approver_role = "USER";
    approver_label = "Usuario";
    publicly_approvable = true;
  };
  can_execute = true;
  governance_message = "";
}

-- The run comes later, another ticket is there by then, and the agent would answer something else.
abbrev later : World Rows
later = record world { table = ("TICKET#1", "TICKET#t9", waiting) ∷ world.table }

abbrev later_env : Env Rows
later_env = record env { now = "2025-01-03"; assess = λ request. ok end }

same_ticket :
    (resolve_ticket_for_action rows_table claims "t7" later).0
    ≡ (resolve_ticket_for_action rows_table claims "t7" world).0
unfolding resolve_ticket_for_action claim_role upper claim_tenant int_of get_row ticket_sk tenant_pk
    show_nat
same_ticket = refl

shows_written : (preview_ticket_custom_plan rows_table env "t7" written claims world).0 ≡ ok preview
unfolding preview_ticket_custom_plan resolve_ticket_for_action custom_preview pending_fields
    claim_role custom_steps normalize_custom_steps evaluate_solution is_role_sufficient
    approval_requirement of_list to_list compute_max_risk_level dict_risk plan_level plan_steps
    nested_plan requirement_of higher max_step_level entry_risk resolve_step_risk_level
    inferred_step_risk_level infer_risk_from_command declared_step_risk_level put claim_tenant
    int_of get_row tenant_pk ticket_sk
shows_written = refl

has_steps : truthy (get "custom_plan_steps" written) ≡ true
unfolding get truthy
has_steps = refl

preview-custom_example :
    Runs rows_table env later_env "t7" written claims world later same_ticket has_steps written_plan
preview-custom_example =
    preview-custom rows_table env later_env "t7" written claims world later same_ticket has_steps
      preview shows_written refl

abbrev ticket_of : Result Ticket → Ticket
ticket_of (ok t) = t
ticket_of (err e) = waiting

abbrev decided : Ticket
decided = ticket_of (custom_ticket_plan rows_table later_env "t7" written claims later).0

succeeds : (custom_ticket_plan rows_table later_env "t7" written claims later).0 ≡ ok decided
unfolding custom_ticket_plan resolve_ticket_for_action custom_guard pending_fields claim_role
    custom_steps normalize_custom_steps evaluate_solution is_role_sufficient approval_requirement
    of_list to_list compute_max_risk_level dict_risk plan_level plan_steps nested_plan
    requirement_of higher max_step_level entry_risk resolve_step_risk_level inferred_step_risk_level
    infer_risk_from_command declared_step_risk_level put run_decision claim_tenant int_of get_row
    tenant_pk ticket_sk require_role update_ticket_fields with_index_fields payload_status
    asked_status write_fields has_updates update_row resume_workflow task_token send optional_int
    claim_user record_decision update_if changed_item set_status get_tenant_ticket_or_404
    get_tenant_ticket_or_none publish_ticket_status_notification status_event_type set_fields
    decided_item upper show_nat truthy dict_or_empty get find get_or normalize_status
    status_index_pk status_index_sk
succeeds = refl

custom-preview_example :
    (p : Preview) × ((preview_ticket_custom_plan rows_table env "t7" written claims world).0 ≡ ok p)
    × (p.can_execute ≡ true)
    × Runs rows_table env later_env "t7" written claims world later same_ticket has_steps p.plan
custom-preview_example =
    custom-preview rows_table env later_env "t7" written claims world later same_ticket has_steps
      decided succeeds
