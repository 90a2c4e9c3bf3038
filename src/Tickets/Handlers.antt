-- ===== src/Tickets/Handlers.antt =====
-- The decision endpoints of handlers/domains/tickets_dynamo.py. A handler answers with the ticket
-- that the response shows.

use xoc_api_aws.Base.{String, true, false, none, some}
use xoc_api_aws.Base.Value.{Value, Fields, end, field}
use xoc_api_aws.Base.Outcome.{Handler, lift, ◌>>=◌, ◌>>◌}
use xoc_api_aws.Tickets.Item.{Ticket, created_or}
use xoc_api_aws.Tickets.Table.{Table, World, Env}
use xoc_api_aws.Tickets.Update.{update_ticket_fields}
use xoc_api_aws.Tickets.Claims.{claim_user, optional_int, resolve_ticket_for_action}
use xoc_api_aws.Tickets.Guards.{
  approval_guard, rejection_guard, selection_guard, custom_guard, Preview, custom_preview,
}
use xoc_api_aws.Tickets.Workflow.{
  resume_workflow, processed_approval_statuses, rejected_statuses, approved_item, decided_item,
  rejected_item, record_decision,
}

module _ {S : Type 0} (db : Table S) (env : Env S) where
  -- PATCH /tickets/{ticket_id}/approve
  unfoldable pub approve_ticket : String → Fields → Handler (World S) Ticket
  approve_ticket ticket_id claims = do
    item ← resolve_ticket_for_action db claims ticket_id
    selected_plan ← lift (approval_guard claims item)
    resume_workflow env item true (some selected_plan)
    user_id ← lift (optional_int (claim_user claims))
    record_decision db "APROBADO" processed_approval_statuses item.tenant_id ticket_id
        (approved_item env.now item.tenant_id ticket_id (created_or env.now item) user_id)

  -- PATCH /tickets/{ticket_id}/reject
  unfoldable pub reject_ticket : String → Fields → Handler (World S) Ticket
  reject_ticket ticket_id claims = do
    item ← resolve_ticket_for_action db claims ticket_id
    lift (rejection_guard claims item)
    resume_workflow env item false none
    user_id ← lift (optional_int (claim_user claims))
    record_decision db "RECHAZADO" rejected_statuses item.tenant_id ticket_id
        (rejected_item env.now item.tenant_id ticket_id (created_or env.now item) user_id)

  -- What follows once a plan is chosen: it is stored, the workflow goes on with it, and the
  -- decision is recorded.
  unfoldable pub run_decision : String → Fields → Ticket → Value → Handler (World S) Ticket
  run_decision ticket_id claims item plan = do
    update_ticket_fields db env item.tenant_id ticket_id (field "action_plan" plan end)
    resume_workflow env item true (some plan)
    user_id ← lift (optional_int (claim_user claims))
    record_decision db "APROBADO" processed_approval_statuses item.tenant_id ticket_id
        (decided_item env.now item.tenant_id ticket_id (created_or env.now item) user_id)

  -- PATCH /tickets/{ticket_id}/decision/select
  unfoldable pub select_ticket_decision : String → Fields → Fields → Handler (World S) Ticket
  select_ticket_decision ticket_id payload claims = do
    item ← resolve_ticket_for_action db claims ticket_id
    plan ← lift (selection_guard payload claims item)
    run_decision ticket_id claims item plan

  -- PATCH /tickets/{ticket_id}/decision/custom
  unfoldable pub custom_ticket_plan : String → Fields → Fields → Handler (World S) Ticket
  custom_ticket_plan ticket_id payload claims = do
    item ← resolve_ticket_for_action db claims ticket_id
    plan ← lift (custom_guard env.assess ticket_id payload claims item)
    run_decision ticket_id claims item plan

  -- PATCH /tickets/{ticket_id}/decision/custom/preview, which writes nothing
  unfoldable pub preview_ticket_custom_plan : String → Fields → Fields → Handler (World S) Preview
  preview_ticket_custom_plan ticket_id payload claims = do
    item ← resolve_ticket_for_action db claims ticket_id
    lift (custom_preview env.assess ticket_id payload claims item)
