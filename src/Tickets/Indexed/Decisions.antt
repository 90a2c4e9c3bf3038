-- ===== src/Tickets/Indexed/Decisions.antt =====
-- The decision endpoints keep the index fields right, if the workflow that they resume does.
use xoc_api_aws.Base.{
  String, ◌≡◌, inl, inr, Bool, true, false, Option, none, some, Bool-cases, Option-cases,
}
use xoc_api_aws.Base.Value.{Value, truthy, Fields, find, field, end}
use xoc_api_aws.Tickets.Item.{Ticket, created_or}
use xoc_api_aws.Tickets.Table.{Table, Env, Resumed}
use xoc_api_aws.Tickets.Update.{update_ticket_fields}
use xoc_api_aws.Tickets.Claims.{resolve_ticket_for_action, claim_user, optional_int}
use xoc_api_aws.Tickets.Workflow.{send, resume_workflow, task_token}
use xoc_api_aws.Tickets.Guards.{approval_guard, rejection_guard}
use xoc_api_aws.Tickets.Handlers.{approve_ticket, reject_ticket, run_decision}
use xoc_api_aws.Tickets.Sends.{resumed-resolve}
use xoc_api_aws.Tickets.Indexed.{WellIndexed}
use xoc_api_aws.Tickets.Indexed.Rules.{
  KeepsIndex, KeepsIndex-bind, KeepsIndex-bind_lift, record_decision-KeepsIndex,
}
use xoc_api_aws.Tickets.Indexed.Items.{
  approved_item-IsIndexed, rejected_item-IsIndexed, decided_item-IsIndexed,
}
use xoc_api_aws.Tickets.Indexed.Edits.{update_ticket_fields-KeepsIndex}

-- Whatever the workflow writes while it runs on keeps the index right.
abbrev pub WorkflowKeepsIndex : {S : Type 0} → Table S → Env S → Type 0
WorkflowKeepsIndex {S} db env =
    (r : Resumed) (s s' : S)
    → env.send_task_success r s ≡ some s'
    → WellIndexed db s
    → WellIndexed db s'

module _ {S : Type 0} (db : Table S) (env : Env S) (keep : WorkflowKeepsIndex db env) where
  send-KeepsIndex : (r : Resumed) → KeepsIndex db (send env r)
  unfolding send
  send-KeepsIndex r = record {
    at = λ w well. elim (Option-cases (env.send_task_success r w.table)) [
      | inl refused ↦ rw (refused, send) well
      | inr (table, taken) ↦ rw (taken, send) (keep r w.table table taken well)
    ];
  }

  resume-KeepsIndex :
      (item : Ticket) (approved : Bool) (plan : Option Value)
      → KeepsIndex db (resume_workflow env item approved plan)
  unfolding resume_workflow
  resume-KeepsIndex item approved plan = record {
    at = λ w well. elim (Bool-cases (truthy (task_token item))) [
      | inr missing ↦ rw missing well
      | inl there ↦ rw there ((send-KeepsIndex _).at w well)
    ];
  }

  resolve-KeepsIndex :
      (claims : Fields) (ticket_id : String)
      → KeepsIndex db (resolve_ticket_for_action db claims ticket_id)
  resolve-KeepsIndex claims ticket_id = record {
    at = λ w well. rw (resumed-resolve db claims ticket_id w) well;
  }

  -- approve_ticket keeps every stored ticket listed under its own status and id, if the workflow
  -- that it resumes does.
  pub approve_ticket-KeepsIndex :
      (ticket_id : String) (claims : Fields)
      → KeepsIndex db (approve_ticket db env ticket_id claims)
  unfolding approve_ticket
  approve_ticket-KeepsIndex ticket_id claims =
      KeepsIndex-bind db (resolve_ticket_for_action db claims ticket_id) _
        (resolve-KeepsIndex claims ticket_id)
        λ item. KeepsIndex-bind_lift db (approval_guard claims item) _ λ plan _.
          KeepsIndex-bind db (resume_workflow env item true (some plan)) _
            (resume-KeepsIndex item true (some plan))
            λ _. KeepsIndex-bind_lift db (optional_int (claim_user claims)) _ λ user_id _.
              record_decision-KeepsIndex db "APROBADO" _ item.tenant_id ticket_id _ (
                approved_item-IsIndexed env.now item.tenant_id ticket_id (created_or env.now item)
                  user_id)

  -- reject_ticket keeps every stored ticket listed under its own status and id, if the workflow
  -- that it resumes does.
  pub reject_ticket-KeepsIndex :
      (ticket_id : String) (claims : Fields) → KeepsIndex db (reject_ticket db env ticket_id claims)
  unfolding reject_ticket
  reject_ticket-KeepsIndex ticket_id claims =
      KeepsIndex-bind db (resolve_ticket_for_action db claims ticket_id) _
        (resolve-KeepsIndex claims ticket_id)
        λ item. KeepsIndex-bind_lift db (rejection_guard claims item) _ λ _ _.
          KeepsIndex-bind db (resume_workflow env item false none) _
            (resume-KeepsIndex item false none)
            λ _. KeepsIndex-bind_lift db (optional_int (claim_user claims)) _ λ user_id _.
              record_decision-KeepsIndex db "RECHAZADO" _ item.tenant_id ticket_id _ (
                rejected_item-IsIndexed env.now item.tenant_id ticket_id (created_or env.now item)
                  user_id)

  -- run_decision, the end of select_ticket_decision and custom_ticket_plan, keeps every stored
  -- ticket listed under its own status and id, if the workflow that it resumes does.
  pub run_decision-KeepsIndex :
      (ticket_id : String) (claims : Fields) (item : Ticket) (plan : Value)
      → KeepsIndex db (run_decision db env ticket_id claims item plan)
  unfolding run_decision find
  run_decision-KeepsIndex ticket_id claims item plan =
      KeepsIndex-bind db
        (update_ticket_fields db env item.tenant_id ticket_id (field "action_plan" plan end)) _
        (update_ticket_fields-KeepsIndex db env item.tenant_id ticket_id _ (λ e. cc))
        λ _.
          KeepsIndex-bind db (resume_workflow env item true (some plan)) _
            (resume-KeepsIndex item true (some plan))
            λ _. KeepsIndex-bind_lift db (optional_int (claim_user claims)) _ λ user_id _.
              record_decision-KeepsIndex db "APROBADO" _ item.tenant_id ticket_id _ (
                decided_item-IsIndexed env.now item.tenant_id ticket_id (created_or env.now item)
                  user_id)
