-- ===== src/Tickets/Workflow.antt =====
-- _resume_workflow of handlers/domains/tickets_dynamo.py, and the conditional writes by which a
-- decision is recorded.
use xoc_api_aws.Base.{
  ℕ, String, Bool, false, Option, none, some, List, [], ◌∷◌, ◌==◌, if◌then◌else◌, any,
}
use xoc_api_aws.Base.Value.{Value, null, text, get, or_else, truthy, dict_or_empty}
use xoc_api_aws.Base.Outcome.{Error, app, ok, err, validation, Handler, return, modify, ◌>>=◌, ◌>>◌}
use xoc_api_aws.Tickets.Item.{Ticket, with_index_fields}
use xoc_api_aws.Tickets.Table.{
  Table, World, Env, Resumed, get_tenant_ticket_or_none, get_tenant_ticket_or_404, update_if,
  publish_ticket_status_notification, emit_event,
}

-- `pending_decision.get("task_token") or pending_decision.get("taskToken")`
unfoldable pub task_token : Ticket → Value
unfolding get or_else dict_or_empty
task_token item =
    let pending = dict_or_empty item.pending_decision in
    or_else (get "task_token" pending) (get "taskToken" pending)

abbrev pub resume_failed : Error
resume_failed = app 502 "internal_error" "Failed to resume the automation workflow"

module _ {S : Type 0} (env : Env S) where
  -- The call of Step Functions: what it accepts is on record, and the workflow runs on.
  unfoldable pub send : Resumed → Handler (World S) (Unit {0})
  send message w = elim (env.send_task_success message w.table) [
    | none ↦ (err resume_failed, w)
    | some table ↦ (ok tt, record w { table = table; resumed = message ∷ w.resumed })
  ]

  unfoldable pub resume_workflow : Ticket → Bool → Option Value → Handler (World S) (Unit {0})
  resume_workflow item approved selected_plan w =
      if truthy (task_token item)
      then send
          (record {
            task_token = task_token item;
            approved = approved;
            selected_plan = selected_plan;
          })
          w
      else (err (validation "No pending approval found for this ticket"), w)

abbrev pub status_in : List String → Option String → Bool
status_in statuses none = false
status_in statuses (some s) = any (λ u. u == s) statuses

abbrev pub has_status : List String → Ticket → Bool
has_status statuses t = status_in statuses t.status

abbrev pub is_preapproved : Ticket → Bool
is_preapproved t = has_status ("PREAPROBADO" ∷ []) t

-- _PROCESSED_APPROVAL_STATUSES
abbrev pub processed_approval_statuses : List String
processed_approval_statuses = "APROBADO" ∷ "EN_EJECUCION" ∷ "RESUELTO" ∷ "FALLIDO" ∷ []

abbrev pub rejected_statuses : List String
rejected_statuses = "RECHAZADO" ∷ "DERIVADO" ∷ []

abbrev pub approved_fields : String → Option ℕ → Ticket → Ticket
approved_fields now user_id t = record t {
  status = some "APROBADO";
  approved_by_user_id = user_id;
  approved_at = some now;
  updated_at = now;
  execution_status = text "EXECUTING";
}

abbrev pub rejected_fields : String → Option ℕ → Ticket → Ticket
rejected_fields now user_id t = record t {
  status = some "RECHAZADO";
  rejected_by_user_id = user_id;
  rejected_at = some now;
  updated_at = now;
  execution_status = text "REJECTED";
}

-- The three writes: that of approve_ticket, that of _mark_decision_approved, which also takes the
-- pending decision away, and that of reject_ticket.
unfoldable pub approved_item : String → ℕ → String → String → Option ℕ → Ticket → Ticket
approved_item now tenant_id ticket_id created_at user_id t =
    with_index_fields tenant_id ticket_id "APROBADO" created_at (approved_fields now user_id t)

unfoldable pub decided_item : String → ℕ → String → String → Option ℕ → Ticket → Ticket
unfolding approved_item
decided_item now tenant_id ticket_id created_at user_id t =
    record (approved_item now tenant_id ticket_id created_at user_id t) { pending_decision = null }

unfoldable pub rejected_item : String → ℕ → String → String → Option ℕ → Ticket → Ticket
rejected_item now tenant_id ticket_id created_at user_id t =
    with_index_fields tenant_id ticket_id "RECHAZADO" created_at (rejected_fields now user_id t)

abbrev pub changed_meanwhile : Error
changed_meanwhile = validation "Ticket approval state changed, please refresh and try again"

module _ {S : Type 0} (db : Table S) where
  -- _already_processed_ticket, and its counterpart in reject_ticket: where the workflow has gone on
  -- before the conditional write, an advanced status is a success.
  already : List String → ℕ → String → Handler (World S) Ticket
  already statuses tenant_id ticket_id w =
      elim (get_tenant_ticket_or_none db tenant_id ticket_id w.table) [
        | none ↦ (err changed_meanwhile, w)
        | some current ↦
            (if has_status statuses current then ok current else err changed_meanwhile, w)
      ]

  -- The answer after a write that went through: the ticket as it now is, the event and the push.
  announce : String → ℕ → String → Handler (World S) Ticket
  announce status tenant_id ticket_id = do
    updated ← get_tenant_ticket_or_404 db tenant_id ticket_id
    modify (emit_event "ticket.status_changed" tenant_id ticket_id)
    modify (publish_ticket_status_notification db tenant_id ticket_id status)
    return updated

  -- The conditional write from PREAPROBADO and the end of the request.
  unfoldable pub record_decision :
      String → List String → ℕ → String → (Ticket → Ticket) → Handler (World S) Ticket
  unfolding already announce
  record_decision status advanced tenant_id ticket_id change w =
      elim (update_if db tenant_id ticket_id is_preapproved change w.table) [
        | none ↦ already advanced tenant_id ticket_id w
        | some table ↦ announce status tenant_id ticket_id (record w { table = table })
      ]
