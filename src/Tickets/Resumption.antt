-- ===== src/Tickets/Resumption.antt =====
-- What the decision endpoints send to Step Functions (handlers/domains/tickets_dynamo.py).
use xoc_api_aws.Base.{String, ◌≡◌, refl, ap, true, false, none, some}
use xoc_api_aws.Base.Value.{Value, Fields, field, end}
use xoc_api_aws.Base.Outcome.{ok}
use xoc_api_aws.Tickets.Item.{Ticket}
use xoc_api_aws.Tickets.Table.{Table, World, Env, Resumed}
use xoc_api_aws.Tickets.Update.{update_ticket_fields}
use xoc_api_aws.Tickets.Claims.{resolve_ticket_for_action, claim_user, optional_int}
use xoc_api_aws.Tickets.Workflow.{resume_workflow, task_token}
use xoc_api_aws.Tickets.Guards.{approval_guard, rejection_guard, selection_guard, custom_guard}
use xoc_api_aws.Tickets.Handlers.{
  approve_ticket, reject_ticket, run_decision, select_ticket_decision, custom_ticket_plan,
}
use xoc_api_aws.Tickets.Choice.{resolve_executable_plan}
use xoc_api_aws.Tickets.Authority.{
  MayDecide, approval_guard-ok, rejection_guard-ok, CoversSteps, selection_guard-covers,
  custom_guard-covers,
}
use xoc_api_aws.Tickets.Sends.{
  SendsOnly, SendsOnly-quiet, SendsOnly-then, SendsOnly-resume, quiet-lift, resumed-resolve,
  resumed-record_decision, resumed-update,
}

module _ {S : Type 0} (db : Table S) (ticket_id : String) (claims : Fields) (w : World S) where
  -- What approve_ticket may send: an approval with the executable plan of the ticket that the request
  -- is resolved to, which is PREAPROBADO, for an asker who may decide it.
  pub record IsApproval (r : Resumed) : Type 0 where
    pub item : Ticket
    pub plan : Value
    pub resolved : (resolve_ticket_for_action db claims ticket_id w).0 ≡ ok item
    pub waits : item.status ≡ some "PREAPROBADO"
    pub may : MayDecide claims item
    pub runs : resolve_executable_plan item ≡ some plan
    pub sends :
        r ≡ record { task_token = task_token item; approved = true; selected_plan = some plan }

  -- What reject_ticket may send: a refusal without a plan, for the ticket that the request is
  -- resolved to, which is PREAPROBADO, and an asker who may decide it.
  pub record IsRejection (r : Resumed) : Type 0 where
    pub item : Ticket
    pub resolved : (resolve_ticket_for_action db claims ticket_id w).0 ≡ ok item
    pub waits : item.status ≡ some "PREAPROBADO"
    pub may : MayDecide claims item
    pub sends : r ≡ record { task_token = task_token item; approved = false; selected_plan = none }

  approval_guard-IsApproval :
      (item : Ticket) (plan : Value)
      → (resolve_ticket_for_action db claims ticket_id w).0 ≡ ok item
      → approval_guard claims item ≡ ok plan
      → IsApproval
          (record { task_token = task_token item; approved = true; selected_plan = some plan })
  approval_guard-IsApproval item plan resolved passed =
      let (waits, may, runs) = approval_guard-ok claims item plan passed in
      record {
        item = item;
        plan = plan;
        resolved = resolved;
        waits = waits;
        may = may;
        runs = runs;
        sends = refl;
      }

  rejection_guard-IsRejection :
      (item : Ticket)
      → (resolve_ticket_for_action db claims ticket_id w).0 ≡ ok item
      → rejection_guard claims item ≡ ok tt
      → IsRejection
          (record { task_token = task_token item; approved = false; selected_plan = none })
  rejection_guard-IsRejection item resolved passed =
      let (waits, may) = rejection_guard-ok claims item passed in
      record { item = item; resolved = resolved; waits = waits; may = may; sends = refl }

-- What the decisions by a chosen or a written plan may send: an approval with a plan whose every
-- step the asker's role reaches.
abbrev pub IsCovered : Fields → Resumed → Type 0
IsCovered claims r =
    (item : Ticket) × (plan : Value) × CoversSteps claims plan
    × (r ≡ record { task_token = task_token item; approved = true; selected_plan = some plan })

module _ {S : Type 0} (db : Table S) (env : Env S) (ticket_id : String) (claims : Fields)
    (w : World S) where
  quiet-resolve : (resolve_ticket_for_action db claims ticket_id w).1.resumed ≡ w.resumed
  quiet-resolve = ap (λ (u : World S). u.resumed) (resumed-resolve db claims ticket_id w)

  -- approve_ticket sends nothing to the workflow, or one approval: for the ticket that the request
  -- is resolved to in the table as it was, which is PREAPROBADO, for an asker whose role reaches the
  -- role that its pending decision asks for, with its own task token and the plan that
  -- resolve_executable_plan finds for it.
  pub approve-sends :
      SendsOnly (IsApproval db ticket_id claims w) w (approve_ticket db env ticket_id claims w).1
  unfolding approve_ticket
  approve-sends =
      let P = IsApproval db ticket_id claims w in
      SendsOnly-quiet P (resolve_ticket_for_action db claims ticket_id) _ w quiet-resolve
        λ item resolved.
          SendsOnly-quiet P (λ u. (approval_guard claims item, u)) _ _ refl
            λ plan passed.
              SendsOnly-then P (resume_workflow env item true (some plan)) _ _
                (SendsOnly-resume env P item true (some plan) _
                  (approval_guard-IsApproval db ticket_id claims w item plan resolved passed))
                λ _ u.
                  quiet-lift (optional_int (claim_user claims)) _ u
                    λ user_id. resumed-record_decision db "APROBADO" _ item.tenant_id ticket_id _ u

  -- reject_ticket sends nothing to the workflow, or one refusal without a plan: for the ticket that
  -- the request is resolved to in the table as it was, which is PREAPROBADO, for an asker whose role
  -- reaches the role that its pending decision asks for, with its own task token.
  pub reject-sends :
      SendsOnly (IsRejection db ticket_id claims w) w (reject_ticket db env ticket_id claims w).1
  unfolding reject_ticket
  reject-sends =
      let P = IsRejection db ticket_id claims w in
      SendsOnly-quiet P (resolve_ticket_for_action db claims ticket_id) _ w quiet-resolve
        λ item resolved.
          SendsOnly-quiet P (λ u. (rejection_guard claims item, u)) _ _ refl
            λ _ passed.
              SendsOnly-then P (resume_workflow env item false none) _ _
                (SendsOnly-resume env P item false none _
                  (rejection_guard-IsRejection db ticket_id claims w item resolved passed))
                λ _ u.
                  quiet-lift (optional_int (claim_user claims)) _ u
                    λ user_id. resumed-record_decision db "RECHAZADO" _ item.tenant_id ticket_id _ u

  run-sends :
      (item : Ticket) (plan : Value) (u : World S)
      → CoversSteps claims plan
      → SendsOnly (IsCovered claims) u (run_decision db env ticket_id claims item plan u).1
  unfolding run_decision
  run-sends item plan u covers =
      SendsOnly-quiet (IsCovered claims)
        (update_ticket_fields db env item.tenant_id ticket_id (field "action_plan" plan end)) _ u
        (resumed-update db env item.tenant_id ticket_id _ u)
        λ _ _.
          SendsOnly-then (IsCovered claims) (resume_workflow env item true (some plan)) _ _
            (SendsOnly-resume env (IsCovered claims) item true (some plan) _
              (item, plan, covers, refl))
            λ _ v.
              quiet-lift (optional_int (claim_user claims)) _ v
                λ user_id. resumed-record_decision db "APROBADO" _ item.tenant_id ticket_id _ v

  -- select_ticket_decision sends nothing to the workflow, or one approval with a plan every step of
  -- which asks for a role that the asker's role reaches.
  pub select-sends :
      (payload : Fields)
      → SendsOnly (IsCovered claims) w (select_ticket_decision db env ticket_id payload claims w).1
  unfolding select_ticket_decision
  select-sends payload =
      SendsOnly-quiet (IsCovered claims) (resolve_ticket_for_action db claims ticket_id) _ w
        quiet-resolve
        λ item _.
          SendsOnly-quiet (IsCovered claims) (λ u. (selection_guard payload claims item, u)) _ _
            refl
            λ plan passed.
              run-sends item plan _ (selection_guard-covers payload claims item plan passed)

  -- custom_ticket_plan sends nothing to the workflow, or one approval with a plan every step of
  -- which asks for a role that the asker's role reaches, whatever the agent made of the request.
  pub custom-sends :
      (payload : Fields)
      → SendsOnly (IsCovered claims) w (custom_ticket_plan db env ticket_id payload claims w).1
  unfolding custom_ticket_plan
  custom-sends payload =
      SendsOnly-quiet (IsCovered claims) (resolve_ticket_for_action db claims ticket_id) _ w
        quiet-resolve
        λ item _.
          SendsOnly-quiet (IsCovered claims)
            (λ u. (custom_guard env.assess ticket_id payload claims item, u)) _ _ refl
            λ plan passed.
              run-sends item plan _
                (custom_guard-covers env.assess ticket_id payload claims item plan passed)
