-- ===== src/Tickets/Sends.antt =====
-- How the handlers of handlers/domains/tickets_dynamo.py send to Step Functions, step by step.
use xoc_api_aws.Base.{
  ℕ, String, ◌≡◌, refl, ◌∙◌, ap, ◌⊎◌, inl, inr, Bool, Option, List, ◌∷◌, arith, Bool-cases,
  Option-cases,
}
use xoc_api_aws.Base.Value.{Value, Fields, truthy}
use xoc_api_aws.Base.Outcome.{Result, ok, err, Result-cases, ◌>>=◌, Handler, lift}
use xoc_api_aws.Tickets.Item.{Ticket}
use xoc_api_aws.Tickets.Table.{
  Table, World, Env, Resumed, publish_ticket_status_notification, get_tenant_ticket_or_404,
}
use xoc_api_aws.Tickets.Update.{update_ticket_fields, write_fields}
use xoc_api_aws.Tickets.Claims.{resolve_ticket_for_action}
use xoc_api_aws.Tickets.Workflow.{send, resume_workflow, record_decision, task_token}

module _ {S : Type 0} (db : Table S) where
  resumed-publish :
      (tenant_id : ℕ) (ticket_id status : String) (w : World S)
      → (publish_ticket_status_notification db tenant_id ticket_id status w).resumed ≡ w.resumed
  unfolding publish_ticket_status_notification
  resumed-publish tenant_id ticket_id status w = ground arith

  pub resumed-record_decision :
      (status : String) (advanced : List String) (tenant_id : ℕ) (ticket_id : String)
      (change : Ticket → Ticket) (w : World S)
      → (record_decision db status advanced tenant_id ticket_id change w).1.resumed ≡ w.resumed
  unfolding record_decision get_tenant_ticket_or_404
  resumed-record_decision status advanced tenant_id ticket_id change w =
      grind (arith, resumed-publish)

  pub resumed-resolve :
      (claims : Fields) (ticket_id : String) (w : World S)
      → (resolve_ticket_for_action db claims ticket_id w).1 ≡ w
  unfolding resolve_ticket_for_action
  resumed-resolve claims ticket_id w = ground arith

module _ {S : Type 0} (db : Table S) (env : Env S) where
  pub resumed-update :
      (tenant_id : ℕ) (ticket_id : String) (payload : Fields) (w : World S)
      → (update_ticket_fields db env tenant_id ticket_id payload w).1.resumed ≡ w.resumed
  unfolding update_ticket_fields get_tenant_ticket_or_404 write_fields
  resumed-update tenant_id ticket_id payload w = ground arith

-- From one world to the next at most one message is sent, and it meets the predicate.
abbrev pub SendsOnly : {S : Type 0} → (Resumed → Type 0) → World S → World S → Type 0
SendsOnly P w w' = (w'.resumed ≡ w.resumed) ⊎ ((r : Resumed) × P r × (w'.resumed ≡ r ∷ w.resumed))

module _ {S : Type 0} {A B : Type 0} (P : Resumed → Type 0) where
  -- A step that sends nothing, and what follows it.
  pub SendsOnly-quiet :
      (m : Handler (World S) A) (f : A → Handler (World S) B) (w : World S)
      → (m w).1.resumed ≡ w.resumed
      → ((a : A) → (m w).0 ≡ ok a → SendsOnly P (m w).1 (f a (m w).1).1)
      → SendsOnly P w ((m >>= f) w).1
  SendsOnly-quiet m f w quiet next = elim (Result-cases (m w).0) [
    | inr (e, failed) ↦ rw failed (inl quiet)
    | inl (a, went) ↦ rw went (from_here a (next a went))
  ]
    where
      from_here : (a : A) → SendsOnly P (m w).1 (f a (m w).1).1 → SendsOnly P w (f a (m w).1).1
      from_here a (inl same) = inl (same ∙ quiet)
      from_here a (inr (r, p, one)) = inr (r, p, one ∙ ap (λ rs. r ∷ rs) quiet)

  -- A step that sends, and what follows it and sends nothing.
  pub SendsOnly-then :
      (m : Handler (World S) A) (f : A → Handler (World S) B) (w : World S)
      → SendsOnly P w (m w).1
      → ((a : A) (u : World S) → (f a u).1.resumed ≡ u.resumed)
      → SendsOnly P w ((m >>= f) w).1
  SendsOnly-then m f w sent quiet = elim (Result-cases (m w).0) [
    | inr (e, failed) ↦ rw failed sent
    | inl (a, went) ↦ rw went (to_there a sent)
  ]
    where
      to_there : (a : A) → SendsOnly P w (m w).1 → SendsOnly P w (f a (m w).1).1
      to_there a (inl same) = inl (quiet a (m w).1 ∙ same)
      to_there a (inr (r, p, one)) = inr (r, p, quiet a (m w).1 ∙ one)

module _ {S : Type 0} (env : Env S) (P : Resumed → Type 0) where
  SendsOnly-send :
      (message : Resumed) (w : World S) → P message → SendsOnly P w (send env message w).1
  unfolding send
  SendsOnly-send message w p = elim (Option-cases (env.send_task_success message w.table)) [
    | inl refused ↦ rw (refused, send) (inl refl)
    | inr (table, taken) ↦ rw (taken, send) (inr (message, p, refl))
  ]

  -- A resumption is refused and sends nothing, or sends its one message.
  pub SendsOnly-resume :
      (item : Ticket) (approved : Bool) (plan : Option Value) (w : World S)
      → P (record { task_token = task_token item; approved = approved; selected_plan = plan })
      → SendsOnly P w (resume_workflow env item approved plan w).1
  unfolding resume_workflow
  SendsOnly-resume item approved plan w p = elim (Bool-cases (truthy (task_token item))) [
    | inr missing ↦ rw missing (inl refl)
    | inl there ↦ rw there (
        SendsOnly-send
          (record { task_token = task_token item; approved = approved; selected_plan = plan }) w p)
  ]

pub quiet-lift :
    {S A B : Type 0} (r : Result A) (f : A → Handler (World S) B) (u : World S)
    → ((a : A) → (f a u).1.resumed ≡ u.resumed)
    → ((lift r >>= f) u).1.resumed ≡ u.resumed
quiet-lift (ok a) f u quiet = quiet a
quiet-lift (err e) f u quiet = refl
