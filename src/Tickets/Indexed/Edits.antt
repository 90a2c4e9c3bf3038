-- ===== src/Tickets/Indexed/Edits.antt =====
-- The endpoints that create and edit tickets keep the index fields right.
use xoc_api_aws.Base.{ℕ, String, ◌≡◌, ◌∙◌, ap, ◌≢◌, inl, inr, Option, none, some, Bool-cases}
use xoc_api_aws.Base.Tests.{eqb}
use xoc_api_aws.Base.{not}
use xoc_api_aws.Base.Value.{Value, null, text, truthy, Fields, get, get_or, num}
use xoc_api_aws.Base.Outcome.{ok, lift, or_error-ok, require, validation}
use xoc_api_aws.Tickets.Item.{Ticket, tenant_pk, ticket_sk, build_new_ticket_item, created_or}
use xoc_api_aws.Tickets.Table.{Table, World, Env, get_tenant_ticket_or_404}
use xoc_api_aws.Tickets.Update.{
  update_ticket_fields, payload_status, has_updates, set_fields, write_fields, changed_item,
}
use xoc_api_aws.Tickets.Claims.{claim_user, optional_int, claim_tenant}
use xoc_api_aws.Tickets.Edit.{
  store_new, create_ticket, create_ticket_from_agent, create_ticket_from_agent_endpoint,
  agent_payload,
}
use xoc_api_aws.Tickets.Indexed.{IsIndexed, WellIndexed, update-WellIndexed, put-WellIndexed}
use xoc_api_aws.Tickets.Indexed.Rules.{KeepsIndex, WellIndexed-bind, KeepsIndex-bind_lift}
use xoc_api_aws.Tickets.Indexed.Items.{
  NotNullStatus, payload_status-none, set_fields-IsIndexed, set_status-IsIndexed, build-IsIndexed,
}

module _ {S : Type 0} (db : Table S) (env : Env S) where
  found_item :
      (tenant_id : ℕ) (ticket_id : String) (w : World S) (item : Ticket)
      → (get_tenant_ticket_or_404 db tenant_id ticket_id w).0 ≡ ok item
      → db.get_item w.table (tenant_pk tenant_id) (ticket_sk ticket_id) ≡ some item
  unfolding get_tenant_ticket_or_404
  found_item tenant_id ticket_id w item h = or_error-ok _ _ h

  write_fields-WellIndexed :
      (tenant_id : ℕ) (ticket_id : String) (payload : Fields) (item : Ticket)
      (status : Option (Option String)) (w : World S)
      → status ≢ some none
      → db.get_item w.table (tenant_pk tenant_id) (ticket_sk ticket_id) ≡ some item
      → WellIndexed db w.table
      → WellIndexed db (write_fields db env tenant_id ticket_id payload item status w).1.table
  unfolding write_fields get_tenant_ticket_or_404 changed_item
  write_fields-WellIndexed tenant_id ticket_id payload item status w not_null there well =
      elim (Bool-cases (has_updates payload)) [
        | inr nothing ↦ rw nothing well
        | inl something ↦ rw something (
            update-WellIndexed db w.table _ _ item _ well there (
              set_status-IsIndexed env.now tenant_id ticket_id (created_or env.now item) status
                (set_fields env.now payload item) not_null
                (set_fields-IsIndexed env.now _ _ payload item (well.each _ _ item there))))
      ]

  pub update_ticket_fields-KeepsIndex :
      (tenant_id : ℕ) (ticket_id : String) (payload : Fields)
      → NotNullStatus payload
      → KeepsIndex db (update_ticket_fields db env tenant_id ticket_id payload)
  unfolding update_ticket_fields get_tenant_ticket_or_404
  update_ticket_fields-KeepsIndex tenant_id ticket_id payload not_null = record {
    at = λ w well.
        WellIndexed-bind db (get_tenant_ticket_or_404 db tenant_id ticket_id) _ w well λ item there.
          WellIndexed-bind db (lift (payload_status payload)) _ w well λ status asked.
            write_fields-WellIndexed tenant_id ticket_id payload item status w
              (λ is_null. not_null (payload_status-none payload (asked ∙ ap ok is_null)))
              (found_item tenant_id ticket_id w item there) well;
  }

  read-KeepsIndex :
      (tenant_id : ℕ) (ticket_id : String)
      → KeepsIndex db (get_tenant_ticket_or_404 db tenant_id ticket_id)
  unfolding get_tenant_ticket_or_404
  read-KeepsIndex tenant_id ticket_id = record { at = λ w well. well }

  store_new-KeepsIndex :
      (tenant_id : ℕ) (t : Ticket)
      → IsIndexed t.pk t.sk t
      → KeepsIndex db (store_new db env tenant_id t)
  unfolding store_new
  store_new-KeepsIndex tenant_id t new = record {
    at = λ w well. put-WellIndexed db w.table t well new;
  }

  -- POST /tickets keeps every stored ticket listed under its own status and id.
  pub create_ticket-KeepsIndex :
      (payload claims : Fields) → KeepsIndex db (create_ticket db env payload claims)
  unfolding create_ticket
  create_ticket-KeepsIndex payload claims =
      KeepsIndex-bind_lift db (claim_tenant claims) _ λ tenant_id _.
        KeepsIndex-bind_lift db
          (require (truthy (get "subject" payload)) (validation "subject is required")) _
          λ _ _. KeepsIndex-bind_lift db (optional_int (claim_user claims)) _ λ user_id _.
            KeepsIndex-bind_lift db
              (build_new_ticket_item env.now env.new_id payload tenant_id
                (elim user_id [ none ↦ null | some n ↦ num n ]))
              _
              λ t built.
                store_new-KeepsIndex tenant_id t
                  (build-IsIndexed env.now env.new_id payload tenant_id _ t built)

  create_from_agent-KeepsIndex :
      (tenant_id : ℕ) (subject description status severity metadata user_id : Value)
      → KeepsIndex db (
          create_ticket_from_agent db env tenant_id subject description status severity metadata
            user_id)
  unfolding create_ticket_from_agent
  create_from_agent-KeepsIndex tenant_id subject description status severity metadata user_id =
      KeepsIndex-bind_lift db (agent_payload subject description status severity metadata) _
        λ payload _.
          KeepsIndex-bind_lift db
            (build_new_ticket_item env.now env.new_id payload tenant_id user_id) _
            λ t built.
              store_new-KeepsIndex tenant_id t
                (build-IsIndexed env.now env.new_id payload tenant_id user_id t built)

  -- POST /tickets/agent keeps every stored ticket listed under its own status and id.
  pub create_from_agent_endpoint-KeepsIndex :
      (payload claims : Fields)
      → KeepsIndex db (create_ticket_from_agent_endpoint db env payload claims)
  unfolding create_ticket_from_agent_endpoint
  create_from_agent_endpoint-KeepsIndex payload claims =
      KeepsIndex-bind_lift db (claim_tenant claims) _ λ tenant_id _.
        KeepsIndex-bind_lift db
          (require (not (eqb tenant_id 0)) (validation "tenant_id not found in request context")) _
          λ _ _.
            KeepsIndex-bind_lift db
              (require (truthy (get "subject" payload)) (validation "subject is required")) _
              λ _ _.
                create_from_agent-KeepsIndex tenant_id (get "subject" payload)
                  (get "description" payload) (get_or "status" (text "PENDING") payload)
                  (get_or "severity" (text "medium") payload) (get "metadata" payload)
                  (claim_user claims)
