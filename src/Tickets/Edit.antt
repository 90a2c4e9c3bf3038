-- ===== src/Tickets/Edit.antt =====
-- The endpoints of handlers/domains/tickets_dynamo.py that create, edit and delete tickets. A
-- handler answers with the ticket that the response shows.

use xoc_api_aws.Base.{ℕ, String, Bool, true, false, not, none, some}
use xoc_api_aws.Base.Tests.{eqb}
use xoc_api_aws.Base.Value.{
  Value, null, num, text, dict, Fields, end, field, find, get, get_or, put, or_else, truthy,
}
use xoc_api_aws.Base.Outcome.{
  crash, Result, ok, err, validation, and_then, require, Handler, return, lift, modify, ◌>>=◌, ◌>>◌,
}
use xoc_api_aws.Tickets.Item.{Ticket, tenant_pk, ticket_sk, build_new_ticket_item}
use xoc_api_aws.Tickets.Table.{
  Table, World, Env, get_tenant_ticket_or_404, publish_ticket_status_notification, emit_event,
}
use xoc_api_aws.Tickets.Update.{update_ticket_fields}
use xoc_api_aws.Tickets.Claims.{claim_tenant, claim_user, optional_int}

abbrev pub has_key : String → Fields → Bool
has_key k fs = elim (find k fs) [ none ↦ false | some _ ↦ true ]

-- `str(updated.get("status") or "")`
abbrev pub status_text : Ticket → String
status_text t = elim t.status [ none ↦ "" | some s ↦ s ]

-- `{**d, **e}`
merge : Fields → Fields → Fields
unfolding put
merge fs end = fs
merge fs (field k v gs) = merge (put k v fs) gs

-- {"source": "agent", **(metadata or {})}; what is neither empty nor a dictionary cannot be unpacked
agent_metadata : Value → Result Value
unfolding merge or_else
agent_metadata metadata = elim (or_else metadata (dict end)) [
  | dict fs ↦ ok (dict (merge (field "source" (text "agent") end) fs))
  | _ ↦ err crash
]

-- The payload that create_ticket_from_agent hands on. (The priority and the metadata that it also
-- holds are fields that build_new_ticket_item does not read.)
unfoldable pub agent_payload : Value → Value → Value → Value → Value → Result Fields
unfolding agent_metadata
agent_payload subject description status severity metadata =
    and_then (agent_metadata metadata) λ vetted. ok (
      field "subject" subject (
        field "description" (or_else description (text "")) (
          field "status" (or_else status (text "PENDING"))
            (field "priority" (or_else severity (text "medium")) (field "metadata" vetted end)))))

module _ {S : Type 0} (db : Table S) (env : Env S) where
  -- put_item, the event, and the answer
  unfoldable pub store_new : ℕ → Ticket → Handler (World S) Ticket
  store_new tenant_id item = do
    modify (λ w. record w { table = db.put_item w.table item })
    modify (emit_event "ticket.created" tenant_id item.ticket_id)
    return item

  unfoldable pub create_ticket : Fields → Fields → Handler (World S) Ticket
  create_ticket payload claims = do
    tenant_id ← lift (claim_tenant claims)
    lift (require (truthy (get "subject" payload)) (validation "subject is required"))
    user_id ← lift (optional_int (claim_user claims))
    item ← lift (
        build_new_ticket_item env.now env.new_id payload tenant_id
          (elim user_id [ none ↦ null | some n ↦ num n ]))
    store_new tenant_id item

  -- create_ticket_from_agent
  unfoldable pub create_ticket_from_agent :
      ℕ → Value → Value → Value → Value → Value → Value → Handler (World S) Ticket
  create_ticket_from_agent tenant_id subject description status severity metadata user_id = do
    payload ← lift (agent_payload subject description status severity metadata)
    item ← lift (build_new_ticket_item env.now env.new_id payload tenant_id user_id)
    store_new tenant_id item

  -- POST /tickets/agent
  unfoldable pub create_ticket_from_agent_endpoint : Fields → Fields → Handler (World S) Ticket
  create_ticket_from_agent_endpoint payload claims = do
    tenant_id ← lift (claim_tenant claims)
    lift (require (not (eqb tenant_id 0)) (validation "tenant_id not found in request context"))
    lift (require (truthy (get "subject" payload)) (validation "subject is required"))
    create_ticket_from_agent tenant_id (get "subject" payload) (get "description" payload)
        (get_or "status" (text "PENDING") payload) (get_or "severity" (text "medium") payload)
        (get "metadata" payload) (claim_user claims)

  -- What update_ticket sends once the fields are written.
  unfoldable pub after_update : Bool → ℕ → String → Ticket → World S → World S
  after_update true tenant_id ticket_id updated w =
      publish_ticket_status_notification db tenant_id ticket_id (status_text updated)
        (emit_event "ticket.status_changed" tenant_id ticket_id w)
  after_update false tenant_id ticket_id updated w =
      emit_event "ticket.updated" tenant_id ticket_id w

  -- PUT /tickets/{ticket_id}
  unfoldable pub update_ticket : String → Fields → Fields → Handler (World S) Ticket
  update_ticket ticket_id payload claims = do
    tenant_id ← lift (claim_tenant claims)
    updated ← update_ticket_fields db env tenant_id ticket_id payload
    modify (after_update (has_key "status" payload) tenant_id ticket_id updated)
    return updated

  -- DELETE /tickets/{ticket_id}
  unfoldable pub delete_ticket : String → Fields → Handler (World S) (Unit {0})
  delete_ticket ticket_id claims = do
    tenant_id ← lift (claim_tenant claims)
    get_tenant_ticket_or_404 db tenant_id ticket_id
    modify (λ w. record w {
      table = db.delete_item w.table (tenant_pk tenant_id) (ticket_sk ticket_id);
    })
    modify (emit_event "ticket.deleted" tenant_id ticket_id)
