-- ===== src/Tickets/Deletion.antt =====
-- What DELETE /tickets/{ticket_id} of handlers/domains/tickets_dynamo.py leaves in the table.
use xoc_api_aws.Base.{ℕ, String, ◌≡◌, ◌⊎◌, false, none, some, ◌∷◌}
use xoc_api_aws.Base.Value.{Fields}
use xoc_api_aws.Base.Outcome.{Error, Result, ok, err, not_found}
use xoc_api_aws.Tickets.Item.{Ticket, tenant_pk, ticket_sk}
use xoc_api_aws.Tickets.Table.{Table, World, same_key}
use xoc_api_aws.Tickets.Claims.{claim_tenant}

module _ {S : Type 0} (db : Table S) (ticket_id : String) (claims : Fields) (w : World S) where
  -- The ticket of the asker's tenant stood in the table and is gone, every other key reads as before,
  -- one event tells it, and nothing is sent to a workflow or to a user.
  pub record IsDeleted (w' : World S) : Type 0 where
    pub tenant_id : ℕ
    pub item : Ticket
    pub is_claimed : claim_tenant claims ≡ ok tenant_id
    pub stood : db.get_item w.table (tenant_pk tenant_id) (ticket_sk ticket_id) ≡ some item
    pub gone : db.get_item w'.table (tenant_pk tenant_id) (ticket_sk ticket_id) ≡ none
    pub others :
        (p k : String)
        → same_key (tenant_pk tenant_id) (ticket_sk ticket_id) p k ≡ false
        → db.get_item w'.table p k ≡ db.get_item w.table p k
    pub tells :
        w'.events
        ≡ record { name = "ticket.deleted"; tenant_id = tenant_id; ticket_id = ticket_id }
          ∷ w.events
    pub resumes_nothing : w'.resumed ≡ w.resumed
    pub pushes_nothing : w'.pushes ≡ w.pushes

  -- The claims name no tenant, or the tenant has no such ticket.
  abbrev pub IsMissing : Error → Type 0
  IsMissing e =
      (claim_tenant claims ≡ err e)
      ⊎ ((tenant_id : ℕ) × (claim_tenant claims ≡ ok tenant_id)
          × (db.get_item w.table (tenant_pk tenant_id) (ticket_sk ticket_id) ≡ none)
          × (e ≡ not_found "Ticket not found"))

  abbrev pub IsDeletion : Result (Unit {0}) × World S → Type 0
  IsDeletion (ok _, w') = IsDeleted w'
  IsDeletion (err e, w') = (w' ≡ w) × IsMissing e
