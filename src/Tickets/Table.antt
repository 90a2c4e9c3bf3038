-- ===== src/Tickets/Table.antt =====
-- What the ticket handlers need of the services behind them: the DynamoDB table, Step Functions
-- and the agent that writes plans are parameters; the effects of a request are its world.

use xoc_api_aws.Base.{
  ℕ, String, ◌≡◌, refl, arith, Bool, true, false, ◌&&◌, ◌||◌, Option, none, some, List, ◌∷◌, ◌==◌,
  if◌then◌else◌,
}
use xoc_api_aws.Base.Text.{strip, upper}
use xoc_api_aws.Base.Value.{Value, null, Fields, str}
use xoc_api_aws.Base.Outcome.{Result, not_found, or_error, Handler}
use xoc_api_aws.Tickets.Item.{Ticket, tenant_pk, ticket_sk, ticket_lookup_pk}

abbrev pub same_key : String → String → String → String → Bool
same_key p k p' k' = p == p' && k == k'

-- A DynamoDB table of tickets. `update_item` is the SET of an item that is there; the laws are
-- those of a consistent read behind a write. The index `TicketLookupIndex` follows the table with
-- a delay, so of what it returns only the key that was asked for is known.
pub record Table (S : Type 0) : Type 0 where
  pub get_item : S → String → String → Option Ticket
  pub put_item : S → Ticket → S
  pub update_item : S → String → String → (Ticket → Ticket) → S
  pub delete_item : S → String → String → S
  pub query_lookup : S → String → Option Ticket
  pub get-put :
      (s : S) (t : Ticket) (p k : String)
      → get_item (put_item s t) p k ≡ (if same_key t.pk t.sk p k then some t else get_item s p k)
  pub get-update :
      (s : S) (t : Ticket) (p k : String) (f : Ticket → Ticket) (p' k' : String)
      → get_item s p k ≡ some t
      → get_item (update_item s p k f) p' k'
        ≡ (if same_key p k p' k' then some (f t) else get_item s p' k')
  pub get-delete :
      (s : S) (p k p' k' : String)
      → get_item (delete_item s p k) p' k' ≡ (if same_key p k p' k' then none else get_item s p' k')

-- A `send_task_success` that the workflow took: the token, whether it was approved, and the plan.
pub record Resumed : Type 0 where
  pub task_token : Value
  pub approved : Bool
  pub selected_plan : Option Value

-- An event of the bus, a push for the creator of a ticket, as far as the tickets decide them.
pub record TicketEvent : Type 0 where
  pub name : String
  pub tenant_id : ℕ
  pub ticket_id : String

pub record Push : Type 0 where
  pub tenant_id : ℕ
  pub ticket_id : String
  pub recipient : Value
  pub event_type : String

-- The table and what has been sent so far, the last first.
pub record World (S : Type 0) : Type 0 where
  pub table : S
  pub resumed : List Resumed
  pub events : List TicketEvent
  pub pushes : List Push

-- One request's view of the outside: the clock, the new id, Step Functions, and the worker that
-- asks the agent for plans. `send_task_success` refuses by `none`; when it accepts, the workflow
-- runs on, and the table it gives is the one that the handler meets when it goes on.
pub record Env (S : Type 0) : Type 0 where
  pub now : String
  pub new_id : String
  pub send_task_success : Resumed → S → Option S
  pub assess : Fields → Result Fields

-- The write, where there is an item and it meets the condition.
abbrev when_met : {S : Type 0} → (Ticket → Bool) → S → Option Ticket → Option S
when_met condition s none = none
when_met condition s (some t) = if condition t then some s else none

when_met-some :
    {S : Type 0} (condition : Ticket → Bool) (s : S) (o : Option Ticket) (s' : S)
    → when_met condition s o ≡ some s'
    → (t : Ticket) × (o ≡ some t) × (condition t ≡ true) × (s ≡ s')
when_met-some condition s none s' h = cc
when_met-some condition s (some t) s' h = (t, refl, ground arith, ground arith)

module _ {S : Type 0} (db : Table S) where
  -- get_tenant_ticket_or_none
  unfoldable pub get_tenant_ticket_or_none : ℕ → String → S → Option Ticket
  get_tenant_ticket_or_none tenant_id ticket_id s =
      db.get_item s (tenant_pk tenant_id) (ticket_sk ticket_id)

  unfoldable pub get_tenant_ticket_or_404 : ℕ → String → Handler (World S) Ticket
  unfolding get_tenant_ticket_or_none
  get_tenant_ticket_or_404 tenant_id ticket_id w = (
    or_error (get_tenant_ticket_or_none tenant_id ticket_id w.table) (not_found "Ticket not found"),
    w,
  )

  -- get_ticket_by_id_or_none
  unfoldable pub get_ticket_by_id_or_none : String → S → Option Ticket
  get_ticket_by_id_or_none ticket_id s = db.query_lookup s (ticket_lookup_pk ticket_id)

  -- `table.update_item` with a ConditionExpression that only an existing item can meet: `none` is
  -- the ConditionalCheckFailedException
  unfoldable pub update_if : ℕ → String → (Ticket → Bool) → (Ticket → Ticket) → S → Option S
  update_if tenant_id ticket_id condition change s =
      when_met condition (db.update_item s (tenant_pk tenant_id) (ticket_sk ticket_id) change)
        (db.get_item s (tenant_pk tenant_id) (ticket_sk ticket_id))

  -- A conditional write that went through has met an item with the condition.
  pub update_if-some :
      (tenant_id : ℕ) (ticket_id : String) (condition : Ticket → Bool) (change : Ticket → Ticket)
      (s s' : S)
      → update_if tenant_id ticket_id condition change s ≡ some s'
      → (t : Ticket) × (db.get_item s (tenant_pk tenant_id) (ticket_sk ticket_id) ≡ some t)
        × (condition t ≡ true)
        × (db.update_item s (tenant_pk tenant_id) (ticket_sk ticket_id) change ≡ s')
  unfolding update_if
  update_if-some tenant_id ticket_id condition change s s' h = when_met-some condition _ _ s' h

-- The event type of build_notification_event_for_ticket_status, of notifications/events.py.
unfoldable pub status_event_type : String → Option String
unfolding strip upper
status_event_type status =
    let normalized = upper (strip status) in
    if normalized == "PREAPROBADO"
    then some "ticket.approval_required"
    else if normalized == "DERIVED"
    then some "ticket.derived"
    else if normalized == "APROBADO"
    then some "ticket.approved"
    else if normalized == "RECHAZADO"
    then some "ticket.rejected"
    else if normalized == "RESUELTO"
    then some "ticket.resolved"
    else if normalized == "FALLIDO"
    then some "ticket.failed"
    else if normalized == "FAILED"
    then some "ticket.failed"
    else if normalized == "DERIVADO"
    then some "ticket.derived"
    else none

-- `str(creator_user_id).strip()` is empty, or there is no creator
abbrev pub no_creator : Value → Bool
no_creator null = true
no_creator v = elim (str v) [ none ↦ false | some s ↦ strip s == "" ]

module _ {S : Type 0} (db : Table S) where
  -- publish_ticket_status_notification, of notifications/tickets.py, when the bus takes the event:
  -- the ticket itself says who is told. (It never raises, and its answer is not used.)
  unfoldable pub publish_ticket_status_notification : ℕ → String → String → World S → World S
  unfolding status_event_type get_tenant_ticket_or_none
  publish_ticket_status_notification tenant_id ticket_id status w =
      elim (get_tenant_ticket_or_none db tenant_id (strip ticket_id) w.table) [
        | none ↦ w
        | some t ↦ elim (status_event_type status) [
          | none ↦ w
          | some event_type ↦
              if no_creator t.created_by_user_id || strip ticket_id == "" then w else record w {
                pushes =
                    record {
                      tenant_id = tenant_id;
                      ticket_id = strip ticket_id;
                      recipient = t.created_by_user_id;
                      event_type = event_type;
                    }
                    ∷ w.pushes;
              }
        ]
      ]

-- _emit_event, when the bus takes the event; a failure is only logged
abbrev pub emit_event : {S : Type 0} → String → ℕ → String → World S → World S
emit_event name tenant_id ticket_id w = record w {
  events = record { name = name; tenant_id = tenant_id; ticket_id = ticket_id } ∷ w.events;
}
