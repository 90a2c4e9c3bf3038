-- ===== src/Tickets/Update.antt =====
-- update_ticket_fields of shared/tickets_store.py.
use xoc_api_aws.Base.{
  ℕ, String, Bool, true, false, ◌||◌, Option, none, some, List, [], ◌∷◌, ◌==◌, if◌then◌else◌, any,
}
use xoc_api_aws.Base.Value.{Value, Fields, end, field, find, get_or}
use xoc_api_aws.Base.Outcome.{Result, ok, err, validation, and_then, Handler, lift, ◌>>=◌}
use xoc_api_aws.Tickets.Item.{
  Ticket, tenant_pk, ticket_sk, normalize_status, with_index_fields, created_or,
}
use xoc_api_aws.Tickets.Table.{Table, World, Env, get_tenant_ticket_or_404}

abbrev is_some : Option Value → Bool
is_some none = false
is_some (some _) = true

-- The keys of `updatable`.
abbrev pub updatable : List String
updatable =
    "subject" ∷ "description" ∷ "status" ∷ "execution_status" ∷ "execution_summary"
    ∷ "execution_logs" ∷ "execution_arn" ∷ "pending_decision" ∷ "action_plan" ∷ "action_plans" ∷ []

-- Whether `updates` ends up with something in it.
unfoldable pub has_updates : Fields → Bool
unfolding find
has_updates payload = any (λ key. is_some (find key payload)) updatable

-- The SETs of the fields but the status, and `updated_at`. A value of the model holds no float, so
-- `_dynamo_safe` leaves it as it is.
unfoldable pub set_fields : String → Fields → Ticket → Ticket
set_fields now payload t = record t {
  subject = get_or "subject" t.subject payload;
  description = get_or "description" t.description payload;
  execution_status = get_or "execution_status" t.execution_status payload;
  execution_summary = get_or "execution_summary" t.execution_summary payload;
  execution_logs = get_or "execution_logs" t.execution_logs payload;
  execution_arn = get_or "execution_arn" t.execution_arn payload;
  pending_decision = get_or "pending_decision" t.pending_decision payload;
  action_plan = get_or "action_plan" t.action_plan payload;
  action_plans = get_or "action_plans" t.action_plans payload;
  updated_at = now;
}

abbrev is_final : String → Bool
is_final status = status == "EXECUTED" || status == "RESUELTO"

-- The SETs of the status and of `executed_at`.
abbrev pub status_fields : String → String → Ticket → Ticket
status_fields now status t = record t {
  status = some status;
  executed_at = if is_final status then some now else t.executed_at;
}

-- The SETs of the status, of `executed_at` and of the index fields. The outer `none` is a payload
-- without a status, the inner one a status of None: then the index fields stay.
unfoldable pub set_status : String → ℕ → String → String → Option (Option String) → Ticket → Ticket
set_status now tenant_id ticket_id created_at none t = t
set_status now tenant_id ticket_id created_at (some none) t = record t { status = none }
set_status now tenant_id ticket_id created_at (some (some status)) t =
    with_index_fields tenant_id ticket_id status created_at (status_fields now status t)

-- The status that a payload asks for.
unfoldable pub asked_status : Option Value → Result (Option (Option String))
asked_status none = ok none
asked_status (some v) = and_then (normalize_status v) (λ status. ok (some status))

abbrev is_empty : Fields → Bool
is_empty end = true
is_empty (field _ _ _) = false

-- What is checked of a payload before anything is written.
unfoldable pub payload_status : Fields → Result (Option (Option String))
payload_status payload =
    if is_empty payload
    then err (validation "Request body is required")
    else asked_status (find "status" payload)

module _ {S : Type 0} (db : Table S) (env : Env S) where
  -- The SETs of a payload with its status.
  unfoldable pub changed_item :
      ℕ → String → Fields → Ticket → Option (Option String) → Ticket → Ticket
  changed_item tenant_id ticket_id payload item status t =
      set_status env.now tenant_id ticket_id (created_or env.now item) status
        (set_fields env.now payload t)

  -- What follows once the status of the payload has been read.
  unfoldable pub write_fields :
      ℕ → String → Fields → Ticket → Option (Option String) → Handler (World S) Ticket
  write_fields tenant_id ticket_id payload item status w =
      if has_updates payload
      then get_tenant_ticket_or_404 db tenant_id ticket_id (record w {
        table =
            db.update_item w.table (tenant_pk tenant_id) (ticket_sk ticket_id)
              (changed_item tenant_id ticket_id payload item status);
      })
      else (ok item, w)

  unfoldable pub update_ticket_fields : ℕ → String → Fields → Handler (World S) Ticket
  update_ticket_fields tenant_id ticket_id payload = do
    item ← get_tenant_ticket_or_404 db tenant_id ticket_id
    status ← lift (payload_status payload)
    write_fields tenant_id ticket_id payload item status
