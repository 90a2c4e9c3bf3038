-- ===== src/Tickets/Item.antt =====
-- The ticket item of shared/tickets_store.py: its keys, its index fields and its first version.
use xoc_api_aws.Base.{ℕ, String, Option, none, some, List, [], ◌∷◌, ◌==◌, if◌then◌else◌, any}
use Prim.Native.String
use xoc_api_aws.Base.Text.{strip, upper}
use xoc_api_aws.Base.Decimal.{show_nat}
use xoc_api_aws.Base.Value.{Value, null, text, Fields, get, or_else}
use xoc_api_aws.Base.Outcome.{Result, ok, err, crash, validation, and_then}

-- VALID_STATUSES
abbrev pub valid_statuses : List String
valid_statuses =
    "PENDING" ∷ "EXECUTED" ∷ "FAILED" ∷ "DERIVED" ∷ "PREAPROBADO" ∷ "APROBADO" ∷ "RECHAZADO"
    ∷ "DERIVADO" ∷ "PENDIENTE_EJECUCION" ∷ "EN_EJECUCION" ∷ "RESUELTO" ∷ "FALLIDO" ∷ []

abbrev pub invalid_status : String
invalid_status =
    String.◌++◌
      "Invalid status. Valid: APROBADO, DERIVADO, DERIVED, EN_EJECUCION, EXECUTED, FAILED, "
      "FALLIDO, PENDIENTE_EJECUCION, PENDING, PREAPROBADO, RECHAZADO, RESUELTO"

-- normalize_status; a value that is no text and not None has no `strip`
unfoldable pub normalize_status : Value → Result (Option String)
unfolding strip upper
normalize_status null = ok none
normalize_status (text s) =
    let normalized = upper (strip s) in
    if any (λ t. t == normalized) valid_statuses
    then ok (some normalized)
    else err (validation invalid_status)
normalize_status _ = err crash

infixr 66 ◌⧺◌
abbrev ◌⧺◌ : String → String → String
s ⧺ t = String.◌++◌ s t

unfoldable pub tenant_pk : ℕ → String
tenant_pk tenant_id = "TICKET#" ⧺ show_nat tenant_id

unfoldable pub ticket_sk : String → String
ticket_sk ticket_id = "TICKET#" ⧺ ticket_id

unfoldable pub status_index_pk : ℕ → String → String
status_index_pk tenant_id status = "TICKET#" ⧺ show_nat tenant_id ⧺ "#STATUS#" ⧺ status

unfoldable pub status_index_sk : String → String → String
status_index_sk created_at ticket_id = created_at ⧺ "#" ⧺ ticket_id

unfoldable pub ticket_lookup_pk : String → String
ticket_lookup_pk ticket_id = "TICKET#" ⧺ ticket_id

unfoldable pub ticket_lookup_sk : ℕ → String
ticket_lookup_sk tenant_id = "TICKET#" ⧺ show_nat tenant_id

unfoldable pub global_created_sk : String → ℕ → String → String
global_created_sk created_at tenant_id ticket_id =
    created_at ⧺ "#" ⧺ show_nat tenant_id ⧺ "#" ⧺ ticket_id

-- The fields of a stored ticket that the program reads or writes.
pub record Ticket : Type 0 where
  pub pk : String
  pub sk : String
  pub ticket_id : String
  pub tenant_id : ℕ
  pub created_by_user_id : Value
  pub subject : Value
  pub description : Value
  pub status : Option String
  pub created_at : String
  pub updated_at : String
  pub executed_at : Option String
  pub action_plan : Value
  pub approved_by_user_id : Option ℕ
  pub approved_at : Option String
  pub rejected_by_user_id : Option ℕ
  pub rejected_at : Option String
  pub execution_status : Value
  pub execution_summary : Value
  pub execution_logs : Value
  pub execution_arn : Value
  pub pending_decision : Value
  pub action_plans : Value
  pub automation_assessment : Value
  pub gsi1pk : String
  pub gsi1sk : String
  pub gsi2pk : String
  pub gsi2sk : String
  pub gsi3pk : String
  pub gsi3sk : String

-- `item.update(build_secondary_index_fields(tenant_id, ticket_id, status, created_at))`
unfoldable pub with_index_fields : ℕ → String → String → String → Ticket → Ticket
with_index_fields tenant_id ticket_id status created_at t = record t {
  gsi1pk = status_index_pk tenant_id status;
  gsi1sk = status_index_sk created_at ticket_id;
  gsi2pk = ticket_lookup_pk ticket_id;
  gsi2sk = ticket_lookup_sk tenant_id;
  gsi3pk = "ALL_TICKETS";
  gsi3sk = global_created_sk created_at tenant_id ticket_id;
}

-- `item.get("created_at") or now`
abbrev pub created_or : String → Ticket → String
created_or now t = if t.created_at == "" then now else t.created_at

-- The item of a new ticket before its index fields are added.
abbrev pub blank_ticket : String → String → ℕ → Value → Value → Value → String → Ticket
blank_ticket now ticket_id tenant_id user_id subject description status = record {
  pk = tenant_pk tenant_id;
  sk = ticket_sk ticket_id;
  ticket_id = ticket_id;
  tenant_id = tenant_id;
  created_by_user_id = user_id;
  subject = subject;
  description = description;
  status = some status;
  created_at = now;
  updated_at = now;
  executed_at = none;
  action_plan = null;
  approved_by_user_id = none;
  approved_at = none;
  rejected_by_user_id = none;
  rejected_at = none;
  execution_status = null;
  execution_summary = null;
  execution_logs = null;
  execution_arn = null;
  pending_decision = null;
  action_plans = null;
  automation_assessment = null;
  gsi1pk = "";
  gsi1sk = "";
  gsi2pk = "";
  gsi2sk = "";
  gsi3pk = "";
  gsi3sk = "";
}

-- The item of a new ticket; a status of None would have no index key.
unfoldable pub finish_item :
    String → String → ℕ → Value → Value → Value → Option String → Result Ticket
finish_item now ticket_id tenant_id user_id subject description none = err crash
finish_item now ticket_id tenant_id user_id subject description (some status) = ok (
    with_index_fields tenant_id ticket_id status now
      (blank_ticket now ticket_id tenant_id user_id subject description status))

-- build_new_ticket_item, at the clock's reading and with the id that uuid4 gave. The status is
-- never None there, since "PENDING" stands in for a missing one.
unfoldable pub build_new_ticket_item : String → String → Fields → ℕ → Value → Result Ticket
build_new_ticket_item now ticket_id payload tenant_id user_id =
    and_then (normalize_status (or_else (get "status" payload) (text "PENDING"))) λ status.
      finish_item now ticket_id tenant_id user_id (get "subject" payload)
        (get "description" payload) status
