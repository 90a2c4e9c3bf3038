-- ===== src/Tickets/Automation.antt =====
-- The outcome of an assessment on the ticket: shared/ticket_automation_sync.py.
use xoc_api_aws.Base.{
  ℕ, String, Bool, true, false, ◌&&◌, ◌||◌, Option, none, some, List, [], ◌∷◌, ◌==◌, if◌then◌else◌,
  eqb,
}
use xoc_api_aws.Base.Value.{Value, null, text, dict, end, field}
use xoc_api_aws.Tickets.Item.{Ticket, status_index_pk}
use xoc_api_aws.Tickets.Table.{Table, World, update_if, publish_ticket_status_notification}

-- ASSESSMENT_MESSAGES
abbrev pub assessment_messages : List (String × String)
assessment_messages =
    (
      "CANNOT_RESOLVE",
      "VICTOR no puede resolver este ticket automáticamente. Requiere revisión manual.",
    )
    ∷ (
      "VICTOR_NOT_CONFIGURED",
      "No hay un endpoint de VICTOR disponible para evaluar el ticket. Requiere revisión manual.",
    )
    ∷ (
      "VICTOR_TIMEOUT",
      "La evaluación de VICTOR agotó el tiempo de espera. Requiere revisión manual.",
    )
    ∷ (
      "VICTOR_ACCESS_DENIED",
      "No se pudo completar la evaluación por un rechazo de acceso de VICTOR. Requiere revisión manual.",
    )
    ∷ (
      "VICTOR_UNAVAILABLE",
      "No se pudo completar la evaluación de VICTOR por un error de comunicación o respuesta. Requiere revisión manual.",
    )
    ∷ (
      "NO_EXECUTABLE_PLAN",
      "VICTOR no generó un plan de remediación ejecutable. Requiere revisión manual.",
    )
    ∷ []

unfoldable pub message_of : String → List (String × String) → Option String
message_of code [] = none
message_of code ((c, message) ∷ messages) =
    if c == code then some message else message_of code messages

-- An attribute that is missing or NULL.
abbrev pub is_null : Value → Bool
is_null null = true
is_null _ = false

abbrev pub is_text : String → Value → Bool
is_text s (text t) = t == s
is_text s _ = false

abbrev pub has_status : String → Option String → Bool
has_status s none = false
has_status s (some t) = t == s

-- _assessment_guard. No code stores a NULL as automation_assessment, so there it stands for a missing
-- attribute.
unfoldable pub assessment_guard : ℕ → Ticket → Bool
assessment_guard tenant_id t =
    eqb t.tenant_id tenant_id
    && has_status "PENDING" t.status
    && is_null t.automation_assessment
    && (is_null t.execution_status || is_text "STARTED" t.execution_status)
    && is_null t.action_plan
    && is_null t.action_plans
    && is_null t.pending_decision

abbrev pub outcome_of : String → String
outcome_of code = if code == "CANNOT_RESOLVE" then "CANNOT_RESOLVE" else "ASSESSMENT_FAILED"

abbrev assessment : String → String → String → Value
assessment code message now = dict (
    field "outcome" (text (outcome_of code)) (
      field "reason_code" (text code)
        (field "message" (text message) (field "completed_at" (text now) end))))

-- The SET of sync_unresolvable_assessment.
unfoldable pub assessed : ℕ → String → String → String → Ticket → Ticket
assessed tenant_id code message now t = record t {
  status = some "DERIVADO";
  execution_status = text (outcome_of code);
  automation_assessment = assessment code message now;
  execution_summary = text message;
  updated_at = now;
  gsi1pk = status_index_pk tenant_id "DERIVADO";
}

-- The two writes of record_automation_started and their conditions.
unfoldable pub takes_arn : ℕ → String → Ticket → Bool
takes_arn tenant_id arn t =
    eqb t.tenant_id tenant_id && (is_null t.execution_arn || is_text arn t.execution_arn)

unfoldable pub with_arn : String → Ticket → Ticket
with_arn arn t = record t { execution_arn = text arn }

unfoldable pub takes_start : ℕ → String → Ticket → Bool
takes_start tenant_id arn t =
    assessment_guard tenant_id t && is_text arn t.execution_arn && is_null t.execution_status

unfoldable pub started : String → Ticket → Ticket
started now t = record t { execution_status = text "STARTED"; updated_at = now }

module _ {S : Type 0} (db : Table S) where
  abbrev pub after_write : ℕ → String → World S → Option S → Bool × World S
  after_write tenant_id ticket_id w none = (false, w)
  after_write tenant_id ticket_id w (some s) = (
    true,
    publish_ticket_status_notification db tenant_id ticket_id "DERIVADO" (record w { table = s }),
  )

  abbrev pub with_message : ℕ → String → String → String → World S → Option String → Bool × World S
  with_message tenant_id ticket_id code now w none = (false, w)
  with_message tenant_id ticket_id code now w (some message) = after_write tenant_id ticket_id w (
      update_if db tenant_id ticket_id (assessment_guard tenant_id)
        (assessed tenant_id code message now) w.table)

  -- sync_unresolvable_assessment: its answer and the world; an unknown code is a KeyError, which it
  -- catches
  unfoldable pub sync_unresolvable_assessment :
      ℕ → String → String → String → World S → Bool × World S
  sync_unresolvable_assessment tenant_id ticket_id code now w =
      with_message tenant_id ticket_id code now w (message_of code assessment_messages)

  abbrev pub or_kept : S → Option S → S
  or_kept s none = s
  or_kept s (some s') = s'

  abbrev pub after_arn : ℕ → String → String → String → S → Option S → S
  after_arn tenant_id ticket_id arn now s none = s
  after_arn tenant_id ticket_id arn now s (some s') =
      or_kept s' (update_if db tenant_id ticket_id (takes_start tenant_id arn) (started now) s')

  -- record_automation_started, of the table
  unfoldable pub record_automation_started : ℕ → String → String → String → S → S
  record_automation_started tenant_id ticket_id arn now s =
      after_arn tenant_id ticket_id arn now s
        (update_if db tenant_id ticket_id (takes_arn tenant_id arn) (with_arn arn) s)

-- The calls of the two operations.
pub data Op : Type 0 where
  assess : ℕ → String → String → String → Op
  start : ℕ → String → String → String → Op

module _ {S : Type 0} (db : Table S) where
  unfoldable pub step : World S → Op → World S
  step w (assess tenant_id ticket_id code now) =
      (sync_unresolvable_assessment db tenant_id ticket_id code now w).1
  step w (start tenant_id ticket_id arn now) = record w {
    table = record_automation_started db tenant_id ticket_id arn now w.table;
  }

  unfoldable pub run : World S → List Op → World S
  run w [] = w
  run w (op ∷ ops) = run (step w op) ops
