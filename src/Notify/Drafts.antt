-- ===== src/Notify/Drafts.antt =====
-- What the builders of notifications/events.py hand to the validation: the arguments, the payload and
-- the texts of the states of a ticket, which are those of the source, as they stand there.
use Prim.Native.String
use xoc_api_aws.Base.{ℕ, String, Option, none, some, List, [], ◌∷◌, ◌==◌, if◌then◌else◌}
use xoc_api_aws.Base.Tests.{eqb}
use xoc_api_aws.Base.Text.{strip}
use xoc_api_aws.Base.Decimal.{show_nat}
use xoc_api_aws.Base.Value.{num, text, Fields, end, field}
use xoc_api_aws.Notify.Normal.{value_of, metadata_of}

-- The arguments of build_notification_event.
pub record Draft : Type 0 where
  pub event_type : String
  pub tenant_id : String
  pub audience_type : String
  pub title : String
  pub body : String
  pub recipient_user_id : Option String
  pub deep_link : Option String
  pub priority : String
  pub resource_type : Option String
  pub resource_id : Option String
  pub dedupe_key : Option String
  pub metadata : Option Fields

-- The arguments of an event for all of a tenant, where the rest has its defaults.
abbrev pub tenant_event : String → String → String → String → Draft
tenant_event event_type tenant_id title body = record {
  event_type = event_type;
  tenant_id = tenant_id;
  audience_type = "TENANT_ALL";
  title = title;
  body = body;
  recipient_user_id = none;
  deep_link = none;
  priority = "normal";
  resource_type = none;
  resource_id = none;
  dedupe_key = none;
  metadata = none;
}

-- The payload that is validated.
unfoldable pub draft_fields : String → String → Draft → Fields
draft_fields now new_id d = field "version" (num 1) (
    field "eventId" (text (String.◌++◌ "evt-" new_id)) (
      field "eventType" (text d.event_type) (
        field "tenantId" (text d.tenant_id) (
          field "audienceType" (text d.audience_type) (
            field "recipientUserId" (value_of d.recipient_user_id) (
              field "title" (text d.title) (
                field "body" (text d.body) (
                  field "deepLink" (value_of d.deep_link) (
                    field "priority" (text d.priority) (
                      field "resourceType" (value_of d.resource_type) (
                        field "resourceId" (value_of d.resource_id) (
                          field "dedupeKey" (value_of d.dedupe_key) (
                            field "metadata" (metadata_of d.metadata)
                              (field "createdAt" (text now) end))))))))))))))

-- The texts with colons between them.
abbrev pub joined : List String → String
joined [] = ""
joined (s ∷ []) = s
joined (s ∷ ss) = String.◌++◌ s (String.◌++◌ ":" (joined ss))

-- A field of the metadata that is there for a text that is not empty.
abbrev pub text_field : String → Option String → Fields → Fields
text_field name none fs = fs
text_field name (some s) fs = if s == "" then fs else field name (text (strip s)) fs

-- The configurations of build_notification_event_for_ticket_status: type, title, body and priority.
abbrev pub event_config : List (String × String × String × String × String)
event_config =
    (
      "DERIVED", "ticket.derived", "Tu ticket requiere revisión manual",
      "La automatización no pudo continuar y tu ticket requiere atención manual. Revisa el detalle del ticket.",
      "high",
    )
    ∷ (
      "APROBADO", "ticket.approved", "Ticket aprobado",
      "Tu ticket fue aprobado y la automatizaciÃ³n continuarÃ¡.", "normal",
    )
    ∷ (
      "RECHAZADO", "ticket.rejected", "Ticket rechazado",
      "Tu ticket fue rechazado. Revisa el detalle para conocer el estado final.", "normal",
    )
    ∷ (
      "RESUELTO", "ticket.resolved", "Ticket resuelto",
      "La automatizaciÃ³n resolviÃ³ tu ticket correctamente.", "high",
    )
    ∷ (
      "FALLIDO", "ticket.failed", "Ticket no resuelto",
      "La automatizaciÃ³n no pudo resolver tu ticket. Revisa el detalle.", "high",
    )
    ∷ (
      "FAILED", "ticket.failed", "Ticket no resuelto",
      "La automatizaciÃ³n no pudo resolver tu ticket. Revisa el detalle.", "high",
    )
    ∷ (
      "DERIVADO", "ticket.derived", "Tu ticket requiere revisión manual",
      "La automatización no pudo continuar y tu ticket requiere atención manual. Revisa el detalle del ticket.",
      "high",
    )
    ∷ []

unfoldable pub config_of :
    String
    → List (String × String × String × String × String)
    → Option (String × String × String × String)
config_of status [] = none
config_of status ((s, event_type, title, body, priority) ∷ configs) =
    if status == s then some (event_type, title, body, priority) else config_of status configs

-- `int(attempt_count or 1)`, at least one
abbrev pub attempt_of : Option ℕ → ℕ
attempt_of none = 1
attempt_of (some n) = if eqb n 0 then 1 else n

-- What is sent for the attempt `n` that waits for an approval: the configuration and the end of the
-- key.
unfoldable pub approval_config : ℕ → String × String × String × String
approval_config n = (
  "ticket.approval_required",
  "Tu ticket estÃ¡ listo para aprobaciÃ³n",
  if eqb n 1
      then "Revisa y aprueba el plan para continuar con la automatizaciÃ³n."
      else String.◌++◌ "El intento "
          (String.◌++◌ (show_nat n) " requiere una nueva aprobaciÃ³n para continuar."),
  "high",
)

-- `integration_id or 'tenant'`
abbrev pub or_tenant : Option String → String
or_tenant none = "tenant"
or_tenant (some s) = if s == "" then "tenant" else s

abbrev pub integration_metadata : Option String → Option Fields
integration_metadata none = none
integration_metadata (some s) = if s == "" then none else some (field "integrationId" (text s) end)
