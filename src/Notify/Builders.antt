-- ===== src/Notify/Builders.antt =====
-- The builders of the events of notifications/events.py. Tenants and users are given as the texts that
-- `str` makes of them; the texts of the events are those of the source, as they stand there.
use Prim.Native.String
use xoc_api_aws.Base.{ℕ, String, true, Option, none, some, [], ◌∷◌, ◌==◌, if◌then◌else◌}
use xoc_api_aws.Base.Tests.{eqb}
use xoc_api_aws.Base.Text.{strip, upper}
use xoc_api_aws.Base.Decimal.{show_nat}
use xoc_api_aws.Base.Value.{Value, bool, num, text, dict, Fields, end, field}
use xoc_api_aws.Base.Outcome.{Result, ok, err, and_then, invalid_event, crash}
use xoc_api_aws.Notify.Events.{NotificationEvent, normalize_notification_event}
use xoc_api_aws.Notify.Drafts.{
  Draft, tenant_event, draft_fields, joined, text_field, event_config, config_of, attempt_of,
  approval_config, or_tenant, integration_metadata,
}

-- `quote` is urllib's, with no safe characters.
module _ (repr : Value → String) (dumps_size : Fields → ℕ) (quote : String → String) where
  -- build_notification_event
  unfoldable pub build_notification_event : String → String → Draft → Result NotificationEvent
  build_notification_event now new_id d =
      normalize_notification_event repr dumps_size now (dict (draft_fields now new_id d))

  -- build_notification_event_for_critical_vulnerability
  unfoldable pub build_for_critical_vulnerability :
      String → String → String → String → Result NotificationEvent
  build_for_critical_vulnerability now new_id tenant_id finding_id =
      build_notification_event now new_id
        (record (tenant_event "vulnerability.critical_detected" tenant_id
          "Vulnerabilidad crítica detectada"
          "Se detectó una vulnerabilidad crítica en tu tenant.") {
            deep_link = some (String.◌++◌ "xoc://vulnerabilities/" finding_id);
            priority = "critical";
            resource_type = some "vulnerability";
            resource_id = some finding_id;
            dedupe_key =
                some (joined ("vulnerability.critical_detected" ∷ tenant_id ∷ finding_id ∷ []));
            metadata =
                some (field "findingId" (text finding_id) (field "severity" (text "CRITICAL") end));
          })

  -- build_notification_event_for_attack_detected
  unfoldable pub build_for_attack_detected :
      String → String → String → String → Result NotificationEvent
  build_for_attack_detected now new_id tenant_id alert_id =
      build_notification_event now new_id
        (record (tenant_event "attack.detected" tenant_id "Posible ataque detectado"
          "XOC detectó actividad sospechosa o ataque activo.") {
            deep_link = some (String.◌++◌ "xoc://alerts/" alert_id);
            priority = "critical";
            resource_type = some "alert";
            resource_id = some alert_id;
            dedupe_key = some (joined ("attack.detected" ∷ tenant_id ∷ alert_id ∷ []));
            metadata = some (field "alertId" (text alert_id) end);
          })

  -- build_notification_event_for_ticket_critical_created
  unfoldable pub build_for_ticket_critical_created :
      String → String → String → String → Result NotificationEvent
  build_for_ticket_critical_created now new_id tenant_id ticket_id =
      build_notification_event now new_id
        (record (tenant_event "ticket.critical_created" tenant_id "Ticket crítico creado"
          "Se creó un ticket crítico que requiere atención.") {
            deep_link = some (String.◌++◌ "xoc://ticket/" ticket_id);
            priority = "critical";
            resource_type = some "ticket";
            resource_id = some ticket_id;
            dedupe_key = some (joined ("ticket.critical_created" ∷ tenant_id ∷ ticket_id ∷ []));
            metadata = some (field "ticketId" (text ticket_id) end);
          })

  -- build_notification_event_for_integration_down
  unfoldable pub build_for_integration_down :
      String → String → String → Option String → Result NotificationEvent
  build_for_integration_down now new_id tenant_id integration_id =
      build_notification_event now new_id
        (record (tenant_event "integration.down" tenant_id "Integración caída"
          "Una integración del tenant dejó de reportar datos.") {
            deep_link = some "xoc://integrations";
            priority = "high";
            resource_type = some "integration";
            resource_id = integration_id;
            dedupe_key =
                some (joined ("integration.down" ∷ tenant_id ∷ or_tenant integration_id ∷ []));
            metadata = integration_metadata integration_id;
          })

  -- build_notification_event_for_report_generated
  unfoldable pub build_for_report_generated :
      String
      → String
      → String
      → String
      → Option String
      → Option String
      → Option String
      → Result NotificationEvent
  build_for_report_generated now new_id tenant_id report_id recipient report_type report_title =
      let id = strip report_id in
      build_notification_event now new_id
        (record (tenant_event "report.generated" tenant_id "Reporte generado"
          "El reporte ya está listo para descargar.") {
            audience_type = elim recipient [ none ↦ "TENANT_ALL" | some user ↦ "SELF" ];
            recipient_user_id = recipient;
            deep_link = some (
                String.◌++◌ "xoc://sophia-docs?documentId="
                  (String.◌++◌ (quote id) "&action=download-docx"));
            resource_type = some "report";
            resource_id = some id;
            dedupe_key = some (joined ("report.generated" ∷ tenant_id ∷ id ∷ []));
            metadata = some (
                field "reportId" (text id) (
                  field "downloadReady" (bool true) (
                    text_field "reportType" report_type
                      (text_field "reportTitle" report_title end))));
          })

  -- The event of one configuration, with the end of its key and the last of its metadata.
  unfoldable pub status_event :
      String
      → String
      → String
      → String
      → String
      → String
      → String
      → Fields
      → String × String × String × String
      → Result NotificationEvent
  status_event now new_id tenant_id ticket_id recipient status suffix extra
        (event_type, title, body, priority) =
      build_notification_event now new_id (record (tenant_event event_type tenant_id title body) {
        audience_type = "SELF";
        recipient_user_id = some recipient;
        deep_link = some (String.◌++◌ "xoc://ticket/" (quote ticket_id));
        priority = priority;
        resource_type = some "ticket";
        resource_id = some ticket_id;
        dedupe_key = some (joined (event_type ∷ tenant_id ∷ ticket_id ∷ suffix ∷ []));
        metadata = some (field "ticketId" (text ticket_id) (field "status" (text status) extra));
      })

  abbrev pub some_event : Result NotificationEvent → Result (Option NotificationEvent)
  some_event (ok e) = ok (some e)
  some_event (err x) = err x

  -- build_notification_event_for_ticket_status
  unfoldable pub build_for_ticket_status :
      String
      → String
      → String
      → String
      → String
      → String
      → Option ℕ
      → Result (Option NotificationEvent)
  unfolding strip upper
  build_for_ticket_status now new_id tenant_id ticket_id recipient status attempt_count =
      let id = strip ticket_id in
      let normalized = upper (strip status) in
      let n = attempt_of attempt_count in
      if id == ""
      then err (invalid_event "ticket_id is required")
      else if normalized == "PREAPROBADO"
      then some_event (
          status_event now new_id tenant_id id recipient normalized
            (String.◌++◌ "attempt:" (show_nat n)) (field "attemptCount" (num n) end)
            (approval_config n))
      else elim (config_of normalized event_config) [
        | none ↦ ok none
        | some config ↦
            some_event
              (status_event now new_id tenant_id id recipient normalized "status" end config)
      ]

  -- publish_notification_requested: the identifier of the event and the bus. `put` gives the number of
  -- entries that the bus refused, or nothing if the call fails; a NotificationEventPublishError is a
  -- `crash`.
  unfoldable pub publish_notification_requested :
      (String → NotificationEvent → Option ℕ) → String → String → Value → Result (String × String)
  publish_notification_requested put now bus_name detail =
      and_then (normalize_notification_event repr dumps_size now detail) λ e.
        if strip bus_name == "" then err crash else elim (put (strip bus_name) e) [
          | none ↦ err crash
          | some refused ↦ if eqb refused 0 then ok (e.event_id, strip bus_name) else err crash
        ]
