-- ===== src/Notify/StatusEvents.antt =====
-- The event of a status: what the tickets are told by is what build_notification_event_for_ticket_status
-- of notifications/events.py builds.
use xoc_api_aws.Base.{String, ◌≡◌, Option, none, some, ◌==◌, if◌then◌else◌, arith}
use xoc_api_aws.Base.Text.{strip, upper}
use xoc_api_aws.Notify.Drafts.{config_of, event_config}
use xoc_api_aws.Tickets.Table.{status_event_type}

-- The type in a configuration.
abbrev type_of : Option (String × String × String × String) → Option String
type_of none = none
type_of (some (event_type, title, body, priority)) = some event_type

status_event_type-config_of :
    (status : String)
    → status_event_type status ≡ (
        if upper (strip status) == "PREAPROBADO"
        then some "ticket.approval_required"
        else type_of (config_of (upper (strip status)) event_config))
unfolding status_event_type config_of
status_event_type-config_of status = ground arith
