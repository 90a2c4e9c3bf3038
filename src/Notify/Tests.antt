-- ===== src/Notify/Tests.antt =====
-- Runs of the notifications, and their theorems at concrete inputs.
use xoc_api_aws.Base.{ℕ, String, ◌≡◌, refl, true, none, some, List, [], ◌∷◌, ◌≤◌}
use xoc_api_aws.Base.Text.{strip, upper, lower, is_longer, remove_by}
use xoc_api_aws.Base.Store.{rows_store, RowsOf, ItemStore}
use xoc_api_aws.Base.Strip.{decide-IsStripped}
use xoc_api_aws.Base.Value.{Value, num, text, dict, Fields, end, field}
use xoc_api_aws.Base.Outcome.{ok}
use xoc_api_aws.Base.Store.{put_new, find_row, update_any, update_when}
use xoc_api_aws.Base.Text.{is_space, lstrip_by, rstrip_by, strip_by}
use xoc_api_aws.Base.Value.{get, get_or, find, or_else, str, truthy}
use xoc_api_aws.Notify.Events.{
  is_safe, plain_name, is_version, normalize_fields, required_string, checked_text, text_of,
  known_text, optional_string, optional_text, checked_option, checked_recipient, safe_metadata,
  NotificationEvent, normalize_notification_event,
}
use xoc_api_aws.Notify.Drafts.{config_of, draft_fields}
use xoc_api_aws.Notify.Builders.{build_for_ticket_status, status_event, build_notification_event}
use xoc_api_aws.Notify.Creator.{IsFor, build_for_ticket_status-IsFor}
use xoc_api_aws.Notify.Normal.{IsText, payload_of}
use xoc_api_aws.Notify.RoundTrip.{normalize_idem}
use xoc_api_aws.Notify.Ledger.{
  claim_failed, reads_failed, claimed_item, complete_notification_event, completed, LedgerItem,
  claim_notification_event,
}
use xoc_api_aws.Notify.LedgerLock.{
  Op, claim, complete, request_at, LockStep, lock, step, step-LockStep,
}
use xoc_api_aws.Notify.LedgerOnce.{granted, granted_once}
use xoc_api_aws.Notify.Inbox.{
  create_ticket_user_notification, is_visible, archive_user_notification, archive_current,
  mark_user_notification_read, read_current, notification_id_for, created_item, is_unread,
  marked_read, marked_archived, InboxItem, user_partition_key,
}
use xoc_api_aws.Notify.InboxState
use xoc_api_aws.Notify.InboxState.{Op as InboxOp, create, mark, archive, rank}
use xoc_api_aws.Notify.InboxHistory.{IsForward, run, run-IsForward}

abbrev pub no_repr : Value → String
no_repr v = ""

abbrev pub no_size : Fields → ℕ
no_size fs = 0

abbrev raw_event : Value
raw_event = dict (
    field "version" (num 1) (
      field "eventId" (text " e1 ") (
        field "eventType" (text "ticket.approved") (
          field "tenantId" (text "7") (
            field "audienceType" (text "self") (
              field "recipientUserId" (text "42") (
                field "title" (text "Approved")
                  (field "body" (text "Your ticket was approved") end))))))))

abbrev pub approved_event : NotificationEvent
approved_event = record {
  event_id = "e1";
  event_type = "ticket.approved";
  tenant_id = "7";
  audience_type = "SELF";
  recipient_user_id = some "42";
  title = "Approved";
  body = "Your ticket was approved";
  deep_link = none;
  priority = "normal";
  resource_type = none;
  resource_id = none;
  dedupe_key = "ticket.approved:7:e1";
  metadata = none;
  created_at = "2026-01-01";
}

raw_event_accepted :
    normalize_notification_event no_repr no_size "2026-01-01" raw_event ≡ ok approved_event
unfolding normalize_notification_event is_safe plain_name is_version get normalize_fields
    required_string checked_text text_of is_longer known_text upper optional_string optional_text
    checked_option checked_recipient safe_metadata is_space lower lstrip_by remove_by rstrip_by
    strip strip_by find get_or or_else str truthy
raw_event_accepted = refl

clock-IsText : IsText 64 "2026-01-01"
unfolding strip is_longer
clock-IsText = record { stripped = decide-IsStripped "2026-01-01" refl; full = refl; short = refl }

normalize_idem_example :
    normalize_notification_event no_repr no_size "2026-02-02" (dict (payload_of approved_event))
    ≡ ok approved_event
normalize_idem_example =
    normalize_idem no_repr no_size "2026-01-01" "2026-02-02" raw_event approved_event clock-IsText
      raw_event_accepted

-- An event is claimed, claimed in vain, completed, and claimed in vain again.
abbrev claims_of : List Op
claims_of =
    claim approved_event "1"
    ∷ claim approved_event "2"
    ∷ complete "7" "ticket.approved:7:e1" "3" none
    ∷ claim approved_event "4"
    ∷ []

abbrev pub ledgers : ItemStore LedgerItem (RowsOf LedgerItem)
ledgers = rows_store LedgerItem

claims_granted : granted ledgers [] "7" "ticket.approved:7:e1" claims_of ≡ 1
unfolding granted request_at step claim_notification_event put_new find_row claim_failed
    reads_failed claimed_item complete_notification_event update_any completed
claims_granted = refl

step-LockStep_example :
    LockStep
      (lock ledgers [] "7" "ticket.approved:7:e1")
      (request_at "7" "ticket.approved:7:e1" (claim approved_event "1"))
      (step ledgers [] (claim approved_event "1")).0
      (lock ledgers (step ledgers [] (claim approved_event "1")).1 "7" "ticket.approved:7:e1")
step-LockStep_example =
    step-LockStep ledgers [] (claim approved_event "1") "7" "ticket.approved:7:e1"

granted_once_example : granted ledgers [] "7" "ticket.approved:7:e1" claims_of ≤ 1
unfolding request_at
granted_once_example =
    granted_once ledgers [] "7" "ticket.approved:7:e1" claims_of
      ((λ h. cc), ((λ h. cc), ((λ h. cc), ((λ h. cc), tt))))

-- A notification is made, read, archived and made again in vain.
abbrev pub plain_digest : String → String
plain_digest s = s

abbrev pub inboxes : ItemStore InboxItem (RowsOf InboxItem)
inboxes = rows_store InboxItem

abbrev inbox_ops : List InboxOp
inbox_ops =
    create approved_event "1"
    ∷ mark "7" "42" "v1|7|42|ticket.approved:7:e1" true "2"
    ∷ archive "7" "42" "v1|7|42|ticket.approved:7:e1" "3"
    ∷ create approved_event "4"
    ∷ []

inbox_run :
    rank (
      inboxes.get_item
        (run inboxes plain_digest [] inbox_ops)
        (user_partition_key "7" "42")
        "NOTIF#v1|7|42|ticket.approved:7:e1")
    ≡ 3
unfolding run rank InboxState.step find_row create_ticket_user_notification is_visible put_new
    archive_user_notification archive_current mark_user_notification_read read_current
    user_partition_key notification_id_for created_item update_when is_unread marked_read update_any
    marked_archived
inbox_run = refl

run-IsForward_example : IsForward (user_partition_key "7" "42") none (
    inboxes.get_item
      (run inboxes plain_digest [] inbox_ops)
      (user_partition_key "7" "42")
      "NOTIF#v1|7|42|ticket.approved:7:e1")
unfolding find_row
run-IsForward_example =
    run-IsForward inboxes plain_digest [] inbox_ops (user_partition_key "7" "42")
      "NOTIF#v1|7|42|ticket.approved:7:e1" tt

-- The event of a ticket that was rejected.
abbrev rejected_event : NotificationEvent
rejected_event = record {
  event_id = "evt-1";
  event_type = "ticket.rejected";
  tenant_id = "7";
  audience_type = "SELF";
  recipient_user_id = some "42";
  title = "Ticket rechazado";
  body = "Tu ticket fue rechazado. Revisa el detalle para conocer el estado final.";
  deep_link = some "xoc://ticket/t7";
  priority = "normal";
  resource_type = some "ticket";
  resource_id = some "t7";
  dedupe_key = "ticket.rejected:7:t7:status";
  metadata = some (field "ticketId" (text "t7") (field "status" (text "RECHAZADO") end));
  created_at = "2026-01-01";
}

rejected_built :
    build_for_ticket_status no_repr no_size plain_digest "2026-01-01" "1" "7" "t7" "42" "rechazado"
      none
    ≡ ok (some rejected_event)
unfolding build_for_ticket_status config_of status_event build_notification_event draft_fields
    normalize_notification_event is_safe plain_name is_version get normalize_fields required_string
    checked_text text_of is_longer known_text upper optional_string optional_text checked_option
    checked_recipient safe_metadata is_space lower lstrip_by remove_by rstrip_by strip strip_by find
    get_or or_else str truthy
rejected_built = refl

build_for_ticket_status-IsFor_example : IsFor "7" "42" rejected_event
build_for_ticket_status-IsFor_example =
    build_for_ticket_status-IsFor no_repr no_size plain_digest "2026-01-01" "1" "7" "t7" "42"
      "rechazado" none rejected_event rejected_built
