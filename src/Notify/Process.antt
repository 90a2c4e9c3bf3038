-- ===== src/Notify/Process.antt =====
-- process_notification_event and handler of handlers/workers/notification_events.py.

use xoc_api_aws.Base.{
  ℕ, ◌+◌, String, Bool, true, false, ◌&&◌, not, Option, none, some, List, [], ◌∷◌, ◌==◌,
  if◌then◌else◌, length,
}
use xoc_api_aws.Base.Tests.{ltb}
use xoc_api_aws.Base.Store.{ItemStore}
use xoc_api_aws.Base.Value.{Value, dict, get_or}
use xoc_api_aws.Base.Outcome.{Error, Result, ok, err, and_then, invalid_event}
use xoc_api_aws.Notify.Events.{NotificationEvent, or_text, normalize_notification_event}
use xoc_api_aws.Notify.Ledger.{LedgerItem, claim_notification_event}
use xoc_api_aws.Notify.Inbox.{InboxItem, create_ticket_user_notification}
use xoc_api_aws.Notify.Sending.{
  Device, NotificationData, Counts, no_counts, chunks, is_code, send_batches,
}
use xoc_api_aws.Notify.Worker.{
  Campaign, max_devices_of, batch_size_of, Report, World, Services, Attempt, notification_data,
  campaign_status, create_campaign, complete_campaign, completed_event, failed_event, now_of,
}

-- A record of the queue.
pub record Message : Type 0 where
  pub message_id : String
  pub body : String

abbrev pub too_many : String
too_many =
    "Audience exceeds max devices for Phase 3 worker. Increase limit or implement PushDeliveryQueue."

abbrev pub with_outside : {L I C O : Type 0} → World L I C O → O → World L I C O
with_outside w o = record w { outside = o }

-- `message_id or None`
abbrev pub message_name : String → Option String
message_name s = if s == "" then none else some s

module _ {L I C O : Type 0} (ledgers : ItemStore LedgerItem L) (inboxes : ItemStore InboxItem I)
    (campaign_items : ItemStore Campaign C) (services : Services O) where
  -- _event_detail_from_record
  unfoldable pub event_detail : Message → Result Value
  event_detail m = elim (services.loads (if m.body == "" then "{}" else m.body)) [
    | none ↦ err (invalid_event "SQS message body is not valid JSON")
    | some (dict fs) ↦ elim (get_or "detail" (dict fs) fs) [
      | dict detail ↦ ok (dict detail)
      | _ ↦ err (invalid_event "EventBridge detail must be an object")
    ]
    | some _ ↦ err (invalid_event "SQS message body must be an object")
  ]

  -- The messages are sent, and the campaign and the event are completed.
  unfoldable pub finish :
      NotificationEvent → String → ℕ → World L I C O → Result Counts × O → Attempt (World L I C O)
  finish e id total w (err x, o) = record {
    result = err x;
    world = with_outside w o;
    campaign_id = some id;
  }
  finish e id total w (ok counts, o) =
      let w' =
        complete_campaign ledgers inboxes campaign_items services (with_outside w o) e id total
          counts none in
      let (r, w'') = completed_event ledgers inboxes campaign_items services w' e (some id) in
      record {
        result = and_then r λ _. ok (record {
          status = (campaign_status total counts.sent).1;
          campaign_status = some (campaign_status total counts.sent).0;
          event_id = e.event_id;
          campaign_id = some id;
        });
        world = w'';
        campaign_id = some id;
      }

  -- More devices than the limit: nothing is sent.
  unfoldable pub give_up : World L I C O → NotificationEvent → String → ℕ → Attempt (World L I C O)
  give_up w e id total =
      let w' =
        complete_campaign ledgers inboxes campaign_items services w e id total
          (record { sent = 0; failed = total; invalid = 0 }) (some too_many) in
      let (r, w'') = failed_event ledgers inboxes campaign_items services w' e too_many (some id) in
      record {
        result = and_then r λ _. ok (record {
          status = "failed";
          campaign_status = none;
          event_id = e.event_id;
          campaign_id = some id;
        });
        world = w'';
        campaign_id = some id;
      }

  -- From the devices on.
  unfoldable pub deliver :
      World L I C O
      → NotificationEvent
      → Option String
      → Option NotificationData
      → List Device
      → Attempt (World L I C O)
  deliver w e message extra devices =
      let total = length devices in
      let (id, w') = create_campaign ledgers inboxes campaign_items services w e message total in
      if ltb (max_devices_of services) total
      then give_up w' e id total
      else finish e id total w' (
          send_batches (services.send e extra) w'.outside
            (chunks total devices (batch_size_of services)) no_counts)

  abbrev pub stopped : World L I C O → Error → Attempt (World L I C O)
  stopped w x = record { result = err x; world = w; campaign_id = none }

  abbrev pub with_devices :
      World L I C O
      → NotificationEvent
      → Option String
      → Option NotificationData
      → Result (List Device)
      → Attempt (World L I C O)
  with_devices w e message extra (err x) = stopped w x
  with_devices w e message extra (ok devices) = deliver w e message extra devices

  abbrev pub with_data :
      World L I C O
      → NotificationEvent
      → Option String
      → Result (Option NotificationData)
      → Attempt (World L I C O)
  with_data w e message (err x) = stopped w x
  with_data w e message (ok extra) = with_devices w e message extra (
      services.audience w.outside e.tenant_id (or_text e.recipient_user_id "") e.audience_type
        (max_devices_of services + 1))

  -- The body of the `try`.
  unfoldable pub attempt :
      World L I C O → NotificationEvent → Option String → Attempt (World L I C O)
  attempt w e message =
      let created =
        create_ticket_user_notification inboxes services.digest w.inbox e
          (now_of ledgers inboxes campaign_items services w) in
      with_data (record w { inbox = created.table }) e message (notification_data e created.item)

  -- What a clause of `except` raises: what fail_notification_event raises, or else its own exception.
  abbrev pub raised : Error → Result (Unit {0}) → Result Report
  raised x (err y) = err y
  raised x (ok _) =
      if is_code "validation_error" x then err (invalid_event (services.error_text x)) else err x

  -- The clauses of the `except`.
  unfoldable pub settle :
      NotificationEvent
      → World L I C O
      → Option String
      → Result Report
      → Result Report × World L I C O
  settle e w id (ok report) = (ok report, w)
  settle e w id (err (invalid_event m)) = (err (invalid_event m), w)
  settle e w id (err x) =
      let (r, w') =
        failed_event ledgers inboxes campaign_items services w e (services.error_text x) id in
      (raised x r, w')

  abbrev pub settle_attempt :
      NotificationEvent → Attempt (World L I C O) → Result Report × World L I C O
  settle_attempt e a = settle e a.world a.campaign_id a.result

  abbrev pub duplicate : NotificationEvent → Report
  duplicate e = record {
    status = "duplicate_ignored";
    campaign_status = none;
    event_id = e.event_id;
    campaign_id = none;
  }

  -- After the claim.
  unfoldable pub claimed :
      World L I C O → NotificationEvent → Option String → Bool × L → Result Report × World L I C O
  claimed w e message (granted, ledger) =
      if granted
      then settle_attempt e (attempt (record w { ledger = ledger }) e message)
      else (ok (duplicate e), record w { ledger = ledger })

  -- After the validation.
  unfoldable pub process_event :
      World L I C O → NotificationEvent → Option String → Result Report × World L I C O
  process_event w e message = claimed w e message (
      claim_notification_event ledgers w.ledger e
        (now_of ledgers inboxes campaign_items services w))

  -- process_notification_event, of the detail of a record
  unfoldable pub process_notification_event :
      World L I C O → Result Value → Option String → Result Report × World L I C O
  process_notification_event w detail message =
      elim (and_then detail (
        normalize_notification_event services.repr services.dumps_size
          (now_of ledgers inboxes campaign_items services w))) [
            | err x ↦ (err x, w)
            | ok e ↦ process_event w e message
          ]

  -- A failure that the queue is to try again: all but the NotificationEventValidationError.
  abbrev pub is_retryable : Result Report → Bool
  is_retryable (ok report) = false
  is_retryable (err (invalid_event m)) = false
  is_retryable (err x) = true

  abbrev pub with_failure : Result Report → String → List String → List String
  with_failure r id failures = if is_retryable r && not (id == "") then id ∷ failures else failures

  -- handler: the identifiers of the records to try again, and the world
  unfoldable pub handler : World L I C O → List Message → List String × World L I C O
  handler w [] = ([], w)
  handler w (m ∷ ms) =
      let (r, w1) = process_notification_event w (event_detail m) (message_name m.message_id) in
      let (failures, w2) = handler w1 ms in (with_failure r m.message_id failures, w2)
