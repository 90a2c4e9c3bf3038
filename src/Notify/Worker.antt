-- ===== src/Notify/Worker.antt =====
-- The worker of the queue of events: handlers/workers/notification_events.py, with the campaigns of
-- shared/notification_campaigns.py.
use Prim.Native.String
use xoc_api_aws.Base.{ℕ, String, Option, none, some, List, if◌then◌else◌}
use xoc_api_aws.Base.Tests.{eqb}
use xoc_api_aws.Base.Text.{take_text}
use xoc_api_aws.Base.Store.{ItemStore, update_any}
use xoc_api_aws.Base.Value.{Value, Fields}
use xoc_api_aws.Base.Outcome.{Error, Result, ok, err, crash}
use xoc_api_aws.Notify.Events.{NotificationEvent, or_text}
use xoc_api_aws.Notify.Ledger.{LedgerItem, complete_notification_event, fail_notification_event}
use xoc_api_aws.Notify.Inbox.{InboxItem}
use xoc_api_aws.Notify.Sending.{Device, Delivery, NotificationData, Counts, no_counts, positive_int}

-- The attributes that only _create_campaign sets.
pub record CampaignContent : Type 0 where
  pub source : NotificationEvent
  pub queue_message_id : Option String
  pub created_at : String

pub record Campaign : Type 0 where
  pub content : Option CampaignContent
  pub status : Option String
  pub total_devices : ℕ
  pub counts : Counts
  pub last_error : Option String
  pub updated_at : Option String

-- The item that update_item starts from where there is none; a count it lacks reads as zero.
abbrev pub blank_campaign : Campaign
blank_campaign = record {
  content = none;
  status = none;
  total_devices = 0;
  counts = no_counts;
  last_error = none;
  updated_at = none;
}

-- campaign_key
abbrev pub campaign_partition_key : String → String
campaign_partition_key tenant_id = String.◌++◌ "TENANT#" tenant_id

abbrev pub campaign_sort_key : String → String
campaign_sort_key campaign_id = String.◌++◌ "CAMPAIGN#" campaign_id

-- _campaign_status
unfoldable pub campaign_status : ℕ → ℕ → String × String
campaign_status total sent =
    if eqb total 0
    then ("NO_DEVICES", "no_devices")
    else if eqb sent total
    then ("COMPLETED", "completed")
    else if eqb sent 0
    then ("FAILED", "failed")
    else ("PARTIAL_FAILED", "partial_failed")

-- The item of _create_campaign.
unfoldable pub created_campaign : NotificationEvent → Option String → ℕ → String → Campaign
created_campaign e queue_message_id total now = record {
  content = some (record { source = e; queue_message_id = queue_message_id; created_at = now });
  status = some "PROCESSING";
  total_devices = total;
  counts = no_counts;
  last_error = none;
  updated_at = some now;
}

-- The attributes of _complete_campaign.
unfoldable pub completed_campaign : ℕ → Counts → Option String → String → Campaign → Campaign
completed_campaign total counts error now campaign =
    let updated = record campaign {
      status = some (campaign_status total counts.sent).0;
      total_devices = total;
      counts = counts;
      updated_at = some now;
    } in
    elim error [
      | none ↦ updated
      | some message ↦ record updated { last_error = some (take_text 512 message) }
    ]

-- What process_notification_event returns.
pub record Report : Type 0 where
  pub status : String
  pub campaign_status : Option String
  pub event_id : String
  pub campaign_id : Option String

-- The tables, and all else that the worker calls: `O`.
pub record World (L I C O : Type 0) : Type 0 where
  pub ledger : L
  pub inbox : I
  pub campaigns : C
  pub outside : O

-- What the worker calls: the clock, the names that uuid4 gives, the devices of an audience
-- (_resolve_notification_audience), the sending of one message (_send_push_to_registered_device),
-- the text of an exception, the numbers in the two settings that _positive_int_env reads, where
-- there are such numbers, and whether the writes of complete_notification_event and of
-- fail_notification_event go through or raise.
pub record Services (O : Type 0) : Type 0 where
  pub clock : O → String
  pub new_campaign_id : O → String × O
  pub audience : O → String → String → String → ℕ → Result (List Device)
  pub send : NotificationEvent → Option NotificationData → O → Device → Result Delivery × O
  pub complete_write : O → Result (Unit {0}) × O
  pub fail_write : O → Result (Unit {0}) × O
  pub error_text : Error → String
  pub max_devices_setting : Option ℕ
  pub batch_size_setting : Option ℕ
  pub digest : String → String
  pub repr : Value → String
  pub dumps_size : Fields → ℕ
  pub loads : String → Option Value

-- The two limits.
abbrev pub max_devices_of : {O : Type 0} → Services O → ℕ
max_devices_of services = positive_int services.max_devices_setting 500 5000

abbrev pub batch_size_of : {O : Type 0} → Services O → ℕ
batch_size_of services = positive_int services.batch_size_setting 100 100

-- notification_data; an item without an identifier is a KeyError.
unfoldable pub notification_data :
    NotificationEvent → Option InboxItem → Result (Option NotificationData)
notification_data e none = ok none
notification_data e (some item) = elim item.content [
  | none ↦ err crash
  | some content ↦ ok (
      some (record {
        notification_id = content.notification_id;
        event_type = e.event_type;
        resource_type = or_text e.resource_type "";
        resource_id = or_text e.resource_id "";
      }))
]

-- The table after a write: as it was if the write raises.
abbrev pub written : {L : Type 0} → Result (Unit {0}) → L → L → L
written (ok _) before after = after
written (err x) before after = before

-- What the body of the `try` gives: its answer, the world, and the campaign that was made.
pub record Attempt (W : Type 0) : Type 0 where
  pub result : Result Report
  pub world : W
  pub campaign_id : Option String

module _ {L I C O : Type 0} (ledgers : ItemStore LedgerItem L) (inboxes : ItemStore InboxItem I)
    (campaign_items : ItemStore Campaign C) (services : Services O) where
  abbrev pub now_of : World L I C O → String
  now_of w = services.clock w.outside

  -- _create_campaign
  unfoldable pub create_campaign :
      World L I C O → NotificationEvent → Option String → ℕ → String × World L I C O
  create_campaign w e queue_message_id total =
      let (id, o) = services.new_campaign_id w.outside in
      (
        id,
        record w {
          outside = o;
          campaigns =
              campaign_items.write_item w.campaigns (campaign_partition_key e.tenant_id)
                (campaign_sort_key id)
                (created_campaign e queue_message_id total (services.clock o));
        },
      )

  -- _complete_campaign
  unfoldable pub complete_campaign :
      World L I C O → NotificationEvent → String → ℕ → Counts → Option String → World L I C O
  complete_campaign w e id total counts error = record w {
    campaigns =
        update_any campaign_items w.campaigns (campaign_partition_key e.tenant_id)
          (campaign_sort_key id) blank_campaign (completed_campaign total counts error (now_of w));
  }

  -- complete_notification_event and fail_notification_event: what they raise, and the world. A write
  -- that raises leaves the ledger as it is.
  abbrev pub completed_event :
      World L I C O → NotificationEvent → Option String → Result (Unit {0}) × World L I C O
  completed_event w e id =
      let (r, o) = services.complete_write w.outside in
      (
        r,
        record w {
          outside = o;
          ledger =
              written r w.ledger (
                complete_notification_event ledgers w.ledger e.tenant_id e.dedupe_key (now_of w)
                  id);
        },
      )

  abbrev pub failed_event :
      World L I C O → NotificationEvent → String → Option String → Result (Unit {0}) × World L I C O
  failed_event w e message id =
      let (r, o) = services.fail_write w.outside in
      (
        r,
        record w {
          outside = o;
          ledger = written r w.ledger (
              fail_notification_event ledgers w.ledger e.tenant_id e.dedupe_key message (now_of w)
                id);
        },
      )
