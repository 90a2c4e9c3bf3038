-- ===== src/Notify/Ledger.antt =====
-- The records of notifications/inbox.py, which make the work on an event happen once.
use Prim.Native.String
use xoc_api_aws.Base.{String, Bool, true, false, Option, none, some, ◌==◌, if◌then◌else◌}
use xoc_api_aws.Base.Text.{upper, take_text}
use xoc_api_aws.Base.Store.{ItemStore, put_new, update_when, update_any}
use xoc_api_aws.Notify.Events.{NotificationEvent}

-- A record of the table.
pub record LedgerItem : Type 0 where
  pub tenant_id : Option String
  pub dedupe_key : Option String
  pub event_id : Option String
  pub event_type : Option String
  pub status : Option String
  pub first_seen_at : Option String
  pub updated_at : Option String
  pub last_error : Option String
  pub campaign_id : Option String

-- The record that update_item starts from where there is none.
abbrev pub blank_item : LedgerItem
blank_item = record {
  tenant_id = none;
  dedupe_key = none;
  event_id = none;
  event_type = none;
  status = none;
  first_seen_at = none;
  updated_at = none;
  last_error = none;
  campaign_id = none;
}

-- inbox_key
abbrev pub partition_key : String → String
partition_key tenant_id = String.◌++◌ "TENANT#" tenant_id

abbrev pub sort_key : String → String
sort_key dedupe_key = String.◌++◌ "DEDUPE#" dedupe_key

-- The item that a claim puts.
unfoldable pub claimed_item : NotificationEvent → String → LedgerItem
claimed_item e now = record {
  tenant_id = some e.tenant_id;
  dedupe_key = some e.dedupe_key;
  event_id = some e.event_id;
  event_type = some e.event_type;
  status = some "PROCESSING";
  first_seen_at = some now;
  updated_at = some now;
  last_error = none;
  campaign_id = none;
}

-- What a claim changes in the record of a failed event.
unfoldable pub reclaimed : NotificationEvent → String → LedgerItem → LedgerItem
reclaimed e now item = record item {
  status = some "PROCESSING";
  updated_at = some now;
  event_id = some e.event_id;
  event_type = some e.event_type;
  last_error = none;
}

abbrev pub text_status : Option String → String
text_status none = ""
text_status (some s) = s

-- `#status = :failed`
unfoldable pub is_failed : LedgerItem → Bool
is_failed item = text_status item.status == "FAILED"

-- `str(existing.get("status") or "").upper() == "FAILED"`, of what the read gave
unfoldable pub reads_failed : Option LedgerItem → Bool
unfolding upper
reads_failed none = false
reads_failed (some item) = upper (text_status item.status) == "FAILED"

-- `if campaign_id: attributes["campaignId"] = campaign_id`
abbrev with_campaign : Option String → LedgerItem → LedgerItem
with_campaign none item = item
with_campaign (some id) item = if id == "" then item else record item { campaign_id = some id }

-- The attributes of complete_notification_event and fail_notification_event.
unfoldable pub completed : String → Option String → LedgerItem → LedgerItem
completed now campaign_id item =
    with_campaign campaign_id (record item { status = some "COMPLETED"; updated_at = some now })

unfoldable pub failed : String → String → Option String → LedgerItem → LedgerItem
failed now error campaign_id item = with_campaign campaign_id (record item {
  status = some "FAILED";
  updated_at = some now;
  last_error = some (take_text 512 error);
})

abbrev pub answer {ℓ} : {S : Type ℓ} → S → Option S → Bool × S
answer s none = (false, s)
answer s (some s') = (true, s')

abbrev pub claim_new {ℓ} : {S : Type ℓ} → Bool × S → Option S → Bool × S
claim_new again none = again
claim_new again (some s) = (true, s)

module _ {S : Type 0} (db : ItemStore LedgerItem S) where
  -- The second try of claim_notification_event, after the item was found there.
  unfoldable pub claim_failed : S → NotificationEvent → String → Bool × S
  claim_failed s e now =
      if reads_failed (db.peek s (partition_key e.tenant_id) (sort_key e.dedupe_key))
      then answer s (
          update_when db s (partition_key e.tenant_id) (sort_key e.dedupe_key) is_failed
            (reclaimed e now))
      else (false, s)

  -- claim_notification_event: whether it was claimed, and the table after it. `none` of the writes
  -- is the ConditionalCheckFailedException.
  unfoldable pub claim_notification_event : S → NotificationEvent → String → Bool × S
  claim_notification_event s e now =
      claim_new (claim_failed s e now)
        (put_new db s (partition_key e.tenant_id) (sort_key e.dedupe_key) (claimed_item e now))

  -- complete_notification_event
  unfoldable pub complete_notification_event : S → String → String → String → Option String → S
  complete_notification_event s tenant_id dedupe_key now campaign_id =
      update_any db s (partition_key tenant_id) (sort_key dedupe_key) blank_item
        (completed now campaign_id)

  -- fail_notification_event
  unfoldable pub fail_notification_event : S → String → String → String → String → Option String → S
  fail_notification_event s tenant_id dedupe_key error now campaign_id =
      update_any db s (partition_key tenant_id) (sort_key dedupe_key) blank_item
        (failed now error campaign_id)
