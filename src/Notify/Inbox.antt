-- ===== src/Notify/Inbox.antt =====
-- The notifications that a user sees: shared/user_notification_inbox.py.
use Prim.Native.String
use xoc_api_aws.Base.{
  String, Bool, true, false, ◌&&◌, ◌||◌, not, Option, none, some, ◌==◌, if◌then◌else◌,
}
use text.Mathlib.Text.{starts_with}
use xoc_api_aws.Base.Text.{strip, upper}
use xoc_api_aws.Base.Store.{ItemStore, put_new, update_when, update_any}
use xoc_api_aws.Base.Value.{Fields}
use xoc_api_aws.Notify.Events.{NotificationEvent}

-- The attributes that only the creation of a notification sets.
pub record Content : Type 0 where
  pub notification_id : String
  pub tenant_id : String
  pub user_id : String
  pub event_type : String
  pub resource_type : Option String
  pub resource_id : Option String
  pub title : String
  pub body : String
  pub deep_link : Option String
  pub priority : String
  pub created_at : String
  pub event_id : String
  pub dedupe_key : String
  pub metadata : Option Fields
  pub created_index : String × String
  pub status_sort_key : String

pub record InboxItem : Type 0 where
  pub content : Option Content
  pub status : Option String
  pub status_index : Option String
  pub read_at : Option String
  pub opened_at : Option String
  pub archived_at : Option String

-- The item that update_item starts from where there is none.
abbrev pub blank_item : InboxItem
blank_item = record {
  content = none;
  status = none;
  status_index = none;
  read_at = none;
  opened_at = none;
  archived_at = none;
}

-- user_partition_key
unfoldable pub user_partition_key : String → String → String
user_partition_key tenant_id user_id =
    String.◌++◌ "TENANT#" (String.◌++◌ tenant_id (String.◌++◌ "#USER#" user_id))

-- The sort key of notification_key
abbrev pub notification_key : String → String
notification_key notification_id = String.◌++◌ "NOTIF#" notification_id

-- _created_sort_key
abbrev pub created_sort_key : String → String → String
created_sort_key created_at notification_id =
    String.◌++◌ "CREATED#" (String.◌++◌ created_at (String.◌++◌ "#" notification_id))

-- _status_partition_key, of the partition key of the user
abbrev pub status_partition_key : String → String → String
status_partition_key p status = String.◌++◌ p (String.◌++◌ "#STATUS#" status)

abbrev pub text_status : Option String → String
text_status none = ""
text_status (some s) = s

abbrev pub recipient_of : Option String → String
recipient_of none = ""
recipient_of (some s) = strip s

-- Whether the event makes a visible notification for its recipient.
unfoldable pub is_visible : NotificationEvent → Bool
unfolding upper strip
is_visible e =
    starts_with e.event_type "ticket."
    && upper e.audience_type == "SELF"
    && not (recipient_of e.recipient_user_id == "")

abbrev pub or_now : String → String → String
or_now s now = if s == "" then now else s

-- What mark_user_notification_read changes.
unfoldable pub marked_read : String → Bool → String → InboxItem → InboxItem
marked_read p opened now item = record item {
  status = some "READ";
  status_index = some (status_partition_key p "READ");
  read_at = some now;
  opened_at = if opened then some now else item.opened_at;
}

-- What archive_user_notification changes.
unfoldable pub marked_archived : String → String → InboxItem → InboxItem
marked_archived p now item = record item {
  status = some "ARCHIVED";
  status_index = some (status_partition_key p "ARCHIVED");
  archived_at = some now;
}

-- `#status = :unread`
unfoldable pub is_unread : InboxItem → Bool
is_unread item = text_status item.status == "UNREAD"

-- `digest` is the SHA-256 of a text in hexadecimal.
module _ (digest : String → String) where
  -- notification_id_for
  unfoldable pub notification_id_for : String → String → String → String
  notification_id_for tenant_id user_id dedupe_key = digest (
      String.◌++◌ "v1|" (
        String.◌++◌ tenant_id (String.◌++◌ "|" (String.◌++◌ user_id (String.◌++◌ "|" dedupe_key)))))

  -- The item that create_ticket_user_notification puts for this user.
  unfoldable pub created_item : NotificationEvent → String → String → InboxItem
  created_item e user_id now =
      let id = notification_id_for e.tenant_id user_id e.dedupe_key in
      let created_at = or_now e.created_at now in
      let p = user_partition_key e.tenant_id user_id in
      record {
        content = some (record {
          notification_id = id;
          tenant_id = e.tenant_id;
          user_id = user_id;
          event_type = e.event_type;
          resource_type = e.resource_type;
          resource_id = e.resource_id;
          title = e.title;
          body = e.body;
          deep_link = e.deep_link;
          priority = e.priority;
          created_at = created_at;
          event_id = e.event_id;
          dedupe_key = e.dedupe_key;
          metadata = e.metadata;
          created_index = (p, created_sort_key created_at id);
          status_sort_key = created_sort_key created_at id;
        });
        status = some "UNREAD";
        status_index = some (status_partition_key p "UNREAD");
        read_at = none;
        opened_at = none;
        archived_at = none;
      }

-- What a call gives: the item, where there is one, and the table.
pub record Reply (S : Type 0) : Type 0 where
  pub item : Option InboxItem
  pub created : Bool
  pub table : S

abbrev pub reply : {S : Type 0} → Option InboxItem → Bool → S → Reply S
reply i b s = record { item = i; created = b; table = s }

abbrev pub put_reply : {S : Type 0} → InboxItem → Option InboxItem → S → Option S → Reply S
put_reply new seen s none = reply seen false s
put_reply new seen s (some s') = reply (some new) true s'

module _ {S : Type 0} (db : ItemStore InboxItem S) where
  -- The item that stands there after an update.
  abbrev pub updated_reply : String → String → Option InboxItem → S → Option S → Reply S
  updated_reply p k seen s none = reply seen false s
  updated_reply p k seen s (some s') = reply (db.get_item s' p k) false s'

  -- create_ticket_user_notification
  unfoldable pub create_ticket_user_notification :
      (String → String) → S → NotificationEvent → String → Reply S
  create_ticket_user_notification digest s e now =
      if not (is_visible e)
      then reply none false s
      else let user_id = recipient_of e.recipient_user_id in
        let p = user_partition_key e.tenant_id user_id in
        let k = notification_key (notification_id_for digest e.tenant_id user_id e.dedupe_key) in
        put_reply (created_item digest e user_id now) (db.peek s p k) s
          (put_new db s p k (created_item digest e user_id now))

  unfoldable pub read_current : S → String → String → Bool → String → Option InboxItem → Reply S
  read_current s p k opened now none = reply none false s
  read_current s p k opened now (some current) =
      if text_status current.status == "ARCHIVED" || text_status current.status == "READ"
      then reply (some current) false s
      else updated_reply p k (db.peek s p k) s
          (update_when db s p k is_unread (marked_read p opened now))

  -- mark_user_notification_read
  unfoldable pub mark_user_notification_read :
      S → String → String → String → Bool → String → Reply S
  mark_user_notification_read s tenant_id user_id notification_id opened now =
      let p = user_partition_key tenant_id user_id in
      let k = notification_key notification_id in read_current s p k opened now (db.peek s p k)

  unfoldable pub archive_current : S → String → String → String → Option InboxItem → Reply S
  archive_current s p k now none = reply none false s
  archive_current s p k now (some current) =
      if text_status current.status == "ARCHIVED"
      then reply (some current) false s
      else let s' = update_any db s p k blank_item (marked_archived p now) in
        reply (db.get_item s' p k) false s'

  -- archive_user_notification
  unfoldable pub archive_user_notification : S → String → String → String → String → Reply S
  archive_user_notification s tenant_id user_id notification_id now =
      let p = user_partition_key tenant_id user_id in
      let k = notification_key notification_id in archive_current s p k now (db.peek s p k)
