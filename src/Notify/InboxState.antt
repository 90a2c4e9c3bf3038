-- ===== src/Notify/InboxState.antt =====
-- The states of a notification of shared/user_notification_inbox.py: unread, then read, then
-- archived, and the index that goes with them.

use xoc_api_aws.Base.{
  ℕ, ◌≤◌, String, ◌≡◌, refl, Bool, true, ◌||◌, Option, none, some, ◌==◌, if◌then◌else◌, arith,
  Bool-cases, Option-cases, inl, inr, ◌⊎◌, ==→eq,
}
use xoc_api_aws.Base.Store.{ItemStore, or_blank, put_new, update_when, update_any}
use xoc_api_aws.Notify.Events.{NotificationEvent}
use xoc_api_aws.Notify.Inbox.{
  InboxItem, blank_item, user_partition_key, notification_key, status_partition_key, text_status,
  is_visible, recipient_of, marked_read, marked_archived, is_unread, updated_reply,
  notification_id_for, created_item, read_current, archive_current, create_ticket_user_notification,
  mark_user_notification_read, archive_user_notification,
}

-- How far a notification has come.
unfoldable pub rank : Option InboxItem → ℕ
rank none = 0
rank (some item) =
    if text_status item.status == "ARCHIVED"
    then 3
    else if text_status item.status == "READ"
    then 2
    else if text_status item.status == "UNREAD"
    then 1
    else 0

-- The status is one of the three, and the index of an item in the partition `p` is that of its
-- status.
abbrev pub IsAt : String → InboxItem → String → Type 0
IsAt p item status =
    (item.status ≡ some status) × (item.status_index ≡ some (status_partition_key p status))

abbrev pub IsIndexed : String → Option InboxItem → Type 0
IsIndexed p none = Unit
IsIndexed p (some item) = IsAt p item "UNREAD" ⊎ (IsAt p item "READ" ⊎ IsAt p item "ARCHIVED")

-- What the users and the worker ask of the table.
pub data Op : Type 0 where
  create : NotificationEvent → String → Op
  mark : String → String → String → Bool → String → Op
  archive : String → String → String → String → Op

-- Either nothing is written, or an item that is as far, and is indexed.
pub data Change {S : Type 0} (db : ItemStore InboxItem S) (s : S) : S → Type 0 where
  unchanged : Change db s s
  written :
      (p k : String) (item : InboxItem)
      → IsIndexed p (some item)
      → rank (db.get_item s p k) ≤ rank (some item)
      → Change db s (db.write_item s p k item)

rank_bound : (o : Option InboxItem) → rank o ≤ 3
unfolding rank
rank_bound none = omega arith
rank_bound (some item) = ground arith

unread_rank : (item : InboxItem) → is_unread item ≡ true → rank (some item) ≤ 2
unfolding rank is_unread
unread_rank item h = rw (==→eq _ _ h) (omega arith)

module _ {S : Type 0} (db : ItemStore InboxItem S) (digest : String → String) where
  unfoldable pub step : S → Op → S
  step s (create e now) = (create_ticket_user_notification db digest s e now).table
  step s (mark t u n opened now) = (mark_user_notification_read db s t u n opened now).table
  step s (archive t u n now) = (archive_user_notification db s t u n now).table

  update-Change :
      (s : S) (p k : String) (opened : Bool) (now : String) (o : Option InboxItem)
      → Change db s
          (updated_reply db p k o s
            (update_when db s p k is_unread (marked_read p opened now))).table
  unfolding update_when marked_read rank
  update-Change s p k opened now o = elim (Option-cases (db.get_item s p k)) [
    | inl absent ↦ rw absent unchanged
    | inr (item, there) ↦ elim (Bool-cases (is_unread item)) [
      | inr other ↦ rw (there, other) unchanged
      | inl unread ↦
          rw (there, unread)
            (written p k (marked_read p opened now item) (inr (inl (refl, refl)))
              (rw there (unread_rank item unread)))
    ]
  ]

  mark-Change :
      (s : S) (p k : String) (opened : Bool) (now : String) (o : Option InboxItem)
      → Change db s (read_current db s p k opened now o).table
  unfolding read_current rank marked_read
  mark-Change s p k opened now none = unchanged
  mark-Change s p k opened now (some current) =
      elim (Bool-cases
        (text_status current.status == "ARCHIVED" || text_status current.status == "READ")) [
          | inl over ↦ rw over unchanged
          | inr seen ↦ rw seen (update-Change s p k opened now (db.peek s p k))
        ]

  create-Change :
      (s : S) (e : NotificationEvent) (now : String)
      → Change db s (create_ticket_user_notification db digest s e now).table
  unfolding create_ticket_user_notification put_new created_item rank
  create-Change s e now = elim (Bool-cases (is_visible e)) [
    | inr hidden ↦ rw hidden unchanged
    | inl visible ↦
        let u = recipient_of e.recipient_user_id in
        let p = user_partition_key e.tenant_id u in
        let k = notification_key (notification_id_for digest e.tenant_id u e.dedupe_key) in
        elim (Option-cases (db.get_item s p k)) [
          | inr (item, there) ↦ rw (visible, there) unchanged
          | inl absent ↦
              rw (visible, absent)
                (written p k (created_item digest e u now) (inl (refl, refl))
                  (rw absent (omega arith)))
        ]
  ]

  archive-Change :
      (s : S) (p k : String) (now : String) (o : Option InboxItem)
      → Change db s (archive_current db s p k now o).table
  unfolding archive_current update_any marked_archived rank
  archive-Change s p k now none = unchanged
  archive-Change s p k now (some current) =
      elim (Bool-cases (text_status current.status == "ARCHIVED")) [
        | inl over ↦ rw over unchanged
        | inr other ↦ rw other (
            written p k (marked_archived p now (or_blank blank_item (db.get_item s p k)))
              (inr (inr (refl, refl))) (rank_bound (db.get_item s p k)))
      ]

  pub step-Change : (s : S) (op : Op) → Change db s (step s op)
  unfolding step mark_user_notification_read archive_user_notification
  step-Change s (create e now) = create-Change s e now
  step-Change s (mark t u n opened now) =
      mark-Change s (user_partition_key t u) (notification_key n) opened now
        (db.peek s (user_partition_key t u) (notification_key n))
  step-Change s (archive t u n now) =
      archive-Change s (user_partition_key t u) (notification_key n) now
        (db.peek s (user_partition_key t u) (notification_key n))
