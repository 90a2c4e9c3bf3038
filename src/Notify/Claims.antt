-- ===== src/Notify/Claims.antt =====
-- What claim_notification_event of notifications/inbox.py does, by what stands in the table.
use xoc_api_aws.Base.{String, ◌≡◌, refl, Bool, true, false, ◌&&◌, none, some, if◌then◌else◌}
use xoc_api_aws.Base.Store.{ItemStore, put_new_free, put_new_taken, update_when_there}
use xoc_api_aws.Notify.Events.{NotificationEvent}
use xoc_api_aws.Notify.Ledger.{
  LedgerItem, partition_key, sort_key, claimed_item, reclaimed, is_failed, reads_failed, answer,
  claim_failed, claim_notification_event,
}

answers {ℓ} :
    {S : Type ℓ} (s : S) (seen failure : Bool) (s' : S)
    → (if seen then answer s (if failure then some s' else none) else (false, s))
      ≡ (if seen && failure then (true, s') else (false, s))
answers s true true s' = refl
answers s true false s' = refl
answers s false failure s' = refl

module _ {S : Type 0} (db : ItemStore LedgerItem S) where
  pub claim_free :
      (s : S) (e : NotificationEvent) (now : String)
      → db.get_item s (partition_key e.tenant_id) (sort_key e.dedupe_key) ≡ none
      → claim_notification_event db s e now ≡ (
        true,
        db.write_item s (partition_key e.tenant_id) (sort_key e.dedupe_key) (claimed_item e now),
      )
  unfolding claim_notification_event
  claim_free s e now h =
      rw
        (put_new_free db s (partition_key e.tenant_id) (sort_key e.dedupe_key) (claimed_item e now)
          h)
        refl

  pub claim_taken :
      (s : S) (e : NotificationEvent) (now : String) (item : LedgerItem) (seen : Bool)
      → db.get_item s (partition_key e.tenant_id) (sort_key e.dedupe_key) ≡ some item
      → reads_failed (db.peek s (partition_key e.tenant_id) (sort_key e.dedupe_key)) ≡ seen
      → claim_notification_event db s e now ≡ (
          if seen && is_failed item
          then (
            true,
            db.write_item s
                (partition_key e.tenant_id)
                (sort_key e.dedupe_key)
                (reclaimed e now item),
          )
          else (false, s))
  unfolding claim_notification_event claim_failed
  claim_taken s e now item seen h late =
      rw
        (
          put_new_taken db s (partition_key e.tenant_id) (sort_key e.dedupe_key)
              (claimed_item e now) item h,
          late,
          update_when_there db s (partition_key e.tenant_id) (sort_key e.dedupe_key) is_failed
              (reclaimed e now) item h,
        )
        (answers s seen (is_failed item) (
          db.write_item s (partition_key e.tenant_id) (sort_key e.dedupe_key)
            (reclaimed e now item)))
