-- ===== src/Notify/Reopen.antt =====
-- An event of notifications/inbox.py whose work failed is claimed again.
use xoc_api_aws.Base.{
  String, ◌≡◌, refl, true, Option, none, some, ◌==◌, arith, ==→eq, Option-cases, inl, inr,
}
use xoc_api_aws.Base.Text.{upper}
use xoc_api_aws.Base.Store.{ItemStore}
use xoc_api_aws.Notify.Events.{NotificationEvent}
use xoc_api_aws.Notify.Ledger.{
  LedgerItem, claim_notification_event, partition_key, sort_key, reads_failed, is_failed,
  text_status,
}
use xoc_api_aws.Notify.LedgerLock.{unlocked, lock, lock_of, lock_status}
use xoc_api_aws.Notify.Claims.{claim_taken}

free_closed : lock_of none ≡ unlocked → ⊥
unfolding lock_of
free_closed h = cc

status_failed : (o : Option String) → lock_status o ≡ unlocked → (text_status o == "FAILED") ≡ true
status_failed none h = cc
status_failed (some s) h = ground arith

unlocked_status :
    (item : LedgerItem)
    → lock_of (some item) ≡ unlocked
    → (text_status item.status == "FAILED") ≡ true
unfolding lock_of
unlocked_status item h = status_failed item.status h

failed_read : (s : String) → (s == "FAILED") ≡ true → (upper s == "FAILED") ≡ true
unfolding upper
failed_read s h = rw (==→eq s "FAILED" h) refl

-- An open event is claimed, if the read is not late.
pub claim_open :
    {L : Type 0} (ledgers : ItemStore LedgerItem L) (s : L) (e : NotificationEvent) (now : String)
    → lock ledgers s e.tenant_id e.dedupe_key ≡ unlocked
    → ledgers.peek s (partition_key e.tenant_id) (sort_key e.dedupe_key)
      ≡ ledgers.get_item s (partition_key e.tenant_id) (sort_key e.dedupe_key)
    → (claim_notification_event ledgers s e now).0 ≡ true
unfolding is_failed reads_failed
claim_open ledgers s e now h fresh =
    elim (Option-cases (ledgers.get_item s (partition_key e.tenant_id) (sort_key e.dedupe_key))) [
      | inl absent ↦ absurd (free_closed (rw absent at h))
      | inr (item, there) ↦
          let failure = unlocked_status item (rw there at h) in
          rw
            (
              claim_taken ledgers s e now item true there
                  (rw (fresh, there) (failed_read (text_status item.status) failure)),
              failure,
            )
            refl
    ]
