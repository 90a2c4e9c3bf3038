-- ===== src/Notify/Summary.antt =====
-- The campaign that handlers/workers/notification_events.py leaves for an event.

use xoc_api_aws.Base.{
  ℕ, ◌+◌, ◌≤◌, String, ◌≡◌, refl, ◌∙◌, true, Option, none, some, List, length, arith, eq_iff,
  Bool-cases, inl, inr,
}
use xoc_api_aws.Base.Tests.{ltb}
use xoc_api_aws.Base.Store.{ItemStore, one_key, update_any}
use xoc_api_aws.Base.Outcome.{Result, ok, err}
use xoc_api_aws.Notify.Events.{NotificationEvent}
use xoc_api_aws.Notify.Ledger.{LedgerItem}
use xoc_api_aws.Notify.Inbox.{InboxItem}
use xoc_api_aws.Notify.Sending.{
  positive_int, Device, NotificationData, Counts, no_counts, chunks, ended,
}
use xoc_api_aws.Notify.Tally.{counted, chunks-total, send_batches-counted}
use xoc_api_aws.Notify.Worker.{
  max_devices_of, batch_size_of, Campaign, Report, World, Services, campaign_partition_key,
  campaign_sort_key, campaign_status, completed_campaign, create_campaign, complete_campaign,
}
use xoc_api_aws.Notify.Process.{too_many, with_outside, finish, give_up, deliver}

-- The campaign counts every device of the audience once, as sent or as failed, and its status is that
-- of its counts.
abbrev pub IsTallied : ℕ → Option Campaign → Type 0
IsTallied total none = ⊥
IsTallied total (some c) =
    (c.total_devices ≡ total)
    × (counted c.counts ≡ total)
    × (c.status ≡ some (campaign_status total c.counts.sent).0)

completed-IsTallied :
    (total : ℕ) (counts : Counts) (error : Option String) (now : String) (c : Campaign)
    → counted counts ≡ total
    → IsTallied total (some (completed_campaign total counts error now c))
unfolding completed_campaign
completed-IsTallied total counts none now c h = (refl, h, refl)
completed-IsTallied total counts (some m) now c h = (refl, h, refl)

positive_int-bound :
    (setting : Option ℕ) (default maximum : ℕ)
    → 1 ≤ default
    → 1 ≤ maximum
    → 1 ≤ positive_int setting default maximum
unfolding positive_int
positive_int-bound none default maximum h k = h
positive_int-bound (some n) default maximum h k = ground arith

total_plain : (n : ℕ) → counted no_counts + n ≡ n
total_plain n = omega arith

one_key_self : (p k : String) → one_key p k p k ≡ true
one_key_self p k = rw ((eq_iff p p).1 refl, (eq_iff k k).1 refl) refl

module _ {L I C O : Type 0} (ledgers : ItemStore LedgerItem L) (inboxes : ItemStore InboxItem I)
    (campaign_items : ItemStore Campaign C) (services : Services O) where
  -- The campaign of a name.
  abbrev pub campaign_at : World L I C O → NotificationEvent → String → Option Campaign
  campaign_at w e id =
      campaign_items.get_item w.campaigns (campaign_partition_key e.tenant_id)
        (campaign_sort_key id)

  complete-IsTallied :
      (w : World L I C O) (e : NotificationEvent) (id : String) (total : ℕ) (counts : Counts)
      (error : Option String)
      → counted counts ≡ total
      → IsTallied total (
          campaign_at
            (complete_campaign ledgers inboxes campaign_items services w e id total counts error)
            e
            id)
  unfolding complete_campaign update_any
  complete-IsTallied w e id total counts error h =
      rw
        (
          campaign_items.get-write w.campaigns (campaign_partition_key e.tenant_id)
              (campaign_sort_key id) _ (campaign_partition_key e.tenant_id) (campaign_sort_key id),
          one_key_self (campaign_partition_key e.tenant_id) (campaign_sort_key id),
        )
        (completed-IsTallied total counts error _ _ h)

  finish-IsTallied :
      (e : NotificationEvent) (id : String) (total : ℕ) (w : World L I C O) (r : Result Counts × O)
      {report : Report}
      → ((c : Counts) (o : O) → r ≡ ended c o → counted c ≡ total)
      → (finish ledgers inboxes campaign_items services e id total w r).result ≡ ok report
      → IsTallied total
          (campaign_at (finish ledgers inboxes campaign_items services e id total w r).world e id)
  unfolding finish
  finish-IsTallied e id total w (err x, o) all h = cc
  finish-IsTallied e id total w (ok counts, o) all h =
      complete-IsTallied (with_outside w o) e id total counts none (all counts o refl)

  -- When the delivery of an event ends without an exception, its campaign counts every device of the
  -- audience once, as sent or as failed, and has the status of its counts.
  pub deliver-IsTallied :
      (w : World L I C O) (e : NotificationEvent) (m : Option String) (x : Option NotificationData)
      (ds : List Device) (report : Report)
      → (deliver ledgers inboxes campaign_items services w e m x ds).result ≡ ok report
      → IsTallied (length ds) (
          campaign_at
            (deliver ledgers inboxes campaign_items services w e m x ds).world
            e
            (services.new_campaign_id w.outside).0)
  unfolding deliver give_up create_campaign
  deliver-IsTallied w e m x ds report h =
      elim (Bool-cases (ltb (max_devices_of services) (length ds))) [
        | inl many ↦ rw many (complete-IsTallied _ e _ (length ds) _ (some too_many) (omega arith))
        | inr few ↦ rw few (
            finish-IsTallied e _ (length ds) _ _
              (λ c o sent.
                send_batches-counted (services.send e x) _
                  (chunks (length ds) ds (batch_size_of services)) no_counts sent
                ∙ total_plain _
                ∙ chunks-total (length ds) (batch_size_of services) ds (omega arith) (
                    positive_int-bound services.batch_size_setting 100 100 (omega arith)
                      (omega arith)))
              (rw few at h))
      ]
