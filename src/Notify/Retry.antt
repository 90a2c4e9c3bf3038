-- ===== src/Notify/Retry.antt =====
-- The work on an event that handlers/workers/notification_events.py has taken up ends: it is
-- completed, or the event is open for another try.
use xoc_api_aws.Base.{
  ℕ, ◌+◌, String, ◌≡◌, subst, true, Option, none, some, List, ◌==◌, length, Bool-cases,
  Option-cases, inl, inr,
}
use xoc_api_aws.Base.Tests.{ltb}
use xoc_api_aws.Base.Store.{ItemStore}
use xoc_api_aws.Base.Outcome.{Result, ok, err, app, invalid_event, crash, Result-cases, and_then}
use xoc_api_aws.Notify.Events.{NotificationEvent, or_text}
use xoc_api_aws.Notify.Ledger.{LedgerItem, claim_notification_event}
use xoc_api_aws.Notify.LedgerLock.{Lock, unlocked, lock}
use xoc_api_aws.Notify.Inbox.{InboxItem}
use xoc_api_aws.Notify.Sending.{Device, NotificationData, Counts, no_counts}
use xoc_api_aws.Notify.Worker.{
  max_devices_of, Campaign, Report, World, Services, completed_event, complete_campaign, Attempt,
  notification_data, now_of,
}
use xoc_api_aws.Notify.Process.{
  with_outside, finish, give_up, deliver, with_devices, with_data, attempt, settle, claimed,
  process_event,
}
use xoc_api_aws.Notify.Releases.{
  IsReleased, IsSilent, IsOther, complete-lock, fail-lock, send_batches-IsSilent,
}

-- The lock of an event in the world.
abbrev pub event_lock :
    {L I C O : Type 0} → ItemStore LedgerItem L → NotificationEvent → World L I C O → Lock
event_lock ledgers e w = lock ledgers w.ledger e.tenant_id e.dedupe_key

-- After the clauses of `except`: completed or open, and open if there was an exception.
abbrev pub IsClosed : Result Report → Lock → Type 0
IsClosed (ok report) l = IsReleased l
IsClosed (err x) l = l ≡ unlocked

module _ {L I C O : Type 0} (ledgers : ItemStore LedgerItem L) (inboxes : ItemStore InboxItem I)
    (campaign_items : ItemStore Campaign C) (services : Services O)
    (quiet_audience : (o : O) (t u a : String) (n : ℕ) → IsSilent (services.audience o t u a n))
    (quiet_send : (e : NotificationEvent) (d : Option NotificationData) (o : O) (device : Device)
      → IsSilent (services.send e d o device).0)
    (quiet_complete : (o : O) → IsSilent (services.complete_write o).0)
    (fail_writes : (o : O) → (services.fail_write o).0 ≡ ok tt) where
  -- An attempt that ended well has released its event; one that did not has raised no
  -- NotificationEventValidationError.
  abbrev IsOver : NotificationEvent → World L I C O → Result Report → Type 0
  IsOver e w (ok report) = IsReleased (event_lock ledgers e w)
  IsOver e w (err x) = IsOther x

  abbrev IsSettled : NotificationEvent → Attempt (World L I C O) → Type 0
  IsSettled e a = IsOver e a.world a.result

  -- The event is completed, or the write has raised.
  completed-IsOver :
      (w : World L I C O) (e : NotificationEvent) (id : Option String) (report : Report)
      → IsOver e (completed_event ledgers inboxes campaign_items services w e id).1 (
          and_then
            (completed_event ledgers inboxes campaign_items services w e id).0
            λ _. ok report)
  completed-IsOver w e id report = elim (Result-cases (services.complete_write w.outside).0) [
    | inl (u, went) ↦ rw went (
        rw
          (complete-lock ledgers w.ledger e.tenant_id e.dedupe_key
            (now_of ledgers inboxes campaign_items services w) id)
          tt)
    | inr (x, refused) ↦
        rw refused
          (subst (λ (r : Result (Unit {0})). IsSilent r) refused (quiet_complete w.outside))
  ]

  finish-IsSettled :
      (e : NotificationEvent) (id : String) (total : ℕ) (w : World L I C O) (r : Result Counts × O)
      → IsSilent r.0
      → IsSettled e (finish ledgers inboxes campaign_items services e id total w r)
  unfolding finish
  finish-IsSettled e id total w (err x, o) h = h
  finish-IsSettled e id total w (ok counts, o) h =
      completed-IsOver
        (complete_campaign ledgers inboxes campaign_items services (with_outside w o) e id total
          counts none)
        e (some id) _

  give_up-IsSettled :
      (w : World L I C O) (e : NotificationEvent) (id : String) (total : ℕ)
      → IsSettled e (give_up ledgers inboxes campaign_items services w e id total)
  unfolding give_up
  give_up-IsSettled w e id total =
      rw (fail_writes _) (rw (fail-lock ledgers _ e.tenant_id e.dedupe_key _ _ _) tt)

  deliver-IsSettled :
      (w : World L I C O) (e : NotificationEvent) (m : Option String) (x : Option NotificationData)
      (ds : List Device)
      → IsSettled e (deliver ledgers inboxes campaign_items services w e m x ds)
  unfolding deliver
  deliver-IsSettled w e m x ds = elim (Bool-cases (ltb (max_devices_of services) (length ds))) [
    | inl many ↦ rw many (give_up-IsSettled _ e _ (length ds))
    | inr few ↦ rw few (
        finish-IsSettled e _ (length ds) _ _
          (send_batches-IsSilent (services.send e x) (quiet_send e x) _ _ no_counts))
  ]

  devices-IsSettled :
      (w : World L I C O) (e : NotificationEvent) (m : Option String) (x : Option NotificationData)
      (r : Result (List Device))
      → IsSilent r
      → IsSettled e (with_devices ledgers inboxes campaign_items services w e m x r)
  devices-IsSettled w e m x (ok ds) h = deliver-IsSettled w e m x ds
  devices-IsSettled w e m x (err y) h = h

  data-IsSettled :
      (w : World L I C O) (e : NotificationEvent) (m : Option String)
      (r : Result (Option NotificationData))
      → IsSilent r
      → IsSettled e (with_data ledgers inboxes campaign_items services w e m r)
  data-IsSettled w e m (err y) h = h
  data-IsSettled w e m (ok x) h = devices-IsSettled w e m x _ (
      quiet_audience w.outside e.tenant_id (or_text e.recipient_user_id "") e.audience_type
        (max_devices_of services + 1))

  notification_data-IsSilent :
      (e : NotificationEvent) (o : Option InboxItem) → IsSilent (notification_data e o)
  unfolding notification_data
  notification_data-IsSilent e none = tt
  notification_data-IsSilent e (some item) = elim (Option-cases item.content) [
    | inl missing ↦ rw missing tt
    | inr (c, there) ↦ rw there tt
  ]

  attempt-IsSettled :
      (w : World L I C O) (e : NotificationEvent) (m : Option String)
      → IsSettled e (attempt ledgers inboxes campaign_items services w e m)
  unfolding attempt
  attempt-IsSettled w e m = data-IsSettled _ e m _ (notification_data-IsSilent e _)

  settle-IsClosed :
      (e : NotificationEvent) (w : World L I C O) (id : Option String) (r : Result Report)
      → IsOver e w r
      → IsClosed
          (settle ledgers inboxes campaign_items services e w id r).0
          (event_lock ledgers e (settle ledgers inboxes campaign_items services e w id r).1)
  unfolding settle
  settle-IsClosed e w id (ok report) h = h
  settle-IsClosed e w id (err (invalid_event m)) h = absurd h
  settle-IsClosed e w id (err crash) h =
      rw (fail_writes w.outside) (fail-lock ledgers w.ledger e.tenant_id e.dedupe_key _ _ id)
  settle-IsClosed e w id (err (app s c m)) h = elim (Bool-cases (c == "validation_error")) [
    | inl permanent ↦
        rw (fail_writes w.outside, permanent)
          (fail-lock ledgers w.ledger e.tenant_id e.dedupe_key _ _ id)
    | inr other ↦
        rw (fail_writes w.outside, other)
          (fail-lock ledgers w.ledger e.tenant_id e.dedupe_key _ _ id)
  ]

  -- The worker that takes up an event ends the work on it: the event is completed or open for another
  -- try when it returns, and open when it raises, also when complete_notification_event raises. This
  -- holds if fail_notification_event does not raise, and what finds the audience, what sends and
  -- complete_notification_event raise no NotificationEventValidationError.
  pub process_event-IsClosed :
      (w : World L I C O) (e : NotificationEvent) (m : Option String)
      → (claim_notification_event ledgers w.ledger e
          (now_of ledgers inboxes campaign_items services w)).0
        ≡ true
      → IsClosed
          (process_event ledgers inboxes campaign_items services w e m).0
          (event_lock ledgers e (process_event ledgers inboxes campaign_items services w e m).1)
  unfolding process_event claimed
  process_event-IsClosed w e m h =
      let a = attempt ledgers inboxes campaign_items services _ e m in
      rw h (settle-IsClosed e a.world a.campaign_id a.result (attempt-IsSettled _ e m))
