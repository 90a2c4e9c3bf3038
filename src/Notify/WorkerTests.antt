-- ===== src/Notify/WorkerTests.antt =====
-- Runs of the worker of the events, and its theorems at concrete inputs.
use xoc_api_aws.Base.{ℕ, ◌≡◌, refl, true, none, some, [], ◌∷◌}
use xoc_api_aws.Base.Store.{rows_store, RowsOf, ItemStore, put_new, find_row}
use xoc_api_aws.Base.Value.{end}
use xoc_api_aws.Base.Outcome.{Result, ok, err, crash}
use xoc_api_aws.Notify.Ledger.{LedgerItem, claim_notification_event}
use xoc_api_aws.Notify.Inbox.{InboxItem}
use xoc_api_aws.Notify.Sending.{
  positive_int, Device, Delivery, send_batches, chunks, send_batch, send_one, count_delivery,
}
use xoc_api_aws.Notify.Worker.{Campaign, World, Services, create_campaign, campaign_status}
use xoc_api_aws.Notify.Process.{deliver, process_event, finish}
use xoc_api_aws.Notify.Retry.{IsClosed, process_event-IsClosed, event_lock}
use xoc_api_aws.Notify.Summary.{IsTallied, campaign_at, deliver-IsTallied}
use xoc_api_aws.Notify.Tests.{no_repr, no_size, approved_event, ledgers, plain_digest, inboxes}

-- One device; its message is refused by the service, or the service breaks.
abbrev phone : Device
phone = record { device_id = "d1"; user_id = "42"; registration = end }

abbrev services_with : Result Delivery → Services ℕ
services_with r = record {
  clock = λ o. "5";
  new_campaign_id = λ o. ("campaign-1", o);
  audience = λ o t u a n. ok (phone ∷ []);
  send = λ e d o device. (r, o);
  complete_write = λ o. (ok tt, o);
  fail_write = λ o. (ok tt, o);
  error_text = λ x. "broken";
  max_devices_setting = none;
  batch_size_setting = some 0;
  digest = plain_digest;
  repr = no_repr;
  dumps_size = no_size;
  loads = λ s. none;
}

abbrev campaigns : ItemStore Campaign (RowsOf Campaign)
campaigns = rows_store Campaign

abbrev first_world : World (RowsOf LedgerItem) (RowsOf InboxItem) (RowsOf Campaign) ℕ
first_world = record { ledger = []; inbox = []; campaigns = []; outside = 0 }

abbrev refused_delivery : Delivery
refused_delivery = record { delivery_status = "FAILED"; invalid_token = true }

claim_granted : (claim_notification_event ledgers first_world.ledger approved_event "5").0 ≡ true
unfolding claim_notification_event put_new find_row
claim_granted = refl

process_event-IsClosed_example :
    IsClosed
      (process_event ledgers inboxes campaigns
        (services_with (ok refused_delivery))
        first_world
        approved_event
        none).0
      (event_lock ledgers approved_event
        (process_event ledgers inboxes campaigns
          (services_with (ok refused_delivery))
          first_world
          approved_event
          none).1)
process_event-IsClosed_example =
    process_event-IsClosed ledgers inboxes campaigns (services_with (ok refused_delivery))
      (λ o t u a n. tt) (λ e d o device. tt) (λ o. tt) (λ o. refl) first_world approved_event none
      claim_granted

-- The service breaks, and the event is taken up again.
abbrev broken : Services ℕ
broken = services_with (err crash)

delivery_ok :
    (deliver ledgers inboxes campaigns
      (services_with (ok refused_delivery))
      first_world
      approved_event
      none
      none
      (phone ∷ [])).result
    ≡ ok (record {
      status = "failed";
      campaign_status = some "FAILED";
      event_id = "e1";
      campaign_id = some "campaign-1";
    })
unfolding positive_int deliver finish send_batches chunks send_batch send_one campaign_status
    create_campaign count_delivery
delivery_ok = refl

deliver-IsTallied_example : IsTallied 1 (
    campaign_at ledgers inboxes campaigns
      (services_with (ok refused_delivery))
      (deliver ledgers inboxes campaigns
        (services_with (ok refused_delivery))
        first_world
        approved_event
        none
        none
        (phone ∷ [])).world
      approved_event
      "campaign-1")
deliver-IsTallied_example =
    deliver-IsTallied ledgers inboxes campaigns (services_with (ok refused_delivery)) first_world
      approved_event none none (phone ∷ [])
      (record {
        status = "failed";
        campaign_status = some "FAILED";
        event_id = "e1";
        campaign_id = some "campaign-1";
      })
      delivery_ok
