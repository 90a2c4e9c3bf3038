-- ===== src/Notify/Sending.antt =====
-- Sending a notification to the devices of its audience: the loop of handlers/workers/
-- notification_events.py and its counts.
use xoc_api_aws.Base.{
  ℕ, zero, suc, String, Bool, false, ◌||◌, Option, none, some, List, [], ◌∷◌, ◌==◌, if◌then◌else◌,
  take,
}
use xoc_api_aws.Base.Tests.{leb}
use xoc_api_aws.Base.Outcome.{Error, Result, ok, err, app}
use xoc_api_aws.Base.Value.{Fields}

-- A registration of a device, with the two names that the worker reads as texts.
pub record Device : Type 0 where
  pub device_id : String
  pub user_id : String
  pub registration : Fields

-- What _send_push_to_registered_device returns, as far as the worker reads it.
pub record Delivery : Type 0 where
  pub delivery_status : String
  pub invalid_token : Bool

-- notification_data
pub record NotificationData : Type 0 where
  pub notification_id : String
  pub event_type : String
  pub resource_type : String
  pub resource_id : String

pub record Counts : Type 0 where
  pub sent : ℕ
  pub failed : ℕ
  pub invalid : ℕ

abbrev pub no_counts : Counts
no_counts = record { sent = 0; failed = 0; invalid = 0 }

-- _positive_int_env, of the number in the setting: `min(max(value, 1), maximum)`; a negative number
-- counts as zero
unfoldable pub positive_int : Option ℕ → ℕ → ℕ → ℕ
positive_int none default maximum = default
positive_int (some n) default maximum =
    if leb 1 n then if leb n maximum then n else maximum else if leb 1 maximum then 1 else maximum

abbrev pub drop {ℓ} : {A : Type ℓ} → ℕ → List A → List A
drop zero xs = xs
drop (suc n) [] = []
drop (suc n) (x ∷ xs) = drop n xs

-- _chunks, in at most `fuel` steps
unfoldable pub chunks {ℓ} : {A : Type ℓ} → ℕ → List A → ℕ → List (List A)
chunks zero items size = []
chunks (suc fuel) [] size = []
chunks (suc fuel) (item ∷ items) size =
    take size (item ∷ items) ∷ chunks fuel (drop size (item ∷ items)) size

-- `except (ConfigurationError, ValidationError)`
abbrev pub is_code : String → Error → Bool
is_code expected (app _ code _) = code == expected
is_code expected _ = false

unfoldable pub is_device_error : Error → Bool
is_device_error x = is_code "configuration_error" x || is_code "validation_error" x

-- The counts after a device was not sent to, and after a delivery.
abbrev pub one_failed : Counts → Counts
one_failed c = record c { failed = suc c.failed }

unfoldable pub count_delivery : Counts → Delivery → Counts
count_delivery c d =
    let c' =
      if d.delivery_status == "SUCCESSFUL" then record c { sent = suc c.sent } else one_failed c in
    if d.invalid_token then record c' { invalid = suc c'.invalid } else c'

-- The loop ended with these counts.
abbrev pub ended : {O : Type 0} → Counts → O → Result Counts × O
ended c o = (ok c, o)

-- The step after one that ended well.
abbrev pub next :
    {O : Type 0} → Result Counts × O → (Counts → O → Result Counts × O) → Result Counts × O
next (ok c, o) f = f c o
next (err x, o) f = (err x, o)

module _ {O : Type 0} (send : O → Device → Result Delivery × O) where
  abbrev pub count_result : Counts → Result Delivery × O → Result Counts × O
  count_result c (ok d, o) = (ok (count_delivery c d), o)
  count_result c (err x, o) = if is_device_error x then (ok (one_failed c), o) else (err x, o)

  -- The body of the loop for one device.
  unfoldable pub send_one : O → Device → Counts → Result Counts × O
  unfolding is_device_error count_delivery
  send_one o device c =
      if device.device_id == "" || device.user_id == ""
      then (ok (one_failed c), o)
      else count_result c (send o device)

  -- The inner loop, over one batch.
  unfoldable pub send_batch : O → List Device → Counts → Result Counts × O
  send_batch o [] c = (ok c, o)
  send_batch o (device ∷ devices) c = next (send_one o device c) λ c' o'. send_batch o' devices c'

  -- The outer loop.
  unfoldable pub send_batches : O → List (List Device) → Counts → Result Counts × O
  send_batches o [] c = (ok c, o)
  send_batches o (batch ∷ batches) c =
      next (send_batch o batch c) λ c' o'. send_batches o' batches c'
