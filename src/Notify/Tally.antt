-- ===== src/Notify/Tally.antt =====
-- The counts of the loop of handlers/workers/notification_events.py: every device of the audience
-- is counted once, as sent or as failed.
use xoc_api_aws.Base.{
  ℕ, zero, suc, ◌+◌, ◌≤◌, ◌≡◌, refl, sym, ◌∙◌, ◌||◌, List, [], ◌∷◌, ◌==◌, length, take, arith,
  Bool-cases, inl, inr,
}
use xoc_api_aws.Base.Outcome.{Error, Result, ok, err}
use xoc_api_aws.Notify.Sending.{
  Device, Delivery, Counts, drop, chunks, is_device_error, one_failed, count_delivery, count_result,
  ended, next, send_one, send_batch, send_batches,
}

length_split :
    {A : Type 0} (n : ℕ) (xs : List A) → length (take n xs) + length (drop n xs) ≡ length xs
length_split zero xs = omega arith
length_split (suc n) [] = refl
length_split (suc n) (x ∷ xs) = omega (arith, length_split n xs)

-- How many devices stand in the batches.
abbrev pub total : {A : Type 0} → List (List A) → ℕ
total [] = 0
total (xs ∷ xss) = length xs + total xss

-- Batches of at least one item hold all items.
pub chunks-total :
    {A : Type 0} (fuel size : ℕ) (xs : List A)
    → length xs ≤ fuel
    → 1 ≤ size
    → total (chunks fuel xs size) ≡ length xs
unfolding chunks
chunks-total zero size [] h k = refl
chunks-total zero size (x ∷ xs) h k = omega arith
chunks-total (suc fuel) size [] h k = refl
chunks-total (suc fuel) zero (x ∷ xs) h k = omega arith
chunks-total (suc fuel) (suc size) (x ∷ xs) h k = omega (
  arith,
  length_split size xs,
  chunks-total fuel (suc size) (drop size xs) (omega (arith, length_split size xs)) k,
)

-- How many devices were counted.
abbrev pub counted : Counts → ℕ
counted c = c.sent + c.failed

module _ {O : Type 0} (send : O → Device → Result Delivery × O) where
  next-ok :
      (m : Result Counts × O) (f : Counts → O → Result Counts × O) {c' : Counts} {o' : O}
      → next m f ≡ ended c' o'
      → (c : Counts) × (o : O) × (m ≡ ended c o) × (f c o ≡ ended c' o')
  next-ok (ok c, o) f h = (c, o, refl, h)
  next-ok (err x, o) f h = cc

  pair_count : {c c' : Counts} {o o' : O} → ended c o ≡ ended c' o' → counted c ≡ counted c'
  pair_count h = cc

  failed_end : {x : Error} {o o' : O} {c' : Counts} → (err x, o) ≡ ended c' o' → ⊥
  failed_end h = cc

  one_failed-counted : (c : Counts) → counted (one_failed c) ≡ suc (counted c)
  one_failed-counted c = omega arith

  delivery-counted : (c : Counts) (d : Delivery) → counted (count_delivery c d) ≡ suc (counted c)
  unfolding count_delivery
  delivery-counted c d = ground arith

  result-counted :
      (c : Counts) (r : Result Delivery × O) {c' : Counts} {o' : O}
      → count_result send c r ≡ ended c' o'
      → counted c' ≡ suc (counted c)
  result-counted c (ok d, o) h = sym (pair_count h) ∙ delivery-counted c d
  result-counted c (err x, o) h = elim (Bool-cases (is_device_error x)) [
    | inl device ↦ sym (pair_count (rw device at h)) ∙ one_failed-counted c
    | inr other ↦ absurd (failed_end (rw other at h))
  ]

  send_one-counted :
      (o : O) (device : Device) (c : Counts) {c' : Counts} {o' : O}
      → send_one send o device c ≡ ended c' o'
      → counted c' ≡ suc (counted c)
  unfolding send_one
  send_one-counted o device c h =
      elim (Bool-cases (device.device_id == "" || device.user_id == "")) [
        | inl bare ↦ sym (pair_count (rw bare at h)) ∙ one_failed-counted c
        | inr named ↦ result-counted c (send o device) (rw named at h)
      ]

  send_batch-counted :
      (o : O) (ds : List Device) (c : Counts) {c' : Counts} {o' : O}
      → send_batch send o ds c ≡ ended c' o'
      → counted c' ≡ counted c + length ds
  unfolding send_batch
  send_batch-counted o [] c h = omega (arith, pair_count h)
  send_batch-counted o (d ∷ ds) c h =
      let (c1, o1, one, rest) = next-ok (send_one send o d c) _ h in
      omega (arith, send_one-counted o d c one, send_batch-counted o1 ds c1 rest)

  -- When the loop ends, every device was counted once.
  pub send_batches-counted :
      (o : O) (bs : List (List Device)) (c : Counts) {c' : Counts} {o' : O}
      → send_batches send o bs c ≡ ended c' o'
      → counted c' ≡ counted c + total bs
  unfolding send_batches
  send_batches-counted o [] c h = omega (arith, pair_count h)
  send_batches-counted o (b ∷ bs) c h =
      let (c1, o1, one, rest) = next-ok (send_batch send o b c) _ h in
      omega (arith, send_batch-counted o b c one, send_batches-counted o1 bs c1 rest)
