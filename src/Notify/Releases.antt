-- ===== src/Notify/Releases.antt =====
-- What process_notification_event of handlers/workers/notification_events.py leaves in the ledger.
use xoc_api_aws.Base.{
  String, ◌≡◌, refl, Bool, true, ◌||◌, Option, List, [], ◌∷◌, ◌==◌, eq_iff, Bool-cases, inl, inr,
}
use xoc_api_aws.Base.Store.{ItemStore}
use xoc_api_aws.Base.Outcome.{Error, Result, ok, err, invalid_event}
use xoc_api_aws.Notify.Ledger.{LedgerItem, complete_notification_event, fail_notification_event}
use xoc_api_aws.Notify.LedgerLock.{
  Lock, done, unlocked, complete, fail, completes, fails, request_at, LockStep, finishes, gives_up,
  lock, step, step-LockStep, one_event,
}
use xoc_api_aws.Notify.Sending.{
  Device, Delivery, Counts, next, count_result, send_one, send_batch, send_batches, is_device_error,
}

-- The work on the event is over, or may be taken up again.
abbrev pub IsReleased : Lock → Type 0
IsReleased done = Unit
IsReleased unlocked = Unit
IsReleased l = ⊥

-- No NotificationEventValidationError.
abbrev pub IsOther : Error → Type 0
IsOther (invalid_event m) = ⊥
IsOther x = Unit

abbrev pub IsSilent : {A : Type 0} → Result A → Type 0
IsSilent (ok a) = Unit
IsSilent (err x) = IsOther x

completes_lock : {l l' : Lock} {b : Bool} → LockStep l completes b l' → l' ≡ done
completes_lock (finishes l) = refl

fails_lock : {l l' : Lock} {b : Bool} → LockStep l fails b l' → l' ≡ unlocked
fails_lock (gives_up l) = refl

one_self : (t d : String) → one_event t d t d ≡ true
one_self t d = rw ((eq_iff t t).1 refl, (eq_iff d d).1 refl) refl

module _ {L : Type 0} (ledgers : ItemStore LedgerItem L) where
  pub complete-lock :
      (s : L) (t d now : String) (c : Option String)
      → lock ledgers (complete_notification_event ledgers s t d now c) t d ≡ done
  unfolding request_at step
  complete-lock s t d now c =
      completes_lock (rw (one_self t d) at (step-LockStep ledgers s (complete t d now c) t d))

  pub fail-lock :
      (s : L) (t d error now : String) (c : Option String)
      → lock ledgers (fail_notification_event ledgers s t d error now c) t d ≡ unlocked
  unfolding request_at step
  fail-lock s t d error now c =
      fails_lock (rw (one_self t d) at (step-LockStep ledgers s (fail t d error now c) t d))

module _ {O : Type 0} (send : O → Device → Result Delivery × O)
    (quiet : (o : O) (d : Device) → IsSilent (send o d).0) where
  next-IsSilent :
      (m : Result Counts × O) (f : Counts → O → Result Counts × O)
      → IsSilent m.0
      → ((c : Counts) (o : O) → IsSilent (f c o).0)
      → IsSilent (next m f).0
  next-IsSilent (ok c, o) f h k = k c o
  next-IsSilent (err x, o) f h k = h

  result-IsSilent :
      (c : Counts) (r : Result Delivery × O) → IsSilent r.0 → IsSilent (count_result send c r).0
  result-IsSilent c (ok d, o) h = tt
  result-IsSilent c (err x, o) h = elim (Bool-cases (is_device_error x)) [
    | inl device ↦ rw device tt
    | inr other ↦ rw other h
  ]

  send_one-IsSilent : (o : O) (d : Device) (c : Counts) → IsSilent (send_one send o d c).0
  unfolding send_one
  send_one-IsSilent o d c = elim (Bool-cases (d.device_id == "" || d.user_id == "")) [
    | inl bare ↦ rw bare tt
    | inr named ↦ rw named (result-IsSilent c (send o d) (quiet o d))
  ]

  send_batch-IsSilent :
      (o : O) (ds : List Device) (c : Counts) → IsSilent (send_batch send o ds c).0
  unfolding send_batch
  send_batch-IsSilent o [] c = tt
  send_batch-IsSilent o (d ∷ ds) c =
      next-IsSilent (send_one send o d c) _ (send_one-IsSilent o d c)
        (λ c' o'. send_batch-IsSilent o' ds c')

  pub send_batches-IsSilent :
      (o : O) (bs : List (List Device)) (c : Counts) → IsSilent (send_batches send o bs c).0
  unfolding send_batches
  send_batches-IsSilent o [] c = tt
  send_batches-IsSilent o (b ∷ bs) c =
      next-IsSilent (send_batch send o b c) _ (send_batch-IsSilent o b c)
        (λ c' o'. send_batches-IsSilent o' bs c')
