-- ===== src/Notify/LedgerLock.antt =====
-- The records of notifications/inbox.py are locks: what the operations do to the lock of an event,
-- whatever late reads show.
use Prim.Native.String
use package.text.Mathlib.TextLemmas.{append_cancel_left}
use xoc_api_aws.Base.{
  String, ◌≡◌, ◌≢◌, ◌∙◌, refl, sym, subst, Bool, true, false, ◌&&◌, Option, none, some, ◌==◌,
  if◌then◌else◌, arith, eq_iff, Bool-cases, Option-cases, inl, inr, ne→==, ==→eq,
}
use xoc_api_aws.Base.Store.{ItemStore, one_key, update_any}
use xoc_api_aws.Notify.Events.{NotificationEvent}
use xoc_api_aws.Notify.Claims.{claim_free, claim_taken}
use xoc_api_aws.Notify.Ledger.{
  LedgerItem, partition_key, sort_key, claimed_item, reclaimed, is_failed, reads_failed,
  text_status, completed, failed, claim_notification_event, complete_notification_event,
  fail_notification_event,
}

-- What an event's record says of the work on it.
pub data Lock : Type 0 where
  free : Lock
  held : Lock
  done : Lock
  unlocked : Lock

abbrev pub lock_status : Option String → Lock
lock_status none = held
lock_status (some s) = if s == "FAILED" then unlocked else if s == "COMPLETED" then done else held

unfoldable pub lock_of : Option LedgerItem → Lock
lock_of none = free
lock_of (some item) = lock_status item.status

-- What the workers ask of the table.
pub data Op : Type 0 where
  claim : NotificationEvent → String → Op
  complete : String → String → String → Option String → Op
  fail : String → String → String → String → Option String → Op

pub data Request : Type 0 where
  elsewhere : Request
  claims : Request
  completes : Request
  fails : Request

abbrev pub one_event : String → String → String → String → Bool
one_event t d t' d' = t == t' && d == d'

-- What an operation asks of the record of the event `d` of the tenant `t`.
unfoldable pub request_at : String → String → Op → Request
request_at t d (claim e now) = if one_event e.tenant_id e.dedupe_key t d then claims else elsewhere
request_at t d (complete t' d' now c) = if one_event t' d' t d then completes else elsewhere
request_at t d (fail t' d' error now c) = if one_event t' d' t d then fails else elsewhere

-- The lock: one holder at a time, never again after the work is done, and again after it failed.
-- A claim of a failed event may be refused.
pub data LockStep : Lock → Request → Bool → Lock → Type 0 where
  untouched : (l : Lock) (b : Bool) → LockStep l elsewhere b l
  first : LockStep free claims true held
  again : LockStep unlocked claims true held
  refused : LockStep unlocked claims false unlocked
  busy : LockStep held claims false held
  over : LockStep done claims false done
  finishes : (l : Lock) → LockStep l completes true done
  gives_up : (l : Lock) → LockStep l fails true unlocked

not_same : (s t : String) → (s == t) ≡ false → s ≢ t
not_same s t different h = let same = (eq_iff s t).1 h in cc

prefixed_same : (p s t : String) → (String.◌++◌ p s == String.◌++◌ p t) ≡ (s == t)
prefixed_same p s t = elim (Bool-cases (s == t)) [
  | inl same ↦ rw (==→eq s t same) ((eq_iff _ _).1 refl ∙ sym ((eq_iff t t).1 refl))
  | inr different ↦
      ne→== _ _ (λ h. not_same s t different (append_cancel_left p s t h)) ∙ sym different
]

one_key_event :
    (t d t' d' : String)
    → one_key (partition_key t) (sort_key d) (partition_key t') (sort_key d') ≡ one_event t d t' d'
one_key_event t d t' d' = rw (prefixed_same "TENANT#" t t', prefixed_same "DEDUPE#" d d') refl

both : (a b : Bool) → (a && b) ≡ true → (a ≡ true) × (b ≡ true)
both a b h = ground arith

failed_status : (o : Option String) → (text_status o == "FAILED") ≡ true → lock_status o ≡ unlocked
failed_status none h = cc
failed_status (some s) h = rw h refl

if_apply {ℓ} :
    {A B : Type ℓ} (f : A → B) (b : Bool) (x y : A)
    → f (if b then x else y) ≡ (if b then f x else f y)
if_apply f true x y = refl
if_apply f false x y = refl

module _ {S : Type 0} (db : ItemStore LedgerItem S) where
  -- The lock of an event in a table.
  abbrev pub lock : S → String → String → Lock
  lock s t d = lock_of (db.get_item s (partition_key t) (sort_key d))

  -- One operation: its answer, and the table after it.
  unfoldable pub step : S → Op → Bool × S
  step s (claim e now) = claim_notification_event db s e now
  step s (complete t d now c) = (true, complete_notification_event db s t d now c)
  step s (fail t d error now c) = (true, fail_notification_event db s t d error now c)

  lock-write :
      (s : S) (t d t' d' : String) (a : LedgerItem)
      → lock (db.write_item s (partition_key t) (sort_key d) a) t' d'
        ≡ (if one_event t d t' d' then lock_of (some a) else lock s t' d')
  lock-write s t d t' d' a =
      rw
        (
          db.get-write s (partition_key t) (sort_key d) a (partition_key t') (sort_key d'),
          one_key_event t d t' d',
        )
        (if_apply lock_of (one_event t d t' d') (some a) _)

  lock_same : (s : S) (t d t' d' : String) → one_event t d t' d' ≡ true → lock s t d ≡ lock s t' d'
  lock_same s t d t' d' one =
      let (tenant, event) = both (t == t') (d == d') one in
      rw (==→eq t t' tenant, ==→eq d d' event) refl

  -- A record is written for an event: there the lock is that of the record, elsewhere as before.
  write-LockStep :
      (s : S) (t d t' d' : String) (r : Request) (a : LedgerItem) (l : Lock)
      → lock_of (some a) ≡ l
      → LockStep (lock s t d) r true l
      → LockStep
          (lock s t' d')
          (if one_event t d t' d' then r else elsewhere)
          true
          (lock (db.write_item s (partition_key t) (sort_key d) a) t' d')
  write-LockStep s t d t' d' r a l becomes h = elim (Bool-cases (one_event t d t' d')) [
    | inr other ↦ rw (lock-write s t d t' d' a, other) (untouched (lock s t' d') true)
    | inl one ↦
        rw (lock-write s t d t' d' a, one, becomes)
          (subst (λ (m : Lock). LockStep m r true l) (lock_same s t d t' d' one) h)
  ]

  completed_lock :
      (now : String) (c : Option String) (item : LedgerItem)
      → lock_of (some (completed now c item)) ≡ done
  unfolding lock_of completed
  completed_lock now none item = refl
  completed_lock now (some id) item = ground arith

  failed_lock :
      (error now : String) (c : Option String) (item : LedgerItem)
      → lock_of (some (failed now error c item)) ≡ unlocked
  unfolding lock_of failed
  failed_lock error now none item = refl
  failed_lock error now (some id) item = ground arith

  -- A refused claim leaves every lock.
  refused-LockStep :
      (s : S) (t d t' d' : String)
      → LockStep (lock s t d) claims false (lock s t d)
      → LockStep
          (lock s t' d')
          (if one_event t d t' d' then claims else elsewhere)
          false
          (lock s t' d')
  refused-LockStep s t d t' d' h = elim (Bool-cases (one_event t d t' d')) [
    | inr other ↦ rw other (untouched (lock s t' d') false)
    | inl one ↦ rw (one, sym (lock_same s t d t' d' one)) h
  ]

  refusal : (l : Lock) → l ≢ free → LockStep l claims false l
  refusal free h = absurd (h refl)
  refusal held h = busy
  refusal done h = over
  refusal unlocked h = refused

  taken_lock : (item : LedgerItem) → lock_of (some item) ≢ free
  unfolding lock_of
  taken_lock item h = ground arith

  failed_open : (item : LedgerItem) → is_failed item ≡ true → lock_of (some item) ≡ unlocked
  unfolding lock_of is_failed
  failed_open item h = failed_status item.status h

  claim-LockStep :
      (s : S) (e : NotificationEvent) (now t d : String)
      → LockStep
          (lock s t d)
          (if one_event e.tenant_id e.dedupe_key t d then claims else elsewhere)
          (claim_notification_event db s e now).0
          (lock (claim_notification_event db s e now).1 t d)
  unfolding lock_of claimed_item reclaimed
  claim-LockStep s e now t d =
      elim (Option-cases (db.get_item s (partition_key e.tenant_id) (sort_key e.dedupe_key))) [
        | inl absent ↦ rw (claim_free db s e now absent) (
            write-LockStep s e.tenant_id e.dedupe_key t d claims (claimed_item e now) held refl
              (rw absent first))
        | inr (item, there) ↦
            let seen =
              reads_failed (db.peek s (partition_key e.tenant_id) (sort_key e.dedupe_key)) in
            elim (Bool-cases (seen && is_failed item)) [
              | inr kept ↦
                  rw (claim_taken db s e now item seen there refl, kept)
                    (refused-LockStep s e.tenant_id e.dedupe_key t d
                      (refusal (lock s e.tenant_id e.dedupe_key) (rw there (taken_lock item))))
              | inl taken ↦
                  rw (claim_taken db s e now item seen there refl, taken)
                    (write-LockStep s e.tenant_id e.dedupe_key t d claims (reclaimed e now item)
                      held refl
                      (rw (there, failed_open item (both seen (is_failed item) taken).1) again))
            ]
      ]

  -- Whatever late reads show, an operation takes the lock of every event as the automaton does: it is
  -- free, then held by one worker, then over or free to be claimed again.
  pub step-LockStep :
      (s : S) (op : Op) (t d : String)
      → LockStep (lock s t d) (request_at t d op) (step s op).0 (lock (step s op).1 t d)
  unfolding step request_at complete_notification_event fail_notification_event update_any
  step-LockStep s (complete t' d' now c) t d =
      write-LockStep s t' d' t d completes _ done (completed_lock now c _) (finishes (lock s t' d'))
  step-LockStep s (fail t' d' error now c) t d =
      write-LockStep s t' d' t d fails _ unlocked (failed_lock error now c _)
        (gives_up (lock s t' d'))
  step-LockStep s (claim e now) t d = claim-LockStep s e now t d
