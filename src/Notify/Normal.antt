-- ===== src/Notify/Normal.antt =====
-- What the producers of events build, the worker takes unchanged: the validation of
-- notifications/events.py leaves what it has given.

use xoc_api_aws.Base.{
  ℕ, String, ◌≡◌, refl, subst, true, false, Option, none, some, List, [], ◌∷◌, ◌==◌, arith, All,
  ==→eq, Bool-cases, inl, inr,
}
use xoc_api_aws.Base.Tests.{ltb}
use xoc_api_aws.Base.Text.{is_longer}
use xoc_api_aws.Base.Strip.{IsStripped, strip-IsStripped, strip_stripped}
use xoc_api_aws.Base.Value.{
  Value, null, num, text, dict, Fields, end, field, get, or_else, str, truthy,
}
use xoc_api_aws.Base.Outcome.{Error, ok, err, ok-injective}
use xoc_api_aws.Notify.Events.{
  NotificationEvent, one_of_texts, is_safe, text_of, checked_text, checked_option, required_string,
  optional_text, optional_string, safe_metadata, known_text,
}

abbrev pub value_of : Option String → Value
value_of none = null
value_of (some s) = text s

abbrev pub metadata_of : Option Fields → Value
metadata_of none = null
metadata_of (some fs) = dict fs

-- The dictionary that normalize_notification_event returns.
unfoldable pub payload_of : NotificationEvent → Fields
payload_of e = field "version" (num 1) (
    field "eventId" (text e.event_id) (
      field "eventType" (text e.event_type) (
        field "tenantId" (text e.tenant_id) (
          field "audienceType" (text e.audience_type) (
            field "recipientUserId" (value_of e.recipient_user_id) (
              field "title" (text e.title) (
                field "body" (text e.body) (
                  field "deepLink" (value_of e.deep_link) (
                    field "priority" (text e.priority) (
                      field "resourceType" (value_of e.resource_type) (
                        field "resourceId" (value_of e.resource_id) (
                          field "dedupeKey" (text e.dedupe_key) (
                            field "metadata" (metadata_of e.metadata)
                              (field "createdAt" (text e.created_at) end))))))))))))))

-- A text that is stripped, not empty and no longer than this.
pub record IsText (max_length : ℕ) (s : String) : Type 0 where
  pub stripped : IsStripped s
  pub full : (s == "") ≡ false
  pub short : is_longer max_length s ≡ false

abbrev pub IsOption : ℕ → Option String → Type 0
IsOption max_length none = Unit
IsOption max_length (some s) = IsText max_length s

err-not-ok : {A : Type 0} {e : Error} {a : A} → err e ≡ ok a → ⊥
err-not-ok h = cc

pub known-All :
    (P : String → Type 0) (ss : List String) (a : String)
    → All P ss
    → one_of_texts ss a ≡ true
    → P a
known-All P [] a h k = cc
known-All P (s ∷ ss) a h k = elim (Bool-cases (s == a)) [
  | inl here ↦ subst P (==→eq s a here) h.0
  | inr later ↦ known-All P ss a h.1 (rw later at k)
]

pub known-ok :
    (known : List String) (message s v : String)
    → known_text known message s ≡ ok v
    → (one_of_texts known s ≡ true) × (s ≡ v)
unfolding known_text
known-ok known message s v h = ground arith

pub known_again :
    (known : List String) (message s : String)
    → one_of_texts known s ≡ true
    → known_text known message s ≡ ok s
unfolding known_text
known_again known message s h = rw h refl

module _ (repr : Value → String) (dumps_size : Fields → ℕ) where
  checked-IsText :
      (m : ℕ) (name s v : String) → IsStripped s → checked_text m name s ≡ ok v → IsText m v
  unfolding checked_text
  checked-IsText m name s v stripped h = elim (Bool-cases (s == "")) [
    | inl blank ↦ absurd (err-not-ok (rw blank at h))
    | inr full ↦ elim (Bool-cases (is_longer m s)) [
      | inl long ↦ absurd (err-not-ok (rw (full, long) at h))
      | inr short ↦
          subst (IsText m) (ok-injective (rw (full, short) at h))
            (record { stripped = stripped; full = full; short = short })
    ]
  ]

  pub required-IsText :
      (payload : Fields) (name v : String) (m : ℕ)
      → required_string repr dumps_size payload name m ≡ ok v
      → IsText m v
  unfolding required_string
  required-IsText payload name v m h =
      checked-IsText m name _ v
        (strip-IsStripped (text_of repr dumps_size (or_else (get name payload) (text "")))) h

  pub required_again :
      (payload : Fields) (name s : String) (m : ℕ)
      → get name payload ≡ text s
      → IsText m s
      → required_string repr dumps_size payload name m ≡ ok s
  unfolding required_string checked_text or_else truthy text_of str
  required_again payload name s m there t =
      rw (there, t.full, strip_stripped s t.stripped, t.full, t.short) refl

  checked-IsOption :
      (m : ℕ) (name s : String) (o : Option String)
      → IsStripped s
      → checked_option m name s ≡ ok o
      → IsOption m o
  unfolding checked_option
  checked-IsOption m name s o stripped h = elim (Bool-cases (is_longer m s)) [
    | inl long ↦ absurd (err-not-ok (rw long at h))
    | inr short ↦ elim (Bool-cases (s == "")) [
      | inl blank ↦ subst (IsOption m) (ok-injective (rw (short, blank) at h)) tt
      | inr full ↦
          subst (IsOption m) (ok-injective (rw (short, full) at h))
            (record { stripped = stripped; full = full; short = short })
    ]
  ]

  pub optional-IsOption :
      (v : Value) (name : String) (m : ℕ) (o : Option String)
      → optional_text repr dumps_size v name m ≡ ok o
      → IsOption m o
  unfolding optional_text
  optional-IsOption null name m o h = subst (IsOption m) (ok-injective h) tt
  optional-IsOption v name m o h =
      checked-IsOption m name _ o (strip-IsStripped (text_of repr dumps_size v)) h

  pub optional_again :
      (payload : Fields) (name : String) (m : ℕ) (o : Option String)
      → get name payload ≡ value_of o
      → IsOption m o
      → optional_string repr dumps_size payload name m ≡ ok o
  unfolding optional_string optional_text checked_option text_of str
  optional_again payload name m none there t = rw there refl
  optional_again payload name m (some s) there t =
      rw (there, strip_stripped s t.stripped, t.short, t.full) refl

  -- Metadata that the validation gives again, with no forbidden field in it.
  abbrev pub IsKept : Option Fields → Type 0
  IsKept o =
      (safe_metadata repr dumps_size (metadata_of o) ≡ ok o) × (is_safe (metadata_of o) ≡ true)

  pub metadata_again :
      (v : Value) (o : Option Fields) → safe_metadata repr dumps_size v ≡ ok o → IsKept o
  unfolding safe_metadata is_safe
  metadata_again null o h = subst IsKept (ok-injective h) (refl, refl)
  metadata_again (dict fs) o h = elim (Bool-cases (is_safe (dict fs))) [
    | inr unsafe ↦ absurd (err-not-ok (rw unsafe at h))
    | inl safe ↦ elim (Bool-cases (ltb 16384 (dumps_size fs))) [
      | inl long ↦ absurd (err-not-ok (rw (safe, long) at h))
      | inr short ↦
          subst IsKept (ok-injective (rw (safe, short) at h)) (rw (safe, short) (refl, refl))
    ]
  ]
  metadata_again _ o h = cc
