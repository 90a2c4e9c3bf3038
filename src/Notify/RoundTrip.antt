-- ===== src/Notify/RoundTrip.antt =====
-- What normalize_notification_event of notifications/events.py gives, it takes and gives again.
use xoc_api_aws.Base.{
  ℕ, String, ◌≡◌, refl, subst, true, Option, none, some, List, Bool-cases, inl, inr,
}
use xoc_api_aws.Base.Text.{upper, lower}
use xoc_api_aws.Base.Value.{
  Value, null, bool, num, other, text, list, dict, Fields, get, get_or, find,
}
use xoc_api_aws.Base.Outcome.{Error, ok, err, and_then-ok, ok-injective}
use xoc_api_aws.Notify.Events.{
  NotificationEvent, audience_types, priorities, supported_event_types, one_of_texts, is_safe,
  required_string, optional_string, safe_metadata, is_version, known_text, or_text,
  checked_recipient, normalize_fields, normalize_notification_event,
}
use xoc_api_aws.Notify.Normal.{
  payload_of, IsText, IsOption, required-IsText, optional-IsOption, known-ok, metadata_again,
}
use xoc_api_aws.Notify.Accepted.{IsNormal, dedupe-IsText, payload_safe, normal_again}

err-not-ok : {A : Type 0} {e : Error} {a : A} → err e ≡ ok a → ⊥
err-not-ok h = cc

-- A known text that the validation found in another.
known_text-one_of :
    (known : List String) (message s v : String)
    → known_text known message s ≡ ok v
    → one_of_texts known v ≡ true
known_text-one_of known message s v h =
    let (there, same) = known-ok known message s v h in
    subst (λ (t : String). one_of_texts known t ≡ true) same there

version_kept : (e : NotificationEvent) → is_version (get "version" (payload_of e)) ≡ true
unfolding is_version get get_or find payload_of
version_kept e = refl

module _ (repr : Value → String) (dumps_size : Fields → ℕ) where
  clock-IsText :
      (asked : Option String) (now : String)
      → IsOption 64 asked
      → IsText 64 now
      → IsText 64 (or_text asked now)
  clock-IsText none now h clock = clock
  clock-IsText (some s) now h clock = h

  normalize-IsNormal :
      (now : String) (payload : Fields) (e : NotificationEvent)
      → IsText 64 now
      → normalize_fields repr dumps_size now payload ≡ ok e
      → IsNormal repr dumps_size e
  unfolding normalize_fields optional_string
  normalize-IsNormal now payload e clock h =
      let R = required_string repr dumps_size payload in
      let O = optional_string repr dumps_size payload in
      let (event_id, id, h1) = and_then-ok (R "eventId" 128) _ h in
      let (asked_type, at, h2) = and_then-ok (R "eventType" 120) _ h1 in
      let (event_type, ty, h3) =
        and_then-ok (known_text supported_event_types "eventType is not supported" asked_type) _
          h2 in
      let (tenant_id, te, h4) = and_then-ok (R "tenantId" 128) _ h3 in
      let (asked_audience, aa, h5) = and_then-ok (R "audienceType" 32) _ h4 in
      let (audience_type, au, h6) =
        and_then-ok
          (known_text audience_types "audienceType must be SELF, TENANT_ALL, or TENANT_ADMINS"
            (upper asked_audience))
          _ h5 in
      let (recipient, re, h7) = and_then-ok (O "recipientUserId" 128) _ h6 in
      let (u, ch, h8) = and_then-ok (checked_recipient audience_type recipient) _ h7 in
      let (asked_priority, ap', h9) = and_then-ok (O "priority" 16) _ h8 in
      let (priority, pr, h10) =
        and_then-ok
          (known_text priorities "priority must be low, normal, high, or critical"
            (lower (or_text asked_priority "normal")))
          _ h9 in
      let (resource_type, rt, h11) = and_then-ok (O "resourceType" 120) _ h10 in
      let (resource_id, ri, h12) = and_then-ok (O "resourceId" 256) _ h11 in
      let (asked_key, ak, h13) = and_then-ok (O "dedupeKey" 512) _ h12 in
      let (title, tt', h14) = and_then-ok (R "title" 200) _ h13 in
      let (body, bo, h15) = and_then-ok (R "body" 2000) _ h14 in
      let (deep_link, dl, h16) = and_then-ok (O "deepLink" 2048) _ h15 in
      let (metadata, me, h17) =
        and_then-ok (safe_metadata repr dumps_size (get "metadata" payload)) _ h16 in
      let (created_at, ca, h18) = and_then-ok (O "createdAt" 64) _ h17 in
      let event_id-IsText = required-IsText repr dumps_size payload "eventId" event_id 128 id in
      let tenant_id-IsText = required-IsText repr dumps_size payload "tenantId" tenant_id 128 te in
      let (type_listed, type_same) =
        known-ok supported_event_types "eventType is not supported" asked_type event_type ty in
      let event_type-IsText =
        subst (IsText 120) type_same
          (required-IsText repr dumps_size payload "eventType" asked_type 120 at) in
      let resource_id-IsOption =
        optional-IsOption repr dumps_size (get "resourceId" payload) "resourceId" 256 resource_id
          ri in
      subst (IsNormal repr dumps_size) (ok-injective h18) (record {
        event_id = event_id-IsText;
        event_type = event_type-IsText;
        supported =
            known_text-one_of supported_event_types "eventType is not supported" asked_type
              event_type ty;
        tenant_id = tenant_id-IsText;
        audience_type =
            known_text-one_of audience_types
              "audienceType must be SELF, TENANT_ALL, or TENANT_ADMINS" (upper asked_audience)
              audience_type au;
        recipient_user_id =
            optional-IsOption repr dumps_size (get "recipientUserId" payload) "recipientUserId" 128
              recipient re;
        has_recipient = ch;
        priority =
            known_text-one_of priorities "priority must be low, normal, high, or critical"
              (lower (or_text asked_priority "normal")) priority pr;
        resource_type =
            optional-IsOption repr dumps_size (get "resourceType" payload) "resourceType" 120
              resource_type rt;
        resource_id = resource_id-IsOption;
        dedupe_key =
            dedupe-IsText repr dumps_size asked_key event_type tenant_id event_id resource_id
              (optional-IsOption repr dumps_size (get "dedupeKey" payload) "dedupeKey" 512 asked_key
                ak)
              event_type-IsText tenant_id-IsText resource_id-IsOption event_id-IsText;
        title = required-IsText repr dumps_size payload "title" title 200 tt';
        body = required-IsText repr dumps_size payload "body" body 2000 bo;
        deep_link =
            optional-IsOption repr dumps_size (get "deepLink" payload) "deepLink" 2048 deep_link dl;
        metadata = metadata_again repr dumps_size (get "metadata" payload) metadata me;
        created_at =
            clock-IsText created_at now
              (optional-IsOption repr dumps_size (get "createdAt" payload) "createdAt" 64 created_at
                ca)
              clock;
      })

  -- An event that was accepted has these fields.
  accepted-fields :
      (now : String) (v : Value) (e : NotificationEvent)
      → IsText 64 now
      → normalize_notification_event repr dumps_size now v ≡ ok e
      → IsNormal repr dumps_size e
  unfolding normalize_notification_event
  accepted-fields now (dict payload) e clock h = elim (Bool-cases (is_safe (dict payload))) [
    | inr unsafe ↦ absurd (err-not-ok (rw unsafe at h))
    | inl safe ↦ elim (Bool-cases (is_version (get "version" payload))) [
      | inr wrong ↦ absurd (err-not-ok (rw (safe, wrong) at h))
      | inl right ↦ normalize-IsNormal now payload e clock (rw (safe, right) at h)
    ]
  ]
  accepted-fields now null e clock h = cc
  accepted-fields now (bool b) e clock h = cc
  accepted-fields now (num n) e clock h = cc
  accepted-fields now (other s) e clock h = cc
  accepted-fields now (text s) e clock h = cc
  accepted-fields now (list vs) e clock h = cc

  -- The event that the validation gives is one that it accepts: sent on as it is, and validated at
  -- any later time, it comes out the same.
  pub normalize_idem :
      (now later : String) (v : Value) (e : NotificationEvent)
      → IsText 64 now
      → normalize_notification_event repr dumps_size now v ≡ ok e
      → normalize_notification_event repr dumps_size later (dict (payload_of e)) ≡ ok e
  unfolding normalize_notification_event is_version
  normalize_idem now later v e clock h =
      let normal = accepted-fields now v e clock h in
      rw (payload_safe repr dumps_size e normal.metadata.1, version_kept e)
        (normal_again repr dumps_size later e normal)
