-- ===== src/Notify/Creator.antt =====
-- Whom build_notification_event_for_ticket_status of notifications/events.py tells.

use xoc_api_aws.Base.{
  ℕ, String, ◌≡◌, refl, sym, ap, subst, ◌∙◌, Option, none, some, ◌==◌, arith, Bool-cases,
  Option-cases, inl, inr, ==→eq,
}
use xoc_api_aws.Base.Text.{strip, upper, lower}
use xoc_api_aws.Base.Value.{Value, text, dict, Fields, get, get_or, find, or_else, truthy, str}
use xoc_api_aws.Base.Outcome.{Error, Result, ok, err, and_then-ok, ok-injective}
use xoc_api_aws.Notify.Events.{
  NotificationEvent, audience_types, priorities, supported_event_types, is_safe, or_none,
  checked_text, checked_option, text_of, required_string, optional_string, optional_text,
  safe_metadata, is_version, known_text, or_text, checked_recipient, normalize_fields,
  normalize_notification_event,
}
use xoc_api_aws.Notify.Normal.{known-ok}
use xoc_api_aws.Notify.Drafts.{draft_fields, config_of, event_config, approval_config}
use xoc_api_aws.Notify.Builders.{
  build_notification_event, status_event, some_event, build_for_ticket_status,
}

err-not-ok : {A : Type 0} {x : Error} {a : A} → err x ≡ ok a → ⊥
err-not-ok h = cc

checked_text-ok : (m : ℕ) (name s v : String) → checked_text m name s ≡ ok v → v ≡ s
unfolding checked_text
checked_text-ok m name s v h = ground arith

checked_option-ok :
    (m : ℕ) (name s : String) (o : Option String) → checked_option m name s ≡ ok o → o ≡ or_none s
unfolding checked_option
checked_option-ok m name s o h = ground arith

self_audience : upper (strip "SELF") ≡ "SELF"
unfolding upper strip
self_audience = refl

-- An event for one user of one tenant.
abbrev pub IsFor : String → String → NotificationEvent → Type 0
IsFor tenant_id recipient e =
    (e.tenant_id ≡ strip tenant_id)
    × (e.audience_type ≡ "SELF")
    × (e.recipient_user_id ≡ or_none (strip recipient))

module _ (repr : Value → String) (dumps_size : Fields → ℕ) where
  text_of-or_else : (s : String) → text_of repr dumps_size (or_else (text s) (text "")) ≡ s
  unfolding or_else truthy text_of str
  text_of-or_else s = elim (Bool-cases (s == "")) [
    | inl blank ↦ rw blank (sym (==→eq s "" blank))
    | inr full ↦ rw full refl
  ]

  required_string-strip :
      (payload : Fields) (name s v : String) (m : ℕ)
      → get name payload ≡ text s
      → required_string repr dumps_size payload name m ≡ ok v
      → v ≡ strip s
  unfolding required_string
  required_string-strip payload name s v m there h =
      checked_text-ok m name (strip s) v (rw (there, text_of-or_else s) at h)

  optional_string-strip :
      (payload : Fields) (name s : String) (o : Option String) (m : ℕ)
      → get name payload ≡ text s
      → optional_string repr dumps_size payload name m ≡ ok o
      → o ≡ or_none (strip s)
  unfolding optional_string optional_text text_of str
  optional_string-strip payload name s o m there h =
      checked_option-ok m name (strip s) o (rw there at h)

  -- What an accepted payload says of the recipients.
  abbrev IsAddressed : Fields → NotificationEvent → Type 0
  IsAddressed payload e =
      (required_string repr dumps_size payload "tenantId" 128 ≡ ok e.tenant_id)
      × ((asked : String) × (required_string repr dumps_size payload "audienceType" 32 ≡ ok asked)
          × (upper asked ≡ e.audience_type))
      × (optional_string repr dumps_size payload "recipientUserId" 128 ≡ ok e.recipient_user_id)

  normalize_fields-IsAddressed :
      (now : String) (payload : Fields) (e : NotificationEvent)
      → normalize_fields repr dumps_size now payload ≡ ok e
      → IsAddressed payload e
  unfolding normalize_fields
  normalize_fields-IsAddressed now payload e h =
      let R = required_string repr dumps_size payload in
      let O = optional_string repr dumps_size payload in
      let (event_id, id, h1) = and_then-ok (R "eventId" 128) _ h in
      let (asked_type, at, h2) = and_then-ok (R "eventType" 120) _ h1 in
      let (event_type, ty, h3) =
        and_then-ok (known_text supported_event_types "eventType is not supported" asked_type) _
          h2 in
      let (tenant_id, te, h4) = and_then-ok (R "tenantId" 128) _ h3 in
      let (asked_audience, aa, h5) = and_then-ok (R "audienceType" 32) _ h4 in
      let (audience_type, au, h6) =
        and_then-ok
          (known_text audience_types "audienceType must be SELF, TENANT_ALL, or TENANT_ADMINS"
            (upper asked_audience))
          _ h5 in
      let (recipient, re, h7) = and_then-ok (O "recipientUserId" 128) _ h6 in
      let (u, ch, h8) = and_then-ok (checked_recipient audience_type recipient) _ h7 in
      let (asked_priority, ap', h9) = and_then-ok (O "priority" 16) _ h8 in
      let (priority, pr, h10) =
        and_then-ok
          (known_text priorities "priority must be low, normal, high, or critical"
            (lower (or_text asked_priority "normal")))
          _ h9 in
      let (resource_type, rt, h11) = and_then-ok (O "resourceType" 120) _ h10 in
      let (resource_id, ri, h12) = and_then-ok (O "resourceId" 256) _ h11 in
      let (asked_key, ak, h13) = and_then-ok (O "dedupeKey" 512) _ h12 in
      let (title, tt', h14) = and_then-ok (R "title" 200) _ h13 in
      let (body, bo, h15) = and_then-ok (R "body" 2000) _ h14 in
      let (deep_link, dl, h16) = and_then-ok (O "deepLink" 2048) _ h15 in
      let (metadata, me, h17) =
        and_then-ok (safe_metadata repr dumps_size (get "metadata" payload)) _ h16 in
      let (created_at, ca, h18) = and_then-ok (O "createdAt" 64) _ h17 in
      let (listed, same) =
        known-ok audience_types "audienceType must be SELF, TENANT_ALL, or TENANT_ADMINS"
          (upper asked_audience) audience_type au in
      subst (IsAddressed payload) (ok-injective h18) (te, (asked_audience, aa, same), re)

  normalize-IsAddressed :
      (now : String) (payload : Fields) (e : NotificationEvent)
      → normalize_notification_event repr dumps_size now (dict payload) ≡ ok e
      → IsAddressed payload e
  unfolding normalize_notification_event
  normalize-IsAddressed now payload e h = elim (Bool-cases (is_safe (dict payload))) [
    | inr unsafe ↦ absurd (err-not-ok (rw unsafe at h))
    | inl safe ↦ elim (Bool-cases (is_version (get "version" payload))) [
      | inr wrong ↦ absurd (err-not-ok (rw (safe, wrong) at h))
      | inl right ↦ normalize_fields-IsAddressed now payload e (rw (safe, right) at h)
    ]
  ]

  module _ (quote : String → String) where
    status_event-IsFor :
        (now new_id tenant_id ticket_id recipient status suffix : String) (extra : Fields)
        (event_type title body priority : String) (e : NotificationEvent)
        → status_event repr dumps_size quote now new_id tenant_id ticket_id recipient status suffix
            extra
            (event_type, title, body, priority)
          ≡ ok e
        → IsFor tenant_id recipient e
    unfolding status_event build_notification_event draft_fields get get_or find
    status_event-IsFor now new_id tenant_id ticket_id recipient status suffix extra event_type title
          body priority e h =
        let (tenant, (asked, asks, same), to) = normalize-IsAddressed now _ e h in
        (
          required_string-strip _ "tenantId" tenant_id e.tenant_id 128 refl tenant,
          sym same
              ∙ ap upper (required_string-strip _ "audienceType" "SELF" asked 32 refl asks)
              ∙ self_audience,
          optional_string-strip _ "recipientUserId" recipient e.recipient_user_id 128 refl to,
        )

    some_event-ok :
        (r : Result NotificationEvent) (e : NotificationEvent)
        → some_event repr dumps_size quote r ≡ ok (some e)
        → r ≡ ok e
    some_event-ok (ok x) e h = cc
    some_event-ok (err x) e h = cc

    nothing : {e : NotificationEvent} → ok none ≡ ok (some e) → ⊥
    nothing h = cc

    -- The event that build_notification_event_for_ticket_status gives is for one user, whom its caller
    -- names, and for the tenant that its caller names.
    pub build_for_ticket_status-IsFor :
        (now new_id tenant_id ticket_id recipient status : String) (attempts : Option ℕ)
        (e : NotificationEvent)
        → build_for_ticket_status repr dumps_size quote now new_id tenant_id ticket_id recipient
            status attempts
          ≡ ok (some e)
        → IsFor tenant_id recipient e
    unfolding build_for_ticket_status approval_config
    build_for_ticket_status-IsFor now new_id tenant_id ticket_id recipient status attempts e h =
        elim (Bool-cases (strip ticket_id == "")) [
          | inl blank ↦ absurd (err-not-ok (rw blank at h))
          | inr full ↦ elim (Bool-cases (upper (strip status) == "PREAPROBADO")) [
            | inl waits ↦
                status_event-IsFor now new_id tenant_id (strip ticket_id) recipient
                  (upper (strip status)) _ _ _ _ _ _ e (some_event-ok _ e (rw (full, waits) at h))
            | inr other ↦ elim (Option-cases (config_of (upper (strip status)) event_config)) [
              | inl absent ↦ absurd (nothing (rw (full, other, absent) at h))
              | inr (config, found) ↦
                  status_event-IsFor now new_id tenant_id (strip ticket_id) recipient
                    (upper (strip status)) _ _ _ _ _ _ e
                    (some_event-ok _ e (rw (full, other, found) at h))
            ]
          ]
        ]
