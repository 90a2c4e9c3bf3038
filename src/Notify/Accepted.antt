-- ===== src/Notify/Accepted.antt =====
-- What the producers of events build, the worker takes unchanged: normalize_notification_event of
-- notifications/events.py accepts what it has given, and gives the same again.
use Prim.Native.String.{◌++◌}
use package.text.Mathlib.TextLemmas.{append_assoc}
use xoc_api_aws.Base.{ℕ, String, ◌≡◌, refl, subst, true, false, Option, none, some, ◌==◌}
use xoc_api_aws.Base.Text.{strip, upper, lower, is_longer}
use xoc_api_aws.Base.Strip.{
  IsStripped, IsStripped-append, nonempty-append, is_longer-append, decide-IsStripped, longer_more,
}
use xoc_api_aws.Base.Value.{Value, text, dict, Fields, get, get_or, find}
use xoc_api_aws.Base.Outcome.{ok}
use xoc_api_aws.Notify.Events.{
  NotificationEvent, audience_types, priorities, supported_event_types, one_of_texts, is_safe,
  plain_name, or_text, dedupe_of, checked_recipient, normalize_fields,
}
use xoc_api_aws.Notify.Normal.{
  value_of, metadata_of, payload_of, IsText, IsOption, IsKept, known-All, required_again,
  optional_again, known_again,
}

is_text :
    {m : ℕ} {s : String} → strip s ≡ s → (s == "") ≡ false → is_longer m s ≡ false → IsText m s
is_text h full short = record { stripped = decide-IsStripped _ h; full = full; short = short }

-- Texts among the audiences and the priorities are as the validation leaves them.
pub audience-IsText :
    (a : String) → one_of_texts audience_types a ≡ true → IsText 32 a × (upper a ≡ a)
unfolding upper is_longer strip
audience-IsText a =
    known-All (λ s. IsText 32 s × (upper s ≡ s)) audience_types a
      (
        (is_text refl refl refl, refl),
        ((is_text refl refl refl, refl), ((is_text refl refl refl, refl), tt)),
      )

pub priority-IsText : (a : String) → one_of_texts priorities a ≡ true → IsText 16 a × (lower a ≡ a)
unfolding lower is_longer strip
priority-IsText a =
    known-All (λ s. IsText 16 s × (lower s ≡ s)) priorities a
      (
        (is_text refl refl refl, refl),
        (
          (is_text refl refl refl, refl),
          ((is_text refl refl refl, refl), ((is_text refl refl refl, refl), tt)),
        ),
      )

joined_assoc : (a b c : String) → a ++ ((":" ++ (b ++ ":")) ++ c) ≡ a ++ (":" ++ (b ++ (":" ++ c)))
joined_assoc a b c = rw (append_assoc ":" (b ++ ":") c, append_assoc b ":" c) refl

module _ (repr : Value → String) (dumps_size : Fields → ℕ) where
  -- What holds of an event that the validation has given.
  pub record IsNormal (e : NotificationEvent) : Type 0 where
    pub event_id : IsText 128 e.event_id
    pub event_type : IsText 120 e.event_type
    pub supported : one_of_texts supported_event_types e.event_type ≡ true
    pub tenant_id : IsText 128 e.tenant_id
    pub audience_type : one_of_texts audience_types e.audience_type ≡ true
    pub recipient_user_id : IsOption 128 e.recipient_user_id
    pub has_recipient : checked_recipient e.audience_type e.recipient_user_id ≡ ok tt
    pub priority : one_of_texts priorities e.priority ≡ true
    pub resource_type : IsOption 120 e.resource_type
    pub resource_id : IsOption 256 e.resource_id
    pub dedupe_key : IsText 512 e.dedupe_key
    pub title : IsText 200 e.title
    pub body : IsText 2000 e.body
    pub deep_link : IsOption 2048 e.deep_link
    pub metadata : IsKept repr dumps_size e.metadata
    pub created_at : IsText 64 e.created_at

  joined-IsText :
      (a b c : String)
      → IsText 120 a
      → IsText 128 b
      → IsText 256 c
      → IsText 512 (a ++ (":" ++ (b ++ (":" ++ c))))
  unfolding is_longer
  joined-IsText a b c t n r = record {
    stripped =
        subst IsStripped (joined_assoc a b c)
          (IsStripped-append a (":" ++ (b ++ ":")) c t.stripped t.full r.stripped r.full);
    full = nonempty-append a (":" ++ (b ++ (":" ++ c))) t.full;
    short = is_longer-append 120 392 a (":" ++ (b ++ (":" ++ c))) t.short (
        is_longer-append 1 391 ":" (b ++ (":" ++ c)) refl (
          is_longer-append 128 263 b (":" ++ c) n.short
            (is_longer-append 1 262 ":" c refl (longer_more 6 256 c r.short))));
  }

  reference-IsText :
      (resource_id : Option String) (event_id : String)
      → IsOption 256 resource_id
      → IsText 128 event_id
      → IsText 256 (or_text resource_id event_id)
  reference-IsText (some r) event_id t i = t
  reference-IsText none event_id t i = record {
    stripped = i.stripped;
    full = i.full;
    short = longer_more 128 128 event_id i.short;
  }

  -- The key that is made where the payload has none.
  pub dedupe-IsText :
      (asked : Option String) (event_type tenant_id event_id : String) (resource_id : Option String)
      → IsOption 512 asked
      → IsText 120 event_type
      → IsText 128 tenant_id
      → IsOption 256 resource_id
      → IsText 128 event_id
      → IsText 512 (or_text asked (dedupe_of event_type tenant_id resource_id event_id))
  dedupe-IsText (some key) event_type tenant_id event_id resource_id k t n r i = k
  dedupe-IsText none event_type tenant_id event_id resource_id k t n r i =
      joined-IsText event_type tenant_id (or_text resource_id event_id) t n
        (reference-IsText resource_id event_id r i)

  value_safe : (o : Option String) → is_safe (value_of o) ≡ true
  unfolding is_safe
  value_safe none = refl
  value_safe (some s) = refl

  pub payload_safe :
      (e : NotificationEvent)
      → is_safe (metadata_of e.metadata) ≡ true
      → is_safe (dict (payload_of e)) ≡ true
  unfolding payload_of is_safe plain_name
  payload_safe e safe =
      rw
        (
          value_safe e.recipient_user_id,
          value_safe e.deep_link,
          value_safe e.resource_type,
          value_safe e.resource_id,
          safe,
        )
        refl

  -- An event for which this holds is given again, whatever the clock shows.
  pub normal_again :
      (now : String) (e : NotificationEvent)
      → IsNormal e
      → normalize_fields repr dumps_size now (payload_of e) ≡ ok e
  unfolding normalize_fields payload_of get get_or find
  normal_again now e h =
      let (audience, upper_audience) = audience-IsText e.audience_type h.audience_type in
      let (priority, lower_priority) = priority-IsText e.priority h.priority in
      rw
        (
          required_again repr dumps_size (payload_of e) "eventId" e.event_id 128 refl h.event_id,
          required_again repr dumps_size (payload_of e) "eventType" e.event_type 120 refl
              h.event_type,
          known_again supported_event_types "eventType is not supported" e.event_type h.supported,
          required_again repr dumps_size (payload_of e) "tenantId" e.tenant_id 128 refl h.tenant_id,
          required_again repr dumps_size (payload_of e) "audienceType" e.audience_type 32 refl
              audience,
          upper_audience,
          known_again audience_types "audienceType must be SELF, TENANT_ALL, or TENANT_ADMINS"
              e.audience_type h.audience_type,
          optional_again repr dumps_size (payload_of e) "recipientUserId" 128 e.recipient_user_id
              refl h.recipient_user_id,
          h.has_recipient,
          optional_again repr dumps_size (payload_of e) "priority" 16 (some e.priority) refl
              priority,
          lower_priority,
          known_again priorities "priority must be low, normal, high, or critical" e.priority
              h.priority,
          optional_again repr dumps_size (payload_of e) "resourceType" 120 e.resource_type refl
              h.resource_type,
          optional_again repr dumps_size (payload_of e) "resourceId" 256 e.resource_id refl
              h.resource_id,
          optional_again repr dumps_size (payload_of e) "dedupeKey" 512 (some e.dedupe_key) refl
              h.dedupe_key,
          required_again repr dumps_size (payload_of e) "title" e.title 200 refl h.title,
          required_again repr dumps_size (payload_of e) "body" e.body 2000 refl h.body,
          optional_again repr dumps_size (payload_of e) "deepLink" 2048 e.deep_link refl
              h.deep_link,
          h.metadata.0,
          optional_again repr dumps_size (payload_of e) "createdAt" 64 (some e.created_at) refl
              h.created_at,
        )
        refl
