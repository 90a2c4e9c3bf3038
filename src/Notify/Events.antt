-- ===== src/Notify/Events.antt =====
-- The canonical event of notifications/events.py and its validation.
use Prim.Native.String
use Prim.Native.Char.{Char, code}
use xoc_api_aws.Base.{
  ℕ, String, Bool, true, false, ◌&&◌, ◌||◌, not, Option, none, some, List, [], ◌∷◌, ◌==◌,
  if◌then◌else◌, any,
}
use xoc_api_aws.Base.Tests.{eqb, ltb}
use xoc_api_aws.Base.Text.{strip, upper, lower, is_longer, remove_by}
use xoc_api_aws.Base.Decimal.{show_nat}
use xoc_api_aws.Base.Value.{
  Value, null, bool, num, other, text, list, dict, Items, nil, cons, Fields, end, field, get,
  or_else, str,
}
use xoc_api_aws.Base.Outcome.{Result, ok, err, invalid_event, and_then, require}

-- AUDIENCE_TYPES
abbrev pub audience_types : List String
audience_types = "SELF" ∷ "TENANT_ALL" ∷ "TENANT_ADMINS" ∷ []

-- PRIORITIES
abbrev pub priorities : List String
priorities = "low" ∷ "normal" ∷ "high" ∷ "critical" ∷ []

-- SUPPORTED_EVENT_TYPES
abbrev pub supported_event_types : List String
supported_event_types =
    "report.generated" ∷ "vulnerability.critical_detected" ∷ "attack.detected"
    ∷ "ticket.critical_created" ∷ "ticket.approval_required" ∷ "ticket.approved" ∷ "ticket.rejected"
    ∷ "ticket.resolved" ∷ "ticket.failed" ∷ "ticket.derived" ∷ "integration.down"
    ∷ "agent.disconnected" ∷ "sla.breached" ∷ []

-- _FORBIDDEN_FIELD_NAMES
abbrev pub forbidden_field_names : List String
forbidden_field_names =
    "pushtoken" ∷ "access_token" ∷ "accesstoken" ∷ "refresh_token" ∷ "refreshtoken"
    ∷ "authorization" ∷ "authorizationheader" ∷ "privatekey" ∷ []

abbrev pub one_of_texts : List String → String → Bool
one_of_texts ss s = any (λ t. t == s) ss

-- The event that the validation gives.
pub record NotificationEvent : Type 0 where
  pub event_id : String
  pub event_type : String
  pub tenant_id : String
  pub audience_type : String
  pub recipient_user_id : Option String
  pub title : String
  pub body : String
  pub deep_link : Option String
  pub priority : String
  pub resource_type : Option String
  pub resource_id : Option String
  pub dedupe_key : String
  pub metadata : Option Fields
  pub created_at : String

-- `c` is "-" or "_"
abbrev is_separator : Char → Bool
is_separator c = eqb (code c) 45 || eqb (code c) 95

-- The name of a field as it is compared.
unfoldable pub plain_name : String → String
unfolding remove_by lower
plain_name key = lower (remove_by is_separator key)

-- _assert_safe_payload: no field at any depth has a forbidden name
unfoldable mutual
  pub is_safe : Value → Bool
  is_safe (list vs) = are_safe vs
  is_safe (dict fs) = have_safe fs
  is_safe _ = true

  pub are_safe : Items → Bool
  are_safe nil = true
  are_safe (cons v vs) = is_safe v && are_safe vs

  pub have_safe : Fields → Bool
  have_safe end = true
  have_safe (field key v fs) =
      not (one_of_texts forbidden_field_names (plain_name key)) && is_safe v && have_safe fs

-- f"{field} exceeds {max_length} characters"
abbrev too_long : String → ℕ → String
too_long name max_length =
    String.◌++◌ name (String.◌++◌ " exceeds " (String.◌++◌ (show_nat max_length) " characters"))

-- The message of a forbidden field; the path to it, which the source adds, is left out.
abbrev pub credential_field : String
credential_field = "the event contains a forbidden credential field"

-- The tests of a required text, and of one that may be empty.
unfoldable pub checked_text : ℕ → String → String → Result String
checked_text max_length name value =
    if value == ""
    then err (invalid_event (String.◌++◌ name " is required"))
    else if is_longer max_length value
    then err (invalid_event (too_long name max_length))
    else ok value

-- `normalized or None`
abbrev pub or_none : String → Option String
or_none s = if s == "" then none else some s

unfoldable pub checked_option : ℕ → String → String → Result (Option String)
checked_option max_length name value =
    if is_longer max_length value
    then err (invalid_event (too_long name max_length))
    else ok (or_none value)

-- `payload.get("version") == EVENT_VERSION`
unfoldable pub is_version : Value → Bool
is_version (num n) = eqb n 1
is_version (bool b) = b
is_version (other s) = s == "1.0"
is_version _ = false

-- A text among the ones that are known.
unfoldable pub known_text : List String → String → String → Result String
known_text known message value =
    if one_of_texts known value then ok value else err (invalid_event message)

abbrev pub or_text : Option String → String → String
or_text none s = s
or_text (some t) s = t

-- ":".join((event_type, tenant_id, resource_id or event_id))
abbrev pub dedupe_of : String → String → Option String → String → String
dedupe_of event_type tenant_id resource_id event_id =
    String.◌++◌ event_type
      (String.◌++◌ ":" (String.◌++◌ tenant_id (String.◌++◌ ":" (or_text resource_id event_id))))

-- The recipient of an event for one user.
unfoldable pub checked_recipient : String → Option String → Result (Unit {0})
checked_recipient audience_type recipient =
    require (not (audience_type == "SELF") || elim recipient [ none ↦ false | some _ ↦ true ])
      (invalid_event "recipientUserId is required for SELF events")

-- `str` of a scalar is `str` of the values; `repr` is that of a list or a dictionary, and
-- `dumps_size` the length of the JSON text of a dictionary.
module _ (repr : Value → String) (dumps_size : Fields → ℕ) where
  unfoldable pub text_of : Value → String
  unfolding str
  text_of v = elim (str v) [ some s ↦ s | none ↦ repr v ]

  -- _required_string
  unfoldable pub required_string : Fields → String → ℕ → Result String
  unfolding strip or_else get
  required_string payload name max_length =
      checked_text max_length name (strip (text_of (or_else (get name payload) (text ""))))

  -- _optional_string, of the value
  unfoldable pub optional_text : Value → String → ℕ → Result (Option String)
  unfolding strip
  optional_text null name max_length = ok none
  optional_text v name max_length = checked_option max_length name (strip (text_of v))

  -- _optional_string
  unfoldable pub optional_string : Fields → String → ℕ → Result (Option String)
  unfolding get
  optional_string payload name max_length = optional_text (get name payload) name max_length

  -- _safe_metadata
  unfoldable pub safe_metadata : Value → Result (Option Fields)
  safe_metadata null = ok none
  safe_metadata (dict fs) =
      if not (is_safe (dict fs))
      then err (invalid_event credential_field)
      else if ltb 16384 (dumps_size fs)
      then err (invalid_event "metadata exceeds 16384 characters")
      else ok (some fs)
  safe_metadata _ = err (invalid_event "metadata must be an object")

  -- The fields of the event in the order in which they are checked.
  unfoldable pub normalize_fields : String → Fields → Result NotificationEvent
  normalize_fields now payload = and_then (required_string payload "eventId" 128) λ event_id.
      and_then (required_string payload "eventType" 120) λ asked_type.
        and_then (known_text supported_event_types "eventType is not supported" asked_type)
          λ event_type. and_then (required_string payload "tenantId" 128) λ tenant_id.
            and_then (required_string payload "audienceType" 32) λ asked_audience.
              and_then
                (known_text audience_types "audienceType must be SELF, TENANT_ALL, or TENANT_ADMINS"
                  (upper asked_audience))
                λ audience_type.
                  and_then (optional_string payload "recipientUserId" 128) λ recipient.
                    and_then (checked_recipient audience_type recipient) λ _.
                      and_then (optional_string payload "priority" 16) λ asked_priority.
                        and_then
                          (known_text priorities "priority must be low, normal, high, or critical"
                            (lower (or_text asked_priority "normal")))
                          λ priority.
                            and_then (optional_string payload "resourceType" 120) λ resource_type.
                              and_then (optional_string payload "resourceId" 256) λ resource_id.
                                and_then (optional_string payload "dedupeKey" 512) λ asked_key.
                                  and_then (required_string payload "title" 200) λ title.
                                    and_then (required_string payload "body" 2000) λ body.
                                      and_then (optional_string payload "deepLink" 2048)
                                        λ deep_link.
                                          and_then (safe_metadata (get "metadata" payload))
                                            λ metadata.
                                              and_then (optional_string payload "createdAt" 64)
                                                λ created_at. ok (record {
                                                  event_id = event_id;
                                                  event_type = event_type;
                                                  tenant_id = tenant_id;
                                                  audience_type = audience_type;
                                                  recipient_user_id = recipient;
                                                  title = title;
                                                  body = body;
                                                  deep_link = deep_link;
                                                  priority = priority;
                                                  resource_type = resource_type;
                                                  resource_id = resource_id;
                                                  dedupe_key = or_text asked_key (
                                                      dedupe_of event_type tenant_id resource_id
                                                        event_id);
                                                  metadata = metadata;
                                                  created_at = or_text created_at now;
                                                })

  -- normalize_notification_event, at the clock's reading
  unfoldable pub normalize_notification_event : String → Value → Result NotificationEvent
  normalize_notification_event now (dict payload) =
      if not (is_safe (dict payload))
      then err (invalid_event credential_field)
      else if not (is_version (get "version" payload))
      then err (invalid_event "version must be 1")
      else normalize_fields now payload
  normalize_notification_event now _ = err (invalid_event "event detail must be an object")
