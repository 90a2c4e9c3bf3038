-- ===== src/Gateway/Tools.antt =====
-- The handlers of tool_gateway/executor.py, over the reads of the stores that they call.
use Prim.Native.Char.{Char, code}
use xoc_api_aws.Base.{
  ℕ, String, Bool, true, false, ◌||◌, ◌&&◌, not, Option, none, some, List, [], ◌∷◌, ◌==◌,
  if◌then◌else◌, length,
}
use xoc_api_aws.Base.Tests.{eqb, ltb}
use xoc_api_aws.Base.Text.{strip, take_while, contains, is_longer}
use xoc_api_aws.Base.Decimal.{read_nat}
use xoc_api_aws.Base.Value.{
  Value, null, bool, num, other, text, list, dict, Fields, end, field, get, or_else, str, of_list,
}
use xoc_api_aws.Base.Outcome.{Result, ok, err}
use xoc_api_aws.Gateway.Schemas.{ToolContext}
use xoc_api_aws.Gateway.Policy.{elem}
use xoc_api_aws.Gateway.Executor.{Outcome, done, value_error, failure, ToolHandler}

-- What the handlers read: list_tenant_tickets and get_tenant_ticket_or_404 with serialize_ticket of
-- shared/tickets_store.py, list_tenant_document_jobs of reports/store.py, unread_count_for_user of
-- shared/user_notification_inbox.py. `repr` is `str` of a list or a dictionary.
pub record Stores (W : Type 0) : Type 0 where
  pub list_tenant_tickets : W → ℕ → Option String → ℕ → Result Value
  pub get_ticket : W → ℕ → String → Result Value
  pub list_tenant_document_jobs : W → ℕ → Option String → ℕ → Result (List Value)
  pub unread_count_for_user : W → ℕ → ℕ → Result ℕ
  pub repr : Value → String

-- Either what was computed or a ValueError.
abbrev pub Checked : Type 0 → Type 0
Checked A = Option A

-- _allowed_arguments: no key but these
unfoldable pub allowed_arguments : List String → Fields → Bool
allowed_arguments names end = true
allowed_arguments names (field key v fs) = elem key names && allowed_arguments names fs

abbrev is_no_point : Char → Bool
is_no_point c = not (eqb (code c) 46)

-- `int(v)` of a number that is negative or no integer, by its `str`: the part before the point,
-- and nothing that could be a limit where it is negative or has an exponent.
unfoldable pub truncated : String → Option ℕ
unfolding contains take_while
truncated s = if contains "e" s then none else read_nat (take_while is_no_point s)

-- `int(v)`, or its ValueError or TypeError; a sign or underscores in a text are not modelled
unfoldable pub limit_of : Value → Option ℕ
unfolding truncated strip
limit_of (num n) = some n
limit_of (bool true) = some 1
limit_of (bool false) = some 0
limit_of (other s) = truncated s
limit_of (text s) = read_nat (strip s)
limit_of _ = none

-- The limit, if it is one.
abbrev pub within : ℕ → Option ℕ → Checked ℕ
within maximum none = none
within maximum (some limit) = if ltb limit 1 || ltb maximum limit then none else some limit

-- _bounded_limit
unfoldable pub bounded_limit : Value → ℕ → ℕ → Checked ℕ
bounded_limit null default maximum = some default
bounded_limit v default maximum = within maximum (limit_of v)

-- `status is not None and not isinstance(status, str)` is a ValueError
unfoldable pub status_argument : Value → Checked (Option String)
status_argument null = some none
status_argument (text s) = some (some s)
status_argument _ = none

-- An exception of the stores is no ValueError.
abbrev pub outcome_of : Result Value → Outcome
outcome_of (ok v) = done v
outcome_of (err e) = failure

-- {"documents": documents, "count": len(documents)}
abbrev pub documents_data : Result (List Value) → Outcome
documents_data (err e) = failure
documents_data (ok documents) = done (
    dict
      (field "documents" (list (of_list documents)) (field "count" (num (length documents)) end)))

abbrev pub count_data : Result ℕ → Outcome
count_data (err e) = failure
count_data (ok n) = done (dict (field "count" (num n) end))

-- `int(context.effective_tenant_id)`, a TypeError where there is none
abbrev pub for_id : Option ℕ → (ℕ → Outcome) → Outcome
for_id none f = failure
for_id (some n) f = f n

-- A ValueError, or what follows.
abbrev pub checked : {A : Type 0} → Checked A → (A → Outcome) → Outcome
checked none f = value_error
checked (some a) f = f a

module _ {W : Type 0} (stores : Stores W) where
  -- The arguments of the two lists; the tenant is converted before the limit is checked.
  unfoldable pub filtered : ToolContext → Fields → (ℕ → Option String → ℕ → Outcome) → Outcome
  filtered context arguments read =
      if allowed_arguments ("status" ∷ "limit" ∷ []) arguments
      then checked (status_argument (get "status" arguments)) (λ status.
        for_id context.effective_tenant_id (λ tenant_id.
          checked (bounded_limit (get "limit" arguments) 50 200) (read tenant_id status)))
      else value_error

  -- _tickets_list
  unfoldable pub tickets_list : ToolHandler W
  tickets_list context arguments w = (
    filtered context arguments (λ tenant_id status limit.
        outcome_of (stores.list_tenant_tickets w tenant_id status limit)),
    w,
  )

  -- _documents_list
  unfoldable pub documents_list : ToolHandler W
  documents_list context arguments w = (
    filtered context arguments (λ tenant_id status limit.
        documents_data (stores.list_tenant_document_jobs w tenant_id status limit)),
    w,
  )

  -- `str(values.get("ticket_id") or "").strip()`
  unfoldable pub ticket_id_argument : Fields → String
  unfolding str
  ticket_id_argument arguments = strip (elim (str (or_else (get "ticket_id" arguments) (text ""))) [
    | some s ↦ s
    | none ↦ stores.repr (get "ticket_id" arguments)
  ])

  -- {"ticket": serialize_ticket(...)}
  abbrev pub ticket_data : Result Value → Outcome
  ticket_data (err e) = failure
  ticket_data (ok ticket) = done (dict (field "ticket" ticket end))

  -- _tickets_get
  unfoldable pub tickets_get : ToolHandler W
  unfolding ticket_id_argument is_longer
  tickets_get context arguments w =
      let ticket_id = ticket_id_argument arguments in
      (
        if not (allowed_arguments ("ticket_id" ∷ []) arguments)
              || ticket_id == ""
              || is_longer 256 ticket_id
            then value_error
            else for_id context.effective_tenant_id
                λ tenant_id. ticket_data (stores.get_ticket w tenant_id ticket_id),
        w,
      )

  -- _notifications_unread_count
  unfoldable pub notifications_unread_count : ToolHandler W
  notifications_unread_count context arguments w = (
    if allowed_arguments [] arguments
        then for_id context.effective_tenant_id (λ tenant_id.
          for_id context.user_id
            (λ user_id. count_data (stores.unread_count_for_user w tenant_id user_id)))
        else value_error,
    w,
  )

  -- DEFAULT_HANDLERS
  abbrev pub default_handlers : List (String × ToolHandler W)
  default_handlers =
      ("tickets.list", tickets_list)
      ∷ ("tickets.get", tickets_get)
      ∷ ("documents.list", documents_list)
      ∷ ("notifications.unread_count", notifications_unread_count)
      ∷ []
