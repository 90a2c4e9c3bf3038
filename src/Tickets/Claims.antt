-- ===== src/Tickets/Claims.antt =====
-- Who asks: the claims of a request, the role contract of a pending decision and the ticket that
-- an action is about, of handlers/domains/tickets_dynamo.py.
use Prim.Native.String
use xoc_api_aws.Base.{ℕ, String, Bool, true, false, ◌||◌, Option, none, some, ◌==◌, if◌then◌else◌}
use xoc_api_aws.Base.Text.{strip, upper}
use xoc_api_aws.Base.Decimal.{read_nat}
use xoc_api_aws.Base.Value.{
  Value, bool, num, text, Fields, get, get_or, or_else, truthy, dict_or_empty,
}
use xoc_api_aws.Base.Outcome.{
  Result, ok, err, crash, forbidden, not_found, and_then, or_error, require, Handler, lift, ◌>>=◌,
}
use xoc_api_aws.Risk.Levels.{is_role_sufficient}
use xoc_api_aws.Tickets.Item.{Ticket}
use xoc_api_aws.Tickets.Table.{Table, World, get_tenant_ticket_or_404, get_ticket_by_id_or_none}

-- `int(v)` of an id; the ids of the program are not negative.
unfoldable pub int_of : Value → Result ℕ
unfolding read_nat strip
int_of (num n) = ok n
int_of (bool true) = ok 1
int_of (bool false) = ok 0
int_of (text s) = or_error (read_nat (strip s)) crash
int_of _ = err crash

-- `int(claims.get("tenantId") or claims.get("tenant_id") or 0)`
unfoldable pub claim_tenant : Fields → Result ℕ
unfolding get or_else
claim_tenant claims =
    int_of (or_else (get "tenantId" claims) (or_else (get "tenant_id" claims) (num 0)))

-- `claims.get("userId") or claims.get("sub")`
unfoldable pub claim_user : Fields → Value
unfolding get or_else
claim_user claims = or_else (get "userId" claims) (get "sub" claims)

-- `int(user_id) if user_id else None`
unfoldable pub optional_int : Value → Result (Option ℕ)
unfolding int_of truthy
optional_int v = if truthy v then and_then (int_of v) (λ n. ok (some n)) else ok none

-- `(v or "").upper()`
upper_text : Value → Result String
unfolding truthy
upper_text (text s) = ok (upper s)
upper_text v = if truthy v then err crash else ok ""

unfoldable pub claim_role : Fields → Result String
unfolding upper_text get
claim_role claims = upper_text (get "role" claims)

abbrev pub insufficient_role : String → String
insufficient_role required =
    String.◌++◌ "Insufficient role to approve this ticket. Required: " required

-- The test of _assert_can_approve; a required role that is no text has no `upper`.
unfoldable pub role_reaches : String → Value → Result (Unit {0})
role_reaches user_role (text required) =
    require (is_role_sufficient user_role required) (forbidden (insufficient_role required))
role_reaches user_role _ = err crash

unfoldable pub assert_can_approve : Fields → Ticket → Result (Unit {0})
unfolding get_or dict_or_empty
assert_can_approve claims item = and_then (claim_role claims) λ user_role.
    role_reaches user_role
      (get_or "required_approver_role" (text "USER") (dict_or_empty item.pending_decision))

abbrev pub is_platform_operator : String → Bool
is_platform_operator role = role == "ADMIN_XOC" || role == "SUPERADMIN"

module _ {S : Type 0} (db : Table S) where
  -- the ticket of the asker's tenant
  own_ticket : Fields → String → Handler (World S) Ticket
  unfolding get_tenant_ticket_or_404
  own_ticket claims ticket_id = do
    tenant_id ← lift (claim_tenant claims)
    get_tenant_ticket_or_404 db tenant_id ticket_id

  -- the ticket of whichever tenant has the id
  any_ticket : String → Handler (World S) Ticket
  unfolding get_ticket_by_id_or_none
  any_ticket ticket_id w =
      (or_error (get_ticket_by_id_or_none db ticket_id w.table) (not_found "Ticket not found"), w)

  -- _resolve_ticket_for_action
  unfoldable pub resolve_ticket_for_action : Fields → String → Handler (World S) Ticket
  unfolding own_ticket any_ticket
  resolve_ticket_for_action claims ticket_id = do
    role ← lift (claim_role claims)
    if is_platform_operator role then any_ticket ticket_id else own_ticket claims ticket_id
