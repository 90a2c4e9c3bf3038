-- ===== src/Access/Request.antt =====
-- The claims of a request and the user that they name (shared/dependencies.py).
use xoc_api_aws.Base.{
  ℕ, String, Bool, true, false, ◌||◌, ◌&&◌, not, Option, none, some, ◌==◌, if◌then◌else◌, any,
}
use xoc_api_aws.Base.Tests.{eqb}
use xoc_api_aws.Base.Value.{
  Value, bool, num, text, list, dict, Fields, get, or_else, truthy, is_text, find, to_list,
}
use xoc_api_aws.Base.Outcome.{Result, ok, err, crash, unauthorized, forbidden, and_then, or_error}
use xoc_api_aws.Tickets.Claims.{int_of}

-- A row of the users' table, as far as the access rules read it.
pub record StoredUser : Type 0 where
  pub id : ℕ
  pub role : Option String
  pub tenant_id : Option ℕ

-- The user of a request: the row, and what get_current_user sets on it.
pub record User : Type 0 where
  pub stored : StoredUser
  pub delegation_active : Bool
  pub effective_tenant_id : Option ℕ

-- `claims.get("tokenType") or claims.get("type")`
unfoldable pub token_type : Fields → Value
unfolding get or_else
token_type claims = or_else (get "tokenType" claims) (get "type" claims)

-- require_access_claims
unfoldable pub require_access_claims : Fields → Result Fields
require_access_claims claims =
    if truthy (token_type claims) && not (is_text "access" (token_type claims))
    then err (forbidden "Access token required")
    else ok claims

-- require_refresh_claims
unfoldable pub require_refresh_claims : Fields → Result Fields
require_refresh_claims claims =
    if is_text "refresh" (token_type claims)
    then ok claims
    else err (forbidden "Refresh token required")

-- `claims.get("tenantId") or claims.get("tenant_id")`
unfoldable pub tenant_claim : Fields → Value
unfolding get or_else
tenant_claim claims = or_else (get "tenantId" claims) (get "tenant_id" claims)

-- The claim as a number, or the error where there is none.
unfoldable pub required_id : Value → String → Result ℕ
unfolding truthy int_of
required_id v message = if truthy v then int_of v else err (unauthorized message)

-- get_current_tenant_id, behind require_access_claims
unfoldable pub get_current_tenant_id : Fields → Result ℕ
get_current_tenant_id claims =
    and_then (require_access_claims claims)
      λ access. required_id (tenant_claim access) "Tenant not found in request context"

-- `"agent:invoke" in scopes`, where `scopes` is a text or a list of scopes, or nothing; a dictionary
-- has its keys tested, anything else cannot be searched.
unfoldable pub is_agent : Value → Result Bool
unfolding truthy is_text find to_list
is_agent (text scope) = ok (scope == "agent:invoke")
is_agent (list scopes) = ok (any (is_text "agent:invoke") (to_list scopes))
is_agent (dict scopes) = ok (elim (find "agent:invoke" scopes) [ none ↦ false | some _ ↦ true ])
is_agent v = if truthy v then err crash else ok false

-- get_request_tenant_context, behind require_access_claims: the tenant, and whether an agent asks
unfoldable pub get_request_tenant_context : Fields → Result (ℕ × String)
unfolding get
get_request_tenant_context claims = and_then (require_access_claims claims) λ access.
    and_then (is_agent (get "scopes" access)) λ agent.
      and_then
        (required_id (tenant_claim access)
          (if agent then "tenant_id not found in token" else "Tenant not found in request context"))
        λ tenant_id. ok (tenant_id, if agent then "agent" else "user")

-- get_current_user_id
unfoldable pub get_current_user_id : Fields → Result ℕ
unfolding get or_else
get_current_user_id claims =
    required_id
      (or_else (get "userId" claims) (or_else (get "sub" claims) (get "principalId" claims)))
      "User not found"

-- `delegation_value in (True, "true", "True", "1", 1)`
unfoldable pub is_delegation : Value → Bool
is_delegation (bool b) = b
is_delegation (num n) = eqb n 1
is_delegation (text s) = s == "true" || s == "True" || s == "1"
is_delegation _ = false

-- `claims.get("actingTenantId") or claims.get("acting_tenant_id")`
unfoldable pub acting_claim : Fields → Value
unfolding get or_else
acting_claim claims = or_else (get "actingTenantId" claims) (get "acting_tenant_id" claims)

-- The tenant for which a user acts.
unfoldable pub effective_tenant : Fields → StoredUser → Result (Option ℕ)
effective_tenant claims stored =
    if is_delegation (get "delegation" claims) && truthy (acting_claim claims)
    then and_then (int_of (acting_claim claims)) (λ n. ok (some n))
    else ok stored.tenant_id

-- get_current_user, behind require_access_claims; `users` is the lookup of a user by id
unfoldable pub get_current_user : (ℕ → Option StoredUser) → Fields → Result User
get_current_user users claims = and_then (require_access_claims claims) λ access.
    and_then (get_current_user_id access) λ user_id.
      and_then (or_error (users user_id) (unauthorized "User not found")) λ stored.
        and_then (effective_tenant access stored) λ effective. ok (record {
          stored = stored;
          delegation_active = is_delegation (get "delegation" access);
          effective_tenant_id = effective;
        })
