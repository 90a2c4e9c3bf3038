-- ===== src/Access/Tests.antt =====
-- Claims of requests, and the theorems of the access checks at them.
use xoc_api_aws.Base.{ℕ, ◌≡◌, refl, true, Option, some}
use xoc_api_aws.Base.Value.{Fields, text, num, field, end, get, truthy, is_text}
use xoc_api_aws.Gateway.Schemas.{normalize_role}
use xoc_api_aws.Access.Request.{
  StoredUser, User, token_type, require_access_claims, get_current_user_id, required_id,
  get_current_user, effective_tenant, is_delegation, acting_claim,
}
use xoc_api_aws.Access.Roles.{role_of, is_operator, first_tenant, effective_tenant_id_of}
use xoc_api_aws.Access.Tenancy.{IsTenantOf, IsTenantOf-get_current_user}

abbrev claims : Fields
claims =
    field "tokenType" (text "access") (
      field "userId" (num 9)
        (field "delegation" (text "true") (field "actingTenantId" (num 4) end)))

abbrev operator : StoredUser
operator = record { id = 9; role = some " superadmin"; tenant_id = some 1 }

abbrev users : ℕ → Option StoredUser
users n = some operator

abbrev acting : User
acting = record { stored = operator; delegation_active = true; effective_tenant_id = some 4 }

IsTenantOf-get_current_user_example :
    IsTenantOf claims acting 4
    × (is_operator (role_of acting) ≡ true → is_delegation (get "delegation" claims) ≡ true)
unfolding require_access_claims get_current_user truthy token_type is_text get_current_user_id
    required_id effective_tenant is_delegation acting_claim effective_tenant_id_of normalize_role
    first_tenant
IsTenantOf-get_current_user_example = IsTenantOf-get_current_user users claims acting 4 refl refl
