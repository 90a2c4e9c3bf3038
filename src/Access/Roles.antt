-- ===== src/Access/Roles.antt =====
-- The role checks of shared/context.py.
use xoc_api_aws.Base.{
  ℕ, suc, String, Bool, ◌||◌, ◌&&◌, not, Option, none, some, ◌==◌, if◌then◌else◌,
}
use xoc_api_aws.Base.Tests.{eqb}
use xoc_api_aws.Base.Outcome.{Result, ok, err, unauthorized, forbidden, not_found, require}
use xoc_api_aws.Gateway.Schemas.{normalize_role}
use xoc_api_aws.Access.Request.{User}

-- normalize_role(user.role)
abbrev pub role_of : User → String
role_of user = normalize_role user.stored.role

-- is_superadmin and is_platform_operator, of a role
abbrev pub is_operator : String → Bool
is_operator role = role == "ADMIN_XOC" || role == "SUPERADMIN"

-- `int(a or b)`, where zero counts as missing
unfoldable pub first_tenant : Option ℕ → Option ℕ → Result ℕ
first_tenant (some (suc n)) second = ok (suc n)
first_tenant _ (some (suc n)) = ok (suc n)
first_tenant _ _ = err (unauthorized "Tenant not found in request context")

-- effective_tenant_id_of
unfoldable pub effective_tenant_id_of : User → Result ℕ
effective_tenant_id_of user =
    if is_operator (role_of user) && not user.delegation_active
    then err (forbidden "Delegated tenant context required")
    else first_tenant user.effective_tenant_id user.stored.tenant_id

-- require_platform_operator
unfoldable pub require_platform_operator : User → Result (Unit {0})
require_platform_operator user =
    require (is_operator (role_of user)) (forbidden "Platform operator access required")

-- require_tenant_read_access
unfoldable pub require_tenant_read_access : User → Result (Unit {0})
require_tenant_read_access user =
    if role_of user == "ADMIN" || role_of user == "USER"
    then ok tt
    else require (is_operator (role_of user) && user.delegation_active)
        (forbidden "Tenant read access required")

-- require_admin
unfoldable pub require_admin : User → Result (Unit {0})
require_admin user =
    if role_of user == "ADMIN"
    then ok tt
    else require (is_operator (role_of user) && user.delegation_active)
        (forbidden "Admin access required")

-- require_superadmin
unfoldable pub require_superadmin : User → Result (Unit {0})
require_superadmin user =
    require (role_of user == "SUPERADMIN") (forbidden "Superadmin access required")

-- require_same_tenant, which looks at the user's own tenant
unfoldable pub require_same_tenant : User → ℕ → Result (Unit {0})
require_same_tenant user tenant_id = elim user.stored.tenant_id [
  | none ↦ err (not_found "Tenant not found")
  | some own ↦ require (eqb own tenant_id) (not_found "Tenant not found")
]
