-- ===== src/Access/Tenancy.antt =====
-- For which tenant a request acts, and how the access checks fit together.
use xoc_api_aws.Base.{
  ℕ, suc, zero, String, ◌≡◌, refl, ap, sym, subst, ==→eq, ◌∙◌, ◌≢◌, ◌⊎◌, inl, inr, Bool, true,
  false, ◌&&◌, not, Option, none, some, ◌==◌, if◌then◌else◌, arith, Bool-cases,
}
use xoc_api_aws.Base.Value.{Value, Fields, get, truthy, is_text, text}
use xoc_api_aws.Base.Outcome.{Error, ok, err, and_then-ok, or_error, ok-injective}
use xoc_api_aws.Tickets.Claims.{int_of}
use xoc_api_aws.Access.Request.{
  StoredUser, User, token_type, require_access_claims, require_refresh_claims, get_current_user_id,
  get_current_user, effective_tenant, is_delegation, acting_claim,
}
use xoc_api_aws.Access.Roles.{
  role_of, is_operator, first_tenant, effective_tenant_id_of, require_tenant_read_access,
  require_admin,
}

true-not-false : true ≡ false → ⊥
true-not-false h = cc

-- A token type is not both nothing or "access" and "refresh".
one_type :
    (v : Value) → truthy v && not (is_text "access" v) ≡ false → is_text "refresh" v ≡ true → ⊥
unfolding truthy is_text
one_type (text s) h k =
    true-not-false
      (subst (λ t. not (t == "") && not (t == "access") ≡ false) (==→eq s "refresh" k) h)
one_type _ h k = cc

-- No claims pass both require_access_claims and require_refresh_claims.
pub access-not-refresh :
    (claims a b : Fields)
    → require_access_claims claims ≡ ok a
    → require_refresh_claims claims ≢ ok b
unfolding require_access_claims require_refresh_claims
access-not-refresh claims a b h k = one_type (token_type claims) (passed _ _ h) (refreshed _ _ k)
  where
    passed : (c : Bool) (e : Error) → (if c then err e else ok claims) ≡ ok a → c ≡ false
    passed c e h' = ground arith

    refreshed : (c : Bool) (e : Error) → (if c then ok claims else err e) ≡ ok b → c ≡ true
    refreshed c e h' = ground arith

admin_not_operator : (role : String) → (role == "ADMIN") ≡ true → is_operator role ≡ false
admin_not_operator role h = subst (λ r. is_operator r ≡ false) (sym (==→eq role "ADMIN" h)) refl

-- Whoever passes require_admin passes require_tenant_read_access, and effective_tenant_id_of then
-- asks for no delegation.
pub admin_reads :
    (user : User)
    → require_admin user ≡ ok tt
    → (require_tenant_read_access user ≡ ok tt)
      × (effective_tenant_id_of user ≡ first_tenant user.effective_tenant_id user.stored.tenant_id)
unfolding require_admin require_tenant_read_access effective_tenant_id_of
admin_reads user h = ground (arith, admin_not_operator (role_of user))

first_tenant-ok : (a b : Option ℕ) (n : ℕ) → first_tenant a b ≡ ok n → (a ≡ some n) ⊎ (b ≡ some n)
unfolding first_tenant
first_tenant-ok (some (suc m)) b n h = inl (ap some (ok-injective h))
first_tenant-ok none (some (suc m)) n h = inr (ap some (ok-injective h))
first_tenant-ok (some zero) (some (suc m)) n h = inr (ap some (ok-injective h))
first_tenant-ok none none n h = cc
first_tenant-ok none (some zero) n h = cc
first_tenant-ok (some zero) none n h = cc
first_tenant-ok (some zero) (some zero) n h = cc

some-injective : {m n : ℕ} → some m ≡ some n → m ≡ n
some-injective h = cc

-- Where the tenant of a request comes from: the acting tenant of a delegation, or the tenant of the
-- user's own row.
pub data IsTenantOf (claims : Fields) (user : User) (n : ℕ) : Type 0 where
  delegated :
      is_delegation (get "delegation" claims) ≡ true
      → truthy (acting_claim claims) ≡ true
      → int_of (acting_claim claims) ≡ ok n
      → IsTenantOf claims user n
  own : user.stored.tenant_id ≡ some n → IsTenantOf claims user n

effective_tenant-ok :
    (claims : Fields) (stored : StoredUser) (o : Option ℕ)
    → effective_tenant claims stored ≡ ok o
    → (o ≡ stored.tenant_id)
      ⊎ ((n : ℕ) × (o ≡ some n)
          × (is_delegation (get "delegation" claims) ≡ true)
          × (truthy (acting_claim claims) ≡ true)
          × (int_of (acting_claim claims) ≡ ok n))
unfolding effective_tenant
effective_tenant-ok claims stored o h =
    elim (Bool-cases (is_delegation (get "delegation" claims) && truthy (acting_claim claims))) [
      | inr own_row ↦ inl (sym (ok-injective (rw own_row at h)))
      | inl acting ↦
          let (n, is_number, is_it) =
            and_then-ok (int_of (acting_claim claims)) _ (rw acting at h) in
          inr (n, sym (ok-injective is_it), ground arith, ground arith, is_number)
    ]

-- The claims that get_current_user reads are those that require_access_claims lets through.
access_same : (claims access : Fields) → require_access_claims claims ≡ ok access → claims ≡ access
unfolding require_access_claims
access_same claims access h = ground arith

abbrev request_user : Fields → StoredUser → Option ℕ → User
request_user claims stored effective = record {
  stored = stored;
  delegation_active = is_delegation (get "delegation" claims);
  effective_tenant_id = effective;
}

-- An operator without a delegation has no tenant.
undelegated :
    (user : User) (n : ℕ)
    → effective_tenant_id_of user ≡ ok n
    → (is_operator (role_of user) ≡ true → user.delegation_active ≡ true)
      × (first_tenant user.effective_tenant_id user.stored.tenant_id ≡ ok n)
unfolding effective_tenant_id_of
undelegated user n h = ground arith

tenant_from :
    (claims : Fields) (stored : StoredUser) (effective : Option ℕ) (n : ℕ)
    → effective_tenant claims stored ≡ ok effective
    → first_tenant effective stored.tenant_id ≡ ok n
    → IsTenantOf claims (request_user claims stored effective) n
tenant_from claims stored effective n acts first =
    elim (first_tenant-ok effective stored.tenant_id n first) [
      | inr home ↦ own home
      | inl is_effective ↦ elim (effective_tenant-ok claims stored effective acts) [
        | inl same ↦ own (sym same ∙ is_effective)
        | inr (m, acting, is_delegated, there, is_number) ↦
            delegated is_delegated there
              (is_number ∙ ap ok (some-injective (sym acting ∙ is_effective)))
      ]
    ]

-- What effective_tenant_id_of gives for the user of a request is the acting tenant of a delegation
-- that the claims carry, or the tenant of the user's own row; for ADMIN_XOC and SUPERADMIN the
-- claims carry a delegation in both cases.
pub IsTenantOf-get_current_user :
    (users : ℕ → Option StoredUser) (claims : Fields) (user : User) (n : ℕ)
    → get_current_user users claims ≡ ok user
    → effective_tenant_id_of user ≡ ok n
    → IsTenantOf claims user n
      × (is_operator (role_of user) ≡ true → is_delegation (get "delegation" claims) ≡ true)
unfolding get_current_user
IsTenantOf-get_current_user users claims user n h k =
    let (access, passed, h1) = and_then-ok (require_access_claims claims) _ h in
    let (user_id, _, h2) = and_then-ok (get_current_user_id access) _ h1 in
    let (stored, _, h3) = and_then-ok (or_error (users user_id) _) _ h2 in
    let (effective, acts, h4) = and_then-ok (effective_tenant access stored) _ h3 in
    let claimed = access_same claims access passed in
    let is_user = ok-injective h4 in
    let (needs, first) = undelegated user n k in
    (
      subst (λ c. IsTenantOf c user n) (sym claimed)
          (subst (λ u. IsTenantOf access u n) is_user
            (tenant_from access stored effective n acts (
              subst (λ (u : User). first_tenant u.effective_tenant_id u.stored.tenant_id ≡ ok n)
                (sym is_user) first))),
      (λ operator.
          ap (λ c. is_delegation (get "delegation" c)) claimed
          ∙ ap (λ (u : User). u.delegation_active) is_user
          ∙ needs operator),
    )
