-- ===== src/Gateway/Authorized.antt =====
-- When the policy of tool_gateway/policy.py allows a tool, and what the executor does when it does
-- not.
use xoc_api_aws.Base.{String, ◌≡◌, refl, true, false, Option, none, some, ◌==◌, arith}
use xoc_api_aws.Base.Value.{Value, dict, Fields}
use xoc_api_aws.Gateway.Schemas.{
  ToolContext, ToolRequest, ToolDefinition, ToolAccessLevel, allowed, read_only, write_safe,
  write_requires_approval, destructive_blocked, normalize_role,
}
use xoc_api_aws.Gateway.Registry.{get_tool_definition, lookup, tenant_read_roles}
use xoc_api_aws.Gateway.Policy.{
  evaluate_tool_request, judge_arguments, judge_tool, judge_context, judge_access, judge_role,
  or_registered, has_ownership_argument, is_missing, elem, known_roles,
}

-- What a request must meet to be allowed.
pub record IsAuthorized (context : ToolContext) (request : ToolRequest)
    (definition : ToolDefinition) : Type 0 where
  pub arguments : Fields
  pub is_object : request.arguments ≡ dict arguments
  pub owns_nothing : has_ownership_argument arguments ≡ false
  pub known : elem (normalize_role context.role) known_roles ≡ true
  pub has_tenant : is_missing context.effective_tenant_id ≡ false
  pub has_user : is_missing context.user_id ≡ false
  pub no_superadmin : (normalize_role context.role == "SUPERADMIN") ≡ false
  pub reads : definition.access_level ≡ read_only
  pub is_enabled : definition.enabled ≡ true
  pub may : elem (normalize_role context.role) definition.allowed_roles ≡ true
  pub delegated :
      (normalize_role context.role == "ADMIN_XOC") ≡ true
      → definition.requires_delegation_for_admin_xoc ≡ true
      → context.delegation_active ≡ true

-- The last tests passed.
judge_role-allowed :
    (context : ToolContext) (role : String) (definition : ToolDefinition)
    → (judge_role context role definition).decision ≡ allowed
    → (definition.enabled ≡ true)
      × (elem role definition.allowed_roles ≡ true)
      × ((role == "ADMIN_XOC") ≡ true
          → definition.requires_delegation_for_admin_xoc ≡ true
          → context.delegation_active ≡ true)
unfolding judge_role
judge_role-allowed context role definition h = ground arith

judge_access-allowed :
    (context : ToolContext) (role : String) (definition : ToolDefinition) (level : ToolAccessLevel)
    → (judge_access context role definition level).decision ≡ allowed
    → (level ≡ read_only) × ((judge_role context role definition).decision ≡ allowed)
unfolding judge_access
judge_access-allowed context role definition read_only h = (refl, h)
judge_access-allowed context role definition write_safe h = cc
judge_access-allowed context role definition write_requires_approval h = cc
judge_access-allowed context role definition destructive_blocked h = cc

judge_context-allowed :
    (context : ToolContext) (role : String) (definition : ToolDefinition)
    → (judge_context context role definition).decision ≡ allowed
    → (elem role known_roles ≡ true)
      × (is_missing context.effective_tenant_id ≡ false)
      × (is_missing context.user_id ≡ false)
      × ((role == "SUPERADMIN") ≡ false)
      × ((judge_access context role definition definition.access_level).decision ≡ allowed)
unfolding judge_context
judge_context-allowed context role definition h = ground arith

judge_arguments-allowed :
    (context : ToolContext) (v : Value) (o : Option ToolDefinition)
    → (judge_arguments context v o).decision ≡ allowed
    → (arguments : Fields) × (v ≡ dict arguments)
      × (has_ownership_argument arguments ≡ false)
      × ((judge_tool context o).decision ≡ allowed)
unfolding judge_arguments
judge_arguments-allowed context (dict arguments) o h = (arguments, refl, ground arith, ground arith)
judge_arguments-allowed context _ o h = cc

judge_tool-allowed :
    (context : ToolContext) (o : Option ToolDefinition)
    → (judge_tool context o).decision ≡ allowed
    → (definition : ToolDefinition) × (o ≡ some definition)
      × ((judge_context context (normalize_role context.role) definition).decision ≡ allowed)
unfolding judge_tool
judge_tool-allowed context (some definition) h = (definition, refl, h)
judge_tool-allowed context none h = cc

-- The policy of evaluate_tool_request allows a request only if its arguments are an object without a
-- key of ownership, its tool is known, read-only and enabled, and the asker has a tenant, a user id
-- and a role that is known, that is not SUPERADMIN and that the tool names; for ADMIN_XOC and a tool
-- that asks for it, only with an active delegation.
pub allowed-IsAuthorized :
    (context : ToolContext) (request : ToolRequest) (given : Option ToolDefinition)
    → (evaluate_tool_request context request given).decision ≡ allowed
    → (definition : ToolDefinition) × (or_registered given request.tool_name ≡ some definition)
      × IsAuthorized context request definition
unfolding evaluate_tool_request
allowed-IsAuthorized context request given h =
    let (arguments, object, owns_nothing, h1) =
      judge_arguments-allowed context request.arguments (or_registered given request.tool_name) h in
    let (definition, is_known, h2) =
      judge_tool-allowed context (or_registered given request.tool_name) h1 in
    let (role_known, tenant, user, other, h3) =
      judge_context-allowed context (normalize_role context.role) definition h2 in
    let (reads, h4) =
      judge_access-allowed context (normalize_role context.role) definition definition.access_level
        h3 in
    let (is_enabled, may, delegated) =
      judge_role-allowed context (normalize_role context.role) definition h4 in
    (
      definition,
      is_known,
      record {
        arguments = arguments;
        is_object = object;
        owns_nothing = owns_nothing;
        known = role_known;
        has_tenant = tenant;
        has_user = user;
        no_superadmin = other;
        reads = reads;
        is_enabled = is_enabled;
        may = may;
        delegated = delegated;
      },
    )

judge_role-passed :
    (context : ToolContext) (role : String) (definition : ToolDefinition)
    → definition.enabled ≡ true
    → elem role definition.allowed_roles ≡ true
    → is_missing context.effective_tenant_id ≡ false
    → ((role == "ADMIN_XOC") ≡ true
        → definition.requires_delegation_for_admin_xoc ≡ true
        → context.delegation_active ≡ true)
    → (judge_role context role definition).decision ≡ allowed
unfolding judge_role
judge_role-passed context role definition is_enabled may tenant delegated = ground arith

-- The policy of evaluate_tool_request allows every request that meets the conditions of IsAuthorized
-- for the definition that it finds: they are all that it asks.
pub authorized-allowed :
    (context : ToolContext) (request : ToolRequest) (given : Option ToolDefinition)
    (definition : ToolDefinition)
    → or_registered given request.tool_name ≡ some definition
    → IsAuthorized context request definition
    → (evaluate_tool_request context request given).decision ≡ allowed
unfolding evaluate_tool_request judge_arguments judge_tool judge_context judge_access judge_role
authorized-allowed context request given definition is_known a =
    rw
      (
        a.is_object, is_known, a.owns_nothing, a.known, a.has_tenant, a.has_user, a.no_superadmin,
        a.reads,
      )
      (judge_role-passed context (normalize_role context.role) definition a.is_enabled a.may
        a.has_tenant a.delegated)

-- Every tool of the allowlist is read-only, names the roles USER, ADMIN and ADMIN_XOC, so that
-- SUPERADMIN is not among them, and asks ADMIN_XOC for a delegation.
pub registered-read_only :
    (tool_name : Option String) (definition : ToolDefinition)
    → get_tool_definition tool_name ≡ some definition
    → (definition.access_level ≡ read_only)
      × (definition.allowed_roles ≡ tenant_read_roles)
      × (definition.requires_delegation_for_admin_xoc ≡ true)
unfolding get_tool_definition lookup
registered-read_only tool_name definition h = ground arith
