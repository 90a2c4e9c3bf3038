-- ===== src/Gateway/Policy.antt =====
-- The authorization policy of tool_gateway/policy.py.
use xoc_api_aws.Base.{
  ℕ, String, Bool, true, false, ◌||◌, ◌&&◌, not, Option, none, some, List, [], ◌∷◌, ◌==◌,
  if◌then◌else◌, any,
}
use xoc_api_aws.Base.Text.{strip, lower}
use xoc_api_aws.Base.Tests.{eqb}
use xoc_api_aws.Base.Value.{Value, dict, Fields, end, field}
use xoc_api_aws.Gateway.Schemas.{
  ToolContext, ToolRequest, ToolDefinition, ToolPolicyDecision, ToolAccessLevel, allowed, denied,
  needs_approval, read_only, write_safe, write_requires_approval, destructive_blocked,
  normalize_role,
}
use xoc_api_aws.Gateway.Registry.{get_tool_definition}

-- _KNOWN_ROLES
abbrev pub known_roles : List String
known_roles = "USER" ∷ "ADMIN" ∷ "ADMIN_XOC" ∷ "SUPERADMIN" ∷ []

-- _OWNERSHIP_ARGUMENTS
abbrev pub ownership_arguments : List String
ownership_arguments =
    "tenantid" ∷ "tenant_id" ∷ "effectivetenantid" ∷ "effective_tenant_id" ∷ "userid" ∷ "user_id"
    ∷ "role" ∷ "actor_role" ∷ "actorrole" ∷ "actor_user_id" ∷ "actoruserid" ∷ "delegation_active"
    ∷ "delegationactive" ∷ "access_token" ∷ "accesstoken" ∷ "refresh_token" ∷ "refreshtoken" ∷ "jwt"
    ∷ []

abbrev pub elem : String → List String → Bool
elem s ss = any (λ t. t == s) ss

-- _has_ownership_argument
unfoldable pub has_ownership_argument : Fields → Bool
unfolding strip lower
has_ownership_argument end = false
has_ownership_argument (field key v fs) =
    elem (lower (strip key)) ownership_arguments || has_ownership_argument fs

-- _deny
abbrev pub deny : String → String → ToolPolicyDecision
deny reason code = record { decision = denied; reason = reason; code = code }

-- `not n`, of an id that may be missing
abbrev pub is_missing : Option ℕ → Bool
is_missing none = true
is_missing (some n) = eqb n 0

abbrev pub allow : ToolPolicyDecision
allow = record { decision = allowed; reason = "Tool is allowed"; code = "allowed" }

abbrev pub ask : ToolPolicyDecision
ask = record {
  decision = needs_approval;
  reason = "This operation requires an explicit human approval flow";
  code = "approval_required";
}

-- The last tests: those of the tool's own roles and of the delegation.
unfoldable pub judge_role : ToolContext → String → ToolDefinition → ToolPolicyDecision
judge_role context role definition =
    if not definition.enabled
    then deny "Tool is disabled" "tool_disabled"
    else if not (elem role definition.allowed_roles)
    then deny "Role is not allowed to use this tool" "role_forbidden"
    else if role == "ADMIN_XOC"
        && definition.requires_delegation_for_admin_xoc
        && (not context.delegation_active || is_missing context.effective_tenant_id)
    then deny "ADMIN_XOC requires an active delegated tenant context" "delegation_required"
    else allow

-- The tests of the tool's access level. (With four levels the test `is not READ_ONLY` never holds
-- where it stands.)
unfoldable pub judge_access :
    ToolContext → String → ToolDefinition → ToolAccessLevel → ToolPolicyDecision
judge_access context role definition destructive_blocked =
    deny "Destructive tools are blocked for AI" "destructive_tool_blocked"
judge_access context role definition write_requires_approval = ask
judge_access context role definition write_safe =
    deny "Write tools are not enabled during Fase B" "write_tools_disabled"
judge_access context role definition read_only = judge_role context role definition

-- The tests of the asker, once the tool is known.
unfoldable pub judge_context : ToolContext → String → ToolDefinition → ToolPolicyDecision
judge_context context role definition =
    if not (elem role known_roles)
    then deny "Authenticated role is missing or invalid" "invalid_role"
    else if is_missing context.effective_tenant_id || is_missing context.user_id
    then deny "Authenticated tenant or user context is missing" "invalid_context"
    else if role == "SUPERADMIN"
    then deny "AI tools are disabled for SUPERADMIN" "superadmin_ai_blocked"
    else judge_access context role definition definition.access_level

-- `definition or get_tool_definition(request.tool_name)`
abbrev pub or_registered : Option ToolDefinition → Option String → Option ToolDefinition
or_registered (some definition) tool_name = some definition
or_registered none tool_name = get_tool_definition tool_name

unfoldable pub judge_tool : ToolContext → Option ToolDefinition → ToolPolicyDecision
unfolding normalize_role
judge_tool context none = deny "Tool is not registered" "unknown_tool"
judge_tool context (some definition) =
    judge_context context (normalize_role context.role) definition

unfoldable pub judge_arguments : ToolContext → Value → Option ToolDefinition → ToolPolicyDecision
judge_arguments context (dict arguments) definition =
    if has_ownership_argument arguments
    then deny "Tenant and user ownership are resolved from authenticated context"
        "ownership_argument_forbidden"
    else judge_tool context definition
judge_arguments context _ definition = deny "Tool arguments must be an object" "invalid_arguments"

-- evaluate_tool_request
unfoldable pub evaluate_tool_request :
    ToolContext → ToolRequest → Option ToolDefinition → ToolPolicyDecision
evaluate_tool_request context request definition =
    judge_arguments context request.arguments (or_registered definition request.tool_name)
