-- ===== src/Gateway/Registry.antt =====
-- The allowlist of tool_gateway/registry.py.
use xoc_api_aws.Base.{String, Option, none, some, List, [], ◌∷◌, true, false, ◌==◌, if◌then◌else◌}
use xoc_api_aws.Base.Text.{strip}
use xoc_api_aws.Gateway.Schemas.{ToolDefinition, read_only, low, medium, or_empty}

-- _TENANT_READ_ROLES
abbrev pub tenant_read_roles : List String
tenant_read_roles = "USER" ∷ "ADMIN" ∷ "ADMIN_XOC" ∷ []

abbrev tickets_list : ToolDefinition
tickets_list = record {
  name = "xoc.tickets.list";
  description = "List tickets belonging to the authenticated effective tenant.";
  access_level = read_only;
  risk_level = low;
  allowed_roles = tenant_read_roles;
  requires_delegation_for_admin_xoc = true;
  handler_name = some "tickets.list";
  enabled = true;
}

abbrev tickets_get : ToolDefinition
tickets_get = record {
  name = "xoc.tickets.get";
  description = "Read one ticket only within the authenticated effective tenant.";
  access_level = read_only;
  risk_level = low;
  allowed_roles = tenant_read_roles;
  requires_delegation_for_admin_xoc = true;
  handler_name = some "tickets.get";
  enabled = true;
}

abbrev documents_list : ToolDefinition
documents_list = record {
  name = "xoc.documents.list";
  description = "List document jobs belonging to the authenticated effective tenant.";
  access_level = read_only;
  risk_level = low;
  allowed_roles = tenant_read_roles;
  requires_delegation_for_admin_xoc = true;
  handler_name = some "documents.list";
  enabled = true;
}

abbrev notifications_unread_count : ToolDefinition
notifications_unread_count = record {
  name = "xoc.notifications.unread_count";
  description = "Read the authenticated user's unread notification count.";
  access_level = read_only;
  risk_level = low;
  allowed_roles = tenant_read_roles;
  requires_delegation_for_admin_xoc = true;
  handler_name = some "notifications.unread_count";
  enabled = true;
}

abbrev dashboard_summary : ToolDefinition
dashboard_summary = record {
  name = "xoc.dashboard.summary";
  description = "Reserved pending a read-only, non-RDS adapter.";
  access_level = read_only;
  risk_level = low;
  allowed_roles = tenant_read_roles;
  requires_delegation_for_admin_xoc = true;
  handler_name = none;
  enabled = false;
}

abbrev integrations_summary : ToolDefinition
integrations_summary = record {
  name = "xoc.integrations.summary";
  description = "Reserved pending a read-only, non-RDS adapter.";
  access_level = read_only;
  risk_level = medium;
  allowed_roles = tenant_read_roles;
  requires_delegation_for_admin_xoc = true;
  handler_name = none;
  enabled = false;
}

-- A registry: a tool's name and its definition.
abbrev pub Registry : Type 0
Registry = List (String × ToolDefinition)

-- TOOL_REGISTRY
abbrev pub tool_registry : Registry
tool_registry =
    ("xoc.tickets.list", tickets_list)
    ∷ ("xoc.tickets.get", tickets_get)
    ∷ ("xoc.documents.list", documents_list)
    ∷ ("xoc.notifications.unread_count", notifications_unread_count)
    ∷ ("xoc.dashboard.summary", dashboard_summary)
    ∷ ("xoc.integrations.summary", integrations_summary)
    ∷ []

-- `registry.get(name)`
unfoldable pub lookup {ℓ} : {A : Type ℓ} → List (String × A) → String → Option A
lookup [] name = none
lookup ((key, a) ∷ rows) name = if key == name then some a else lookup rows name

-- get_tool_definition
unfoldable pub get_tool_definition : Option String → Option ToolDefinition
unfolding lookup strip
get_tool_definition tool_name = lookup tool_registry (strip (or_empty tool_name))
