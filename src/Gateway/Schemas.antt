-- ===== src/Gateway/Schemas.antt =====
-- The contracts of tool_gateway/schemas.py, and normalize_role of shared/context.py.
use xoc_api_aws.Base.{ℕ, String, Bool, Option, none, some, List}
use xoc_api_aws.Base.Text.{strip, upper}
use xoc_api_aws.Base.Value.{Value}

pub data ToolRiskLevel : Type 0 where
  low medium high critical : ToolRiskLevel

pub data ToolAccessLevel : Type 0 where
  read_only write_safe write_requires_approval destructive_blocked : ToolAccessLevel

pub data ToolDecision : Type 0 where
  allowed denied needs_approval : ToolDecision

pub record ToolContext : Type 0 where
  pub tenant_id : Option ℕ
  pub effective_tenant_id : Option ℕ
  pub user_id : Option ℕ
  pub role : Option String
  pub delegation_active : Bool
  pub request_id : Option String
  pub source : String

-- The arguments may be any value: the policy checks that they are an object.
pub record ToolRequest : Type 0 where
  pub tool_name : Option String
  pub arguments : Value
  pub request_id : Option String

pub record ToolDefinition : Type 0 where
  pub name : String
  pub description : String
  pub access_level : ToolAccessLevel
  pub risk_level : ToolRiskLevel
  pub allowed_roles : List String
  pub requires_delegation_for_admin_xoc : Bool
  pub handler_name : Option String
  pub enabled : Bool

pub record ToolPolicyDecision : Type 0 where
  pub decision : ToolDecision
  pub reason : String
  pub code : String

pub record ToolResult : Type 0 where
  pub status : ToolDecision
  pub data_ : Option Value
  pub error : Option String
  pub code : String
  pub audit_id : String

-- `value or ""`
abbrev pub or_empty : Option String → String
or_empty none = ""
or_empty (some s) = s

-- normalize_role
unfoldable pub normalize_role : Option String → String
unfolding strip upper
normalize_role value = upper (strip (or_empty value))
