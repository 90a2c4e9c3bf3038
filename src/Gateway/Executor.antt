-- ===== src/Gateway/Executor.antt =====
-- The executor of tool_gateway/executor.py and the audit id of tool_gateway/audit.py.
use Prim.Native.String
use xoc_api_aws.Base.{ℕ, String, Option, none, some, List, ◌==◌, if◌then◌else◌}
use xoc_api_aws.Base.Text.{strip}
use xoc_api_aws.Base.Decimal.{show_nat}
use xoc_api_aws.Base.Value.{Value, Fields, dict_or_empty}
use xoc_api_aws.Gateway.Schemas.{
  ToolContext, ToolRequest, ToolDefinition, ToolPolicyDecision, ToolResult, ToolDecision, allowed,
  denied, or_empty,
}
use xoc_api_aws.Gateway.Registry.{Registry, lookup}
use xoc_api_aws.Gateway.Policy.{evaluate_tool_request}

-- What a tool's handler gives: its data, a ValueError, or another exception.
pub data Outcome : Type 0 where
  done : Value → Outcome
  value_error : Outcome
  failure : Outcome

-- A handler works in the world of its stores.
abbrev pub ToolHandler : Type 0 → Type 0
ToolHandler W = ToolContext → Fields → W → Outcome × W

-- f"{n}" of a number or None
abbrev shown : Option ℕ → String
shown none = "None"
shown (some n) = show_nat n

abbrev shown_text : Option String → String
shown_text none = "None"
shown_text (some s) = s

-- `first or second or "no-request-id"`
abbrev first_id : String → String → String
first_id first second =
    if first == "" then (if second == "" then "no-request-id" else second) else first

-- The text that tool_audit_id takes the digest of.
unfoldable pub audit_material : ToolContext → ToolRequest → String
audit_material context request =
    String.◌++◌ (first_id (or_empty request.request_id) (or_empty context.request_id)) (
      String.◌++◌ "|" (
        String.◌++◌ (shown_text request.tool_name) (
          String.◌++◌ "|" (
            String.◌++◌ (shown context.effective_tenant_id)
              (String.◌++◌ "|" (shown context.user_id))))))

abbrev pub refusal : String → String → String → ToolResult
refusal error code audit_id = record {
  status = denied;
  data_ = none;
  error = some error;
  code = code;
  audit_id = audit_id;
}

-- The result of a handler that has run.
unfoldable pub answer : Outcome → String → ToolResult
answer (done value) audit_id = record {
  status = allowed;
  data_ = some value;
  error = none;
  code = "allowed";
  audit_id = audit_id;
}
answer value_error audit_id = refusal "Tool arguments are invalid" "invalid_arguments" audit_id
answer failure audit_id = refusal "Tool execution failed" "execution_failed" audit_id

unfoldable pub result_of : ToolPolicyDecision → String → ToolResult
result_of verdict audit_id = record {
  status = verdict.decision;
  data_ = none;
  error = some verdict.reason;
  code = verdict.code;
  audit_id = audit_id;
}

-- `self._handlers.get(definition.handler_name or "") if definition else None`
abbrev pub handler_of : {A : Type 0} → List (String × A) → Option ToolDefinition → Option A
handler_of handlers none = none
handler_of handlers (some definition) = lookup handlers (or_empty definition.handler_name)

module _ {W : Type 0} (digest : String → String) (registry : Registry)
    (handlers : List (String × ToolHandler W)) where
  -- The call of the handler that the definition names.
  unfoldable pub call :
      ToolContext → ToolRequest → String → Option (ToolHandler W) → W → ToolResult × W
  call context request audit_id none w =
      (refusal "Tool is not executable" "handler_unavailable" audit_id, w)
  call context request audit_id (some handler) w =
      let (outcome, w') = handler context (dict_or_empty request.arguments) w in
      (answer outcome audit_id, w')

  -- What follows the policy's decision.
  unfoldable pub proceed :
      ToolContext
      → ToolRequest
      → String
      → Option ToolDefinition
      → ToolPolicyDecision
      → ToolDecision
      → W
      → ToolResult × W
  proceed context request audit_id definition verdict allowed w =
      call context request audit_id (handler_of handlers definition) w
  proceed context request audit_id definition verdict _ w = (result_of verdict audit_id, w)

  -- ToolExecutor.execute; `digest` is the first 24 characters of the hexadecimal SHA-256
  unfoldable pub execute : ToolContext → ToolRequest → W → ToolResult × W
  execute context request w =
      let definition = lookup registry (strip (or_empty request.tool_name)) in
      let verdict = evaluate_tool_request context request definition in
      proceed context request (digest (audit_material context request)) definition verdict
        verdict.decision w
