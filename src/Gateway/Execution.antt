-- ===== src/Gateway/Execution.antt =====
-- What ToolExecutor.execute of tool_gateway/executor.py runs, and what it answers.
use xoc_api_aws.Base.{String, ◌≡◌, refl, ◌∙◌, sym, ap, subst, ◌≢◌, Option, none, some, List}
use xoc_api_aws.Base.Text.{strip}
use xoc_api_aws.Base.Value.{Value, dict_or_empty}
use xoc_api_aws.Gateway.Schemas.{
  ToolContext, ToolRequest, ToolDefinition, ToolPolicyDecision, ToolDecision, allowed, denied,
  needs_approval, ToolResult, or_empty,
}
use xoc_api_aws.Gateway.Registry.{Registry, lookup}
use xoc_api_aws.Gateway.Policy.{evaluate_tool_request, or_registered}
use xoc_api_aws.Gateway.Executor.{
  execute, proceed, call, refusal, audit_material, result_of, answer, Outcome, done, value_error,
  failure, ToolHandler,
}
use xoc_api_aws.Gateway.Authorized.{IsAuthorized, allowed-IsAuthorized}

answer-allowed :
    (outcome : Outcome) (audit_id : String)
    → (answer outcome audit_id).status ≡ allowed
    → (v : Value) × (outcome ≡ done v) × ((answer outcome audit_id).data_ ≡ some v)
unfolding answer
answer-allowed (done v) audit_id h = (v, refl, refl)
answer-allowed value_error audit_id h = cc
answer-allowed failure audit_id h = cc

module _ {W : Type 0} (digest : String → String) (registry : Registry)
    (handlers : List (String × ToolHandler W)) (context : ToolContext) (request : ToolRequest) where
  -- The definition that ToolExecutor finds for a request.
  abbrev pub found : Option ToolDefinition
  found = lookup registry (strip (or_empty request.tool_name))

  denied-not-allowed : denied ≡ allowed → ⊥
  denied-not-allowed h = cc

  approval-not-allowed : needs_approval ≡ allowed → ⊥
  approval-not-allowed h = cc

  nothing :
      (audit_id : String) (w : W)
      → (call digest registry handlers context request audit_id none w).0
        ≡ refusal "Tool is not executable" "handler_unavailable" audit_id
  unfolding call
  nothing audit_id w = refl

  call-allowed :
      (audit_id : String) (o : Option (ToolHandler W)) (w : W)
      → (call digest registry handlers context request audit_id o w).0.status ≡ allowed
      → (handler : ToolHandler W) × (v : Value) × (o ≡ some handler)
        × ((handler context (dict_or_empty request.arguments) w).0 ≡ done v)
        × ((call digest registry handlers context request audit_id o w).0.data_ ≡ some v)
  unfolding call
  call-allowed audit_id none w h = cc
  call-allowed audit_id (some handler) w h =
      let (v, ran, data_) =
        answer-allowed (handler context (dict_or_empty request.arguments) w).0 audit_id h in
      (handler, v, refl, ran, data_)

  -- What has run when the answer is a success.
  pub record HasRun (o : Option ToolDefinition) (result : ToolResult) (w : W) : Type 0 where
    pub definition : ToolDefinition
    pub handler : ToolHandler W
    pub value : Value
    pub is_found : o ≡ some definition
    pub is_named : lookup handlers (or_empty definition.handler_name) ≡ some handler
    pub has_run : (handler context (dict_or_empty request.arguments) w).0 ≡ done value
    pub answers : result.data_ ≡ some value

  proceed-HasRun :
      (audit_id : String) (o : Option ToolDefinition) (verdict : ToolPolicyDecision)
      (decision : ToolDecision) (w : W)
      → verdict.decision ≡ decision
      → (proceed digest registry handlers context request audit_id o verdict decision w).0.status
        ≡ allowed
      → (verdict.decision ≡ allowed)
        × HasRun o
            (proceed digest registry handlers context request audit_id o verdict decision w).0
            w
  unfolding proceed result_of
  proceed-HasRun audit_id (some definition) verdict allowed w e h =
      let (handler, v, named, ran, data_) =
        call-allowed audit_id (lookup handlers (or_empty definition.handler_name)) w h in
      (
        e,
        record {
          definition = definition;
          handler = handler;
          value = v;
          is_found = refl;
          is_named = named;
          has_run = ran;
          answers = data_;
        },
      )
  proceed-HasRun audit_id none verdict allowed w e h =
      absurd (denied-not-allowed (ap (λ (r : ToolResult). r.status) (sym (nothing audit_id w)) ∙ h))
  proceed-HasRun audit_id o verdict denied w e h = absurd (denied-not-allowed (sym e ∙ h))
  proceed-HasRun audit_id o verdict needs_approval w e h = absurd (approval-not-allowed (sym e ∙ h))

  proceed-quiet :
      (audit_id : String) (definition : Option ToolDefinition) (verdict : ToolPolicyDecision)
      (decision : ToolDecision) (w : W)
      → decision ≢ allowed
      → (proceed digest registry handlers context request audit_id definition verdict decision w).1
        ≡ w
  unfolding proceed
  proceed-quiet audit_id definition verdict allowed w differs = absurd (differs refl)
  proceed-quiet audit_id definition verdict denied w differs = refl
  proceed-quiet audit_id definition verdict needs_approval w differs = refl

  -- ToolExecutor.execute answers with success only for a request that the policy's conditions hold
  -- for, with the definition of its own registry, and then with what the handler that this
  -- definition names has given for the arguments.
  pub execute-allowed :
      (w : W)
      → (execute digest registry handlers context request w).0.status ≡ allowed
      → (run : HasRun found (execute digest registry handlers context request w).0 w) × IsAuthorized
          context request run.definition
  unfolding execute
  execute-allowed w h =
      let (allows, run) =
        proceed-HasRun (digest (audit_material context request)) found
          (evaluate_tool_request context request found)
          (evaluate_tool_request context request found).decision w refl h in
      let (definition, known, a) = allowed-IsAuthorized context request found allows in
      (
        run,
        subst (λ d. IsAuthorized context request d)
            (same definition run.definition found known run.is_found) a,
      )
    where
      same :
          (d e : ToolDefinition) (o : Option ToolDefinition)
          → or_registered o request.tool_name ≡ some d
          → o ≡ some e
          → d ≡ e
      same d e none h k = cc
      same d e (some f) h k = cc

  -- ToolExecutor.execute runs no handler, and so leaves the world as it is, unless it finds a
  -- definition for the request, in its own registry or in that of the policy, and the conditions of
  -- the policy hold for the request and that definition.
  pub execute-quiet :
      (w : W)
      → ((definition : ToolDefinition)
          → or_registered found request.tool_name ≡ some definition
          → ¬ IsAuthorized context request definition)
      → (execute digest registry handlers context request w).1 ≡ w
  unfolding execute
  execute-quiet w unauthorized =
      proceed-quiet _ found _ (evaluate_tool_request context request found).decision w (λ e.
        let (definition, known, a) = allowed-IsAuthorized context request found e in
        unauthorized definition known a)
