-- ===== src/Gateway/Isolation.antt =====
-- What the tools of tool_gateway/executor.py can read: nothing but the asker's tenant, and never
-- more than 200 rows.
use xoc_api_aws.Base.{
  ℕ, String, ◌≡◌, refl, ap, subst, inl, inr, ◌≤◌, ◌||◌, not, Option, none, some, List, [], ◌∷◌,
  ◌==◌, arith, Bool-cases, Option-cases, All,
}
use xoc_api_aws.Base.Text.{is_longer}
use xoc_api_aws.Base.Value.{Value, null, Fields, get, dict_or_empty}
use xoc_api_aws.Gateway.Schemas.{
  ToolContext, ToolRequest, ToolDefinition, ToolPolicyDecision, ToolDecision, allowed, denied,
  needs_approval,
}
use xoc_api_aws.Gateway.Registry.{Registry, lookup}
use xoc_api_aws.Gateway.Executor.{execute, proceed, call, answer, Outcome, handler_of, ToolHandler}
use xoc_api_aws.Gateway.Tools.{
  Stores, Checked, allowed_arguments, limit_of, within, bounded_limit, status_argument, outcome_of,
  documents_data, count_data, for_id, checked, filtered, tickets_list, tickets_get, documents_list,
  ticket_id_argument, ticket_data, notifications_unread_count, default_handlers,
}

within-bounds :
    (maximum : ℕ) (o : Option ℕ) (n : ℕ) → within maximum o ≡ some n → (1 ≤ n) × (n ≤ maximum)
within-bounds maximum none n h = cc
within-bounds maximum (some limit) n h = ground arith

-- _bounded_limit gives a limit between one and the maximum, whatever the argument is, if the default
-- is such a limit.
pub bounded_limit-bounds :
    (v : Value) (default maximum n : ℕ)
    → 1 ≤ default
    → default ≤ maximum
    → bounded_limit v default maximum ≡ some n
    → (1 ≤ n) × (n ≤ maximum)
unfolding bounded_limit
bounded_limit-bounds null default maximum n low high h = ground arith
bounded_limit-bounds v default maximum n low high h = within-bounds maximum (limit_of v) n h

some-injective : {A : Type 0} {a b : A} → some a ≡ some b → a ≡ b
some-injective h = cc

checked-cong :
    {A : Type 0} (o : Checked A) (f g : A → Outcome)
    → ((a : A) → o ≡ some a → f a ≡ g a)
    → checked o f ≡ checked o g
checked-cong none f g same = refl
checked-cong (some a) f g same = same a refl

for_id-cong :
    (o : Option ℕ) (f g : ℕ → Outcome)
    → ((n : ℕ) → o ≡ some n → f n ≡ g n)
    → for_id o f ≡ for_id o g
for_id-cong none f g same = refl
for_id-cong (some n) f g same = same n refl

module _ {W : Type 0} (stores : Stores W) where
  -- The two lists read the asker's tenant only, at limits from 1 to 200.
  filtered-cong :
      (context : ToolContext) (arguments : Fields) (read read' : ℕ → Option String → ℕ → Outcome)
      → ((tenant_id : ℕ) (status : Option String) (limit : ℕ)
          → context.effective_tenant_id ≡ some tenant_id
          → 1 ≤ limit
          → limit ≤ 200
          → read tenant_id status limit ≡ read' tenant_id status limit)
      → filtered stores context arguments read ≡ filtered stores context arguments read'
  unfolding filtered
  filtered-cong context arguments read read' same =
      elim (Bool-cases (allowed_arguments ("status" ∷ "limit" ∷ []) arguments)) [
        | inr other ↦ rw other refl
        | inl only ↦ rw only (
            checked-cong (status_argument (get "status" arguments)) _ _ λ status _.
              for_id-cong context.effective_tenant_id _ _ λ tenant_id is_tenant.
                checked-cong (bounded_limit (get "limit" arguments) 50 200) _ _ λ limit is_limit.
                  let (low, high) =
                    bounded_limit-bounds (get "limit" arguments) 50 200 limit (omega arith)
                      (omega arith) is_limit in
                  same tenant_id status limit is_tenant low high)
      ]

  -- Two worlds that give the same answers for the tenant and the user of a context.
  pub record SameReads (context : ToolContext) (w w' : W) : Type 0 where
    pub tickets :
        (tenant_id : ℕ) (status : Option String) (limit : ℕ)
        → context.effective_tenant_id ≡ some tenant_id
        → limit ≤ 200
        → stores.list_tenant_tickets w tenant_id status limit
          ≡ stores.list_tenant_tickets w' tenant_id status limit
    pub ticket :
        (tenant_id : ℕ) (ticket_id : String)
        → context.effective_tenant_id ≡ some tenant_id
        → stores.get_ticket w tenant_id ticket_id ≡ stores.get_ticket w' tenant_id ticket_id
    pub documents :
        (tenant_id : ℕ) (status : Option String) (limit : ℕ)
        → context.effective_tenant_id ≡ some tenant_id
        → limit ≤ 200
        → stores.list_tenant_document_jobs w tenant_id status limit
          ≡ stores.list_tenant_document_jobs w' tenant_id status limit
    pub unread :
        (tenant_id user_id : ℕ)
        → context.effective_tenant_id ≡ some tenant_id
        → context.user_id ≡ some user_id
        → stores.unread_count_for_user w tenant_id user_id
          ≡ stores.unread_count_for_user w' tenant_id user_id

  module _ (context : ToolContext) (w w' : W) (same : SameReads context w w') where
    -- A handler that cannot tell the two worlds apart.
    abbrev Blind : ToolHandler W → Type 0
    Blind handler =
        (arguments : Fields) → (handler context arguments w).0 ≡ (handler context arguments w').0

    tickets_list-Blind : Blind (tickets_list stores)
    unfolding tickets_list
    tickets_list-Blind arguments =
        filtered-cong context arguments _ _ λ tenant_id status limit is_tenant low high.
          ap outcome_of (same.tickets tenant_id status limit is_tenant high)

    documents_list-Blind : Blind (documents_list stores)
    unfolding documents_list
    documents_list-Blind arguments =
        filtered-cong context arguments _ _ λ tenant_id status limit is_tenant low high.
          ap documents_data (same.documents tenant_id status limit is_tenant high)

    tickets_get-Blind : Blind (tickets_get stores)
    unfolding tickets_get
    tickets_get-Blind arguments =
        elim (Bool-cases (
          not (allowed_arguments ("ticket_id" ∷ []) arguments)
          || ticket_id_argument stores arguments == ""
          || is_longer 256 (ticket_id_argument stores arguments))) [
            | inl refused ↦ rw refused refl
            | inr passed ↦ rw passed (
                for_id-cong context.effective_tenant_id _ _ λ tenant_id is_tenant.
                  ap (ticket_data stores)
                    (same.ticket tenant_id (ticket_id_argument stores arguments) is_tenant))
          ]

    unread_count-Blind : Blind (notifications_unread_count stores)
    unfolding notifications_unread_count
    unread_count-Blind arguments = elim (Bool-cases (allowed_arguments [] arguments)) [
      | inr other ↦ rw other refl
      | inl only ↦ rw only (
          for_id-cong context.effective_tenant_id _ _ λ tenant_id is_tenant.
            for_id-cong context.user_id _ _
              λ user_id is_user. ap count_data (same.unread tenant_id user_id is_tenant is_user))
    ]

    lookup-Blind :
        (rows : List (String × ToolHandler W)) (name : String) (handler : ToolHandler W)
        → All (λ row. Blind row.1) rows
        → lookup rows name ≡ some handler
        → Blind handler
    unfolding lookup
    lookup-Blind [] name handler h e = cc
    lookup-Blind ((key, other) ∷ rows) name handler (b, bs) e = elim (Bool-cases (key == name)) [
      | inl here ↦ subst Blind (some-injective (rw here at e)) b
      | inr later ↦ lookup-Blind rows name handler bs (rw later at e)
    ]

    default-Blind :
        (o : Option ToolDefinition) (handler : ToolHandler W)
        → handler_of (default_handlers stores) o ≡ some handler
        → Blind handler
    default-Blind none handler h = cc
    default-Blind (some definition) handler h =
        lookup-Blind (default_handlers stores) _ handler
          (
            tickets_list-Blind,
            (tickets_get-Blind, (documents_list-Blind, (unread_count-Blind, tt))),
          )
          h

    proceed-Blind :
        (digest : String → String) (registry : Registry) (request : ToolRequest) (audit_id : String)
        (o : Option ToolDefinition) (verdict : ToolPolicyDecision) (decision : ToolDecision)
        → (proceed digest registry
            (default_handlers stores)
            context
            request
            audit_id
            o
            verdict
            decision
            w).0
          ≡ (proceed digest registry
              (default_handlers stores)
              context
              request
              audit_id
              o
              verdict
              decision
              w').0
    unfolding proceed call
    proceed-Blind digest registry request audit_id o verdict denied = refl
    proceed-Blind digest registry request audit_id o verdict needs_approval = refl
    proceed-Blind digest registry request audit_id o verdict allowed =
        elim (Option-cases (handler_of (default_handlers stores) o)) [
          | inl none_there ↦ rw none_there refl
          | inr (handler, there) ↦ rw there (
              ap (λ outcome. answer outcome audit_id)
                (default-Blind o handler there (dict_or_empty request.arguments)))
        ]

    -- What ToolExecutor.execute answers with the default handlers depends on nothing in the stores but
    -- the reads for the effective tenant and the user of the asker, with limits up to 200, whatever the
    -- request holds.
    pub execute-isolated :
        (digest : String → String) (registry : Registry) (request : ToolRequest)
        → (execute digest registry (default_handlers stores) context request w).0
          ≡ (execute digest registry (default_handlers stores) context request w').0
    unfolding execute
    execute-isolated digest registry request = proceed-Blind digest registry request _ _ _ _
