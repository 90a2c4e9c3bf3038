-- ===== src/Tickets/Preview.antt =====
-- preview_ticket_custom_plan and custom_ticket_plan of handlers/domains/tickets_dynamo.py agree.
use xoc_api_aws.Base.{String, ◌≡◌, refl, ap, ◌∙◌, sym, true, inl, inr}
use xoc_api_aws.Base.Value.{Value, Fields, truthy, get}
use xoc_api_aws.Base.Outcome.{
  Error, Result, ok, err, and_then-ok, require, require-ok, ok-injective, Result-cases,
}
use xoc_api_aws.Risk.Levels.{is_role_sufficient}
use xoc_api_aws.Risk.Plan.{Requirement}
use xoc_api_aws.Tickets.Item.{Ticket}
use xoc_api_aws.Tickets.Choice.{evaluate_solution}
use xoc_api_aws.Tickets.Table.{Table, World, Env}
use xoc_api_aws.Tickets.Claims.{claim_role, resolve_ticket_for_action}
use xoc_api_aws.Tickets.Guards.{
  pending_fields, custom_steps, custom_guard, require_role, Preview, custom_preview,
}
use xoc_api_aws.Tickets.Handlers.{custom_ticket_plan, preview_ticket_custom_plan, run_decision}
use xoc_api_aws.Tickets.Sends.{resumed-resolve}

err-not-ok : {A : Type 0} {x : Error} {a : A} → err x ≡ ok a → ⊥
err-not-ok h = cc

-- The preview of a plan that the user may run.
abbrev executable : Value → Value → Requirement → Preview
executable analysis plan requirement = record {
  analysis = analysis;
  plan = plan;
  requirement = requirement;
  can_execute = true;
  governance_message = "";
}

module _ (assess : Fields → Result Fields) (ticket_id : String) (payload claims : Fields)
    (item : Ticket) (pending : Fields) (role : String) (steps analysis plan : Value)
    (requirement : Requirement) (has_pending : pending_fields item ≡ ok pending)
    (written : custom_steps assess ticket_id payload item ≡ ok (steps, analysis))
    (some_steps : truthy steps ≡ true)
    (worked_out : evaluate_solution steps "custom" analysis ≡ ok (plan, requirement))
    (claimed : claim_role claims ≡ ok role)
    (may : is_role_sufficient role requirement.required_approver_role ≡ true) where
  shown :
      custom_preview assess ticket_id payload claims item
      ≡ ok (executable analysis plan requirement)
  unfolding custom_preview
  shown = rw (has_pending, written, some_steps, worked_out, claimed, may) refl

  runs : custom_guard assess ticket_id payload claims item ≡ ok plan
  unfolding custom_guard require_role
  runs = rw (has_pending, claimed, written, some_steps, worked_out, may) refl

module _ (assess : Fields → Result Fields) (ticket_id : String) (payload claims : Fields)
    (item : Ticket) where
  -- What lets a plan through, seen from the preview.
  guard-preview :
      (plan : Value)
      → custom_guard assess ticket_id payload claims item ≡ ok plan
      → (p : Preview) × (custom_preview assess ticket_id payload claims item ≡ ok p)
        × (p.plan ≡ plan)
        × (p.can_execute ≡ true)
  unfolding custom_guard require_role
  guard-preview plan h =
      let (pending, has_pending, h1) = and_then-ok (pending_fields item) _ h in
      let (role, claimed, h2) = and_then-ok (claim_role claims) _ h1 in
      let (solution, written, h3) = and_then-ok (custom_steps assess ticket_id payload item) _ h2 in
      let (_, some_steps, h4) = and_then-ok (require (truthy solution.0) _) _ h3 in
      let (evaluated, worked_out, h5) =
        and_then-ok (evaluate_solution solution.0 "custom" solution.1) _ h4 in
      let (_, may, done) =
        and_then-ok (require (is_role_sufficient role evaluated.1.required_approver_role) _) _ h5 in
      (
        executable solution.1 evaluated.0 evaluated.1,
        shown assess ticket_id payload claims item pending role solution.0 solution.1 evaluated.0
            evaluated.1 has_pending written (require-ok _ _ some_steps) worked_out claimed
            (require-ok _ _ may),
        ok-injective done,
        refl,
      )

  -- What the preview shows as executable, seen from the check.
  preview-guard :
      (p : Preview)
      → custom_preview assess ticket_id payload claims item ≡ ok p
      → p.can_execute ≡ true
      → custom_guard assess ticket_id payload claims item ≡ ok p.plan
  unfolding custom_preview
  preview-guard p h can =
      let (pending, has_pending, h1) = and_then-ok (pending_fields item) _ h in
      let (solution, written, h2) = and_then-ok (custom_steps assess ticket_id payload item) _ h1 in
      let (_, some_steps, h3) = and_then-ok (require (truthy solution.0) _) _ h2 in
      let (evaluated, worked_out, h4) =
        and_then-ok (evaluate_solution solution.0 "custom" solution.1) _ h3 in
      let (role, claimed, done) = and_then-ok (claim_role claims) _ h4 in
      let same = ok-injective done in
      runs assess ticket_id payload claims item pending role solution.0 solution.1 evaluated.0
        evaluated.1 has_pending written (require-ok _ _ some_steps) worked_out claimed
        (ap (λ (q : Preview). q.can_execute) same ∙ can)
      ∙ ap (λ (q : Preview). ok q.plan) same

-- Steps that are written in the payload are not the agent's: its answer does not count.
same_guard :
    (assess assess' : Fields → Result Fields) (ticket_id : String) (payload claims : Fields)
    (item : Ticket)
    → truthy (get "custom_plan_steps" payload) ≡ true
    → custom_guard assess' ticket_id payload claims item
      ≡ custom_guard assess ticket_id payload claims item
unfolding custom_guard custom_steps
same_guard assess assess' ticket_id payload claims item steps = rw steps refl

module _ {S : Type 0} (db : Table S) (env env' : Env S) (ticket_id : String)
    (payload claims : Fields) (w w' : World S)
    (same_ticket : (resolve_ticket_for_action db claims ticket_id w').0
      ≡ (resolve_ticket_for_action db claims ticket_id w).0)
    (steps : truthy (get "custom_plan_steps" payload) ≡ true) where
  -- custom_ticket_plan does for the ticket of the request what `run_decision` does with a plan.
  abbrev pub Runs : Value → Type 0
  Runs plan =
      (item : Ticket) × ((resolve_ticket_for_action db claims ticket_id w).0 ≡ ok item)
      × (custom_ticket_plan db env' ticket_id payload claims w'
          ≡ run_decision db env' ticket_id claims item plan w')

  custom_guard-Runs :
      (item : Ticket) (plan : Value)
      → (resolve_ticket_for_action db claims ticket_id w).0 ≡ ok item
      → custom_guard env'.assess ticket_id payload claims item ≡ ok plan
      → Runs plan
  unfolding custom_ticket_plan
  custom_guard-Runs item plan found passed =
      (item, found, rw (same_ticket, found, passed, resumed-resolve db claims ticket_id w') refl)

  -- Take a request that writes its steps, sent to preview_ticket_custom_plan and then, at any later
  -- time, to custom_ticket_plan, where it finds the same ticket. A plan that the preview shows as one
  -- that the user can execute is the plan that custom_ticket_plan goes on with, as run_decision does,
  -- to store it, to resume the workflow with it and to record the decision, whatever the agent would
  -- answer to either request.
  pub preview-custom :
      (p : Preview)
      → (preview_ticket_custom_plan db env ticket_id payload claims w).0 ≡ ok p
      → p.can_execute ≡ true
      → Runs p.plan
  unfolding preview_ticket_custom_plan
  preview-custom p h can = elim (Result-cases (resolve_ticket_for_action db claims ticket_id w).0) [
    | inr (x, failed) ↦ absurd (err-not-ok (rw failed at h))
    | inl (item, found) ↦ custom_guard-Runs item p.plan found (
        same_guard env.assess env'.assess ticket_id payload claims item steps
        ∙ preview-guard env.assess ticket_id payload claims item p (rw found at h) can)
  ]

  -- Take a request that writes its steps, sent to preview_ticket_custom_plan and then, at any later
  -- time, to custom_ticket_plan, where it finds the same ticket. If custom_ticket_plan succeeds, then
  -- the preview has shown a plan that the user can execute, and this is the plan that
  -- custom_ticket_plan goes on with, as run_decision does, to store it, to resume the workflow with it
  -- and to record the decision, whatever the agent would answer to either request.
  pub custom-preview :
      (t : Ticket)
      → (custom_ticket_plan db env' ticket_id payload claims w').0 ≡ ok t
      → (p : Preview) × ((preview_ticket_custom_plan db env ticket_id payload claims w).0 ≡ ok p)
        × (p.can_execute ≡ true)
        × Runs p.plan
  unfolding preview_ticket_custom_plan custom_ticket_plan
  custom-preview t h = elim (Result-cases (resolve_ticket_for_action db claims ticket_id w).0) [
    | inr (x, failed) ↦ absurd (err-not-ok (rw (same_ticket, failed) at h))
    | inl (item, found) ↦
        elim (Result-cases (custom_guard env'.assess ticket_id payload claims item)) [
          | inr (x, refused) ↦ absurd (err-not-ok (rw (same_ticket, found, refused) at h))
          | inl (plan, passed) ↦
              let (p, shows, same, can) =
                guard-preview env.assess ticket_id payload claims item plan (
                  sym (same_guard env.assess env'.assess ticket_id payload claims item steps)
                  ∙ passed) in
              (
                p,
                rw found shows,
                can,
                custom_guard-Runs item p.plan found (passed ∙ ap ok (sym same)),
              )
        ]
  ]
