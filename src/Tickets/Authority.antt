-- ===== src/Tickets/Authority.antt =====
-- Who can make the workflow go on, and with which plan (handlers/domains/tickets_dynamo.py).
use xoc_api_aws.Base.{
  String, ◌≡◌, refl, ◌∙◌, ap, true, false, Option, none, some, [], ◌∷◌, arith, ◌==◌, eq_iff,
}
use xoc_api_aws.Base.Value.{
  Value, text, dict, Fields, find, get, get_or, put, find-put, truthy, dict_or_empty,
}
use xoc_api_aws.Base.Outcome.{
  Result, ok, and_then-ok, require, require-ok, or_error-ok, ok-injective,
}
use xoc_api_aws.Risk.Levels.{is_role_sufficient, required_role, level_name}
use xoc_api_aws.Risk.Plan.{Requirement, approval_requirement, resolve_step_risk_level}
use xoc_api_aws.Risk.Governance.{
  IsStep, in_list, in_plan, in_nested, in_nested_list, approval_covers_steps,
}
use xoc_api_aws.Tickets.Item.{Ticket}
use xoc_api_aws.Tickets.Choice.{resolve_executable_plan, evaluate_solution, solution_fields}
use xoc_api_aws.Tickets.Claims.{claim_role, assert_can_approve, role_reaches}
use xoc_api_aws.Tickets.Workflow.{is_preapproved, status_in}
use xoc_api_aws.Tickets.Guards.{
  approval_guard, rejection_guard, selection_guard, custom_guard, pending_fields, custom_steps,
  chosen_plan, govern, with_risk, require_role,
}

-- The role that a pending decision asks for, "USER" where it names none.
abbrev pub asked_role : Ticket → Value
asked_role item =
    get_or "required_approver_role" (text "USER") (dict_or_empty item.pending_decision)

-- The asker's role reaches the role that the pending decision asks for.
pub record MayDecide (claims : Fields) (item : Ticket) : Type 0 where
  pub user_role : String
  pub required : String
  pub is_claimed : claim_role claims ≡ ok user_role
  pub is_asked : asked_role item ≡ text required
  pub reaches : is_role_sufficient user_role required ≡ true

dict-injective : {a b : Fields} → dict a ≡ dict b → a ≡ b
dict-injective h = cc

role_reaches-ok :
    (user_role : String) (v : Value) {u : Unit {0}}
    → role_reaches user_role v ≡ ok u
    → (required : String) × (v ≡ text required) × (is_role_sufficient user_role required ≡ true)
unfolding role_reaches
role_reaches-ok user_role (text required) h = (required, refl, require-ok _ _ h)
role_reaches-ok user_role _ h = cc

assert_can_approve-ok :
    (claims : Fields) (item : Ticket) {u : Unit {0}}
    → assert_can_approve claims item ≡ ok u
    → MayDecide claims item
unfolding assert_can_approve
assert_can_approve-ok claims item h =
    let (role, claimed, rest) = and_then-ok (claim_role claims) _ h in
    let (required, asked, reaches) = role_reaches-ok role _ rest in
    record {
      user_role = role;
      required = required;
      is_claimed = claimed;
      is_asked = asked;
      reaches = reaches;
    }

only_preapproved :
    (o : Option String) → status_in ("PREAPROBADO" ∷ []) o ≡ true → o ≡ some "PREAPROBADO"
only_preapproved none h = cc
only_preapproved (some s) h = ground (arith, eq_iff "PREAPROBADO" s)

-- approval_guard passes only for a PREAPROBADO ticket, only for an asker whose
-- role reaches the role that the pending decision asks for, and only with the plan that
-- resolve_executable_plan finds.
pub approval_guard-ok :
    (claims : Fields) (item : Ticket) (plan : Value)
    → approval_guard claims item ≡ ok plan
    → (item.status ≡ some "PREAPROBADO")
      × MayDecide claims item
      × (resolve_executable_plan item ≡ some plan)
unfolding approval_guard
approval_guard-ok claims item plan h =
    let (_, preapproved, rest) = and_then-ok (require (is_preapproved item) _) _ h in
    let (_, may, found) = and_then-ok (assert_can_approve claims item) _ rest in
    (
      only_preapproved item.status (require-ok _ _ preapproved),
      assert_can_approve-ok claims item may,
      or_error-ok _ _ found,
    )

-- rejection_guard passes only for a PREAPROBADO ticket and an asker whose role reaches
-- the role that the pending decision asks for.
pub rejection_guard-ok :
    (claims : Fields) (item : Ticket)
    → rejection_guard claims item ≡ ok tt
    → (item.status ≡ some "PREAPROBADO") × MayDecide claims item
unfolding rejection_guard
rejection_guard-ok claims item h =
    let (_, preapproved, may) = and_then-ok (require (is_preapproved item) _) _ h in
    (
      only_preapproved item.status (require-ok _ _ preapproved),
      assert_can_approve-ok claims item may,
    )

-- The asker's role reaches the role that each step of the plan asks for on its own.
pub record CoversSteps (claims : Fields) (plan : Value) : Type 0 where
  pub user_role : String
  pub is_claimed : claim_role claims ≡ ok user_role
  pub covers :
      (step : Fields)
      → IsStep step plan
      → is_role_sufficient user_role (required_role (resolve_step_risk_level step)) ≡ true

find-risk_put :
    (key : String) (plan q : Fields) (v : Value)
    → ("risk_level" == key) ≡ false
    → q ≡ put "risk_level" v plan
    → find key plan ≡ find key q
find-risk_put key plan q v other e = rw (e, find-put "risk_level" key v plan, other) refl

get-risk_put :
    (plan q : Fields) (v : Value) → q ≡ put "risk_level" v plan → get "plan" plan ≡ get "plan" q
unfolding get get_or
get-risk_put plan q v e = ground (arith, find-risk_put "plan" plan q v refl e)

-- The level that is noted on a plan changes none of its steps.
IsStep-noted :
    (step plan : Fields) (v p : Value)
    → p ≡ dict (put "risk_level" v plan)
    → IsStep step p
    → IsStep step (dict plan)
IsStep-noted step plan v p e (in_list entries i) = cc
IsStep-noted step plan v p e (in_plan q entries flat steps i) =
    in_plan plan entries (get-risk_put plan q v (dict-injective e) ∙ flat)
      (find-risk_put "steps" plan q v refl (dict-injective e) ∙ steps) i
IsStep-noted step plan v p e (in_nested q inner entries nested steps i) =
    in_nested plan inner entries (get-risk_put plan q v (dict-injective e) ∙ nested) steps i
IsStep-noted step plan v p e (in_nested_list q entries nested i) =
    in_nested_list plan entries (get-risk_put plan q v (dict-injective e) ∙ nested) i

-- What `govern` lets through asks of the asker no more than the asker has.
govern-ok :
    (user_role : String) (chosen plan : Value)
    → govern user_role chosen ≡ ok plan
    → (requirement : Requirement) × (approval_requirement chosen ≡ ok requirement)
      × (is_role_sufficient user_role requirement.required_approver_role ≡ true)
      × (with_risk chosen requirement ≡ plan)
unfolding govern require_role
govern-ok user_role chosen plan h =
    let (requirement, required, rest) = and_then-ok (approval_requirement chosen) _ h in
    let (_, may, done) = and_then-ok _ _ rest in
    (requirement, required, require-ok _ _ may, ok-injective done)

IsStep-with_risk :
    (step : Fields) (chosen : Value) (requirement : Requirement)
    → IsStep step (with_risk chosen requirement)
    → IsStep step chosen
unfolding with_risk
IsStep-with_risk step (dict plan) requirement s = IsStep-noted step plan _ _ refl s
IsStep-with_risk step _ requirement s = s

-- A selected plan is run only if the asker's role reaches the role of every step of it.
pub selection_guard-covers :
    (payload claims : Fields) (item : Ticket) (plan : Value)
    → selection_guard payload claims item ≡ ok plan
    → CoversSteps claims plan
unfolding selection_guard
selection_guard-covers payload claims item plan h =
    let (pending, _, h1) = and_then-ok (pending_fields item) _ h in
    let (role, claimed, h2) = and_then-ok (claim_role claims) _ h1 in
    let (chosen, _, h3) = and_then-ok (chosen_plan payload item pending) _ h2 in
    let (requirement, required, may, done) = govern-ok role chosen plan h3 in
    record {
      user_role = role;
      is_claimed = claimed;
      covers = λ step s.
          approval_covers_steps chosen step role requirement required may
            (IsStep-with_risk step chosen requirement (rw done s));
    }

IsStep-evaluated :
    (step : Fields) (steps analysis : Value) (requirement : Requirement)
    → IsStep step (
        dict (
          put "risk_level"
            (text (level_name requirement.max_risk_level))
            (solution_fields steps "custom" analysis)))
    → IsStep step (dict (solution_fields steps "custom" analysis))
IsStep-evaluated step steps analysis requirement s =
    IsStep-noted step (solution_fields steps "custom" analysis) _ _ refl s

-- A plan that the asker wrote is run only if the asker's role reaches the role of every step of it.
pub custom_guard-covers :
    (assess : Fields → Result Fields) (ticket_id : String) (payload claims : Fields) (item : Ticket)
    (plan : Value)
    → custom_guard assess ticket_id payload claims item ≡ ok plan
    → CoversSteps claims plan
unfolding custom_guard evaluate_solution require_role
custom_guard-covers assess ticket_id payload claims item plan h =
    let (_, _, h1) = and_then-ok (pending_fields item) _ h in
    let (role, claimed, h2) = and_then-ok (claim_role claims) _ h1 in
    let (solution, _, h3) = and_then-ok (custom_steps assess ticket_id payload item) _ h2 in
    let (_, _, h4) = and_then-ok (require (truthy solution.0) _) _ h3 in
    let (evaluated, worked_out, h5) =
      and_then-ok (evaluate_solution solution.0 "custom" solution.1) _ h4 in
    let (requirement, required, made) =
      and_then-ok (approval_requirement (dict (solution_fields solution.0 "custom" solution.1))) _
        worked_out in
    let (_, may, done) =
      and_then-ok (require (is_role_sufficient role evaluated.1.required_approver_role) _) _ h5 in
    record {
      user_role = role;
      is_claimed = claimed;
      covers = λ step s.
          approval_covers_steps (dict (solution_fields solution.0 "custom" solution.1)) step role
            requirement required
            (rw (ap (λ pair. pair.1.required_approver_role) (ok-injective made))
              (require-ok _ _ may))
            (IsStep-evaluated step solution.0 solution.1 requirement
              (rw (ap (λ pair. pair.0) (ok-injective made) ∙ ok-injective done) s));
    }
