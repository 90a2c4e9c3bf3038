-- ===== src/Remediation/Rollback.antt =====
-- build_rollback_plan of remediation/rollback.py. `none` is its RollbackUnavailable, or the
-- exception of a value of another form.
use Prim.Native.String
use xoc_api_aws.Base.{
  ℕ, ◌+◌, String, Bool, true, false, ◌&&◌, ◌||◌, not, Option, none, some, List, [], ◌∷◌, ◌==◌,
  if◌then◌else◌, any,
}
use xoc_api_aws.Base.Text.{strip}
use xoc_api_aws.Base.Value.{
  Value, bool, num, text, list, dict, Fields, end, field, get, or_else, str, truthy, to_list,
  of_list,
}
use xoc_api_aws.Base.Outcome.{Result, ok, err}
use xoc_api_aws.Risk.Levels.{RiskLevel, basic}
use xoc_api_aws.Risk.Plan.{Requirement, resolve_step_risk_level, approval_requirement}

-- A step counts as one that changes something unless it is rated basic.
abbrev pub is_basic : RiskLevel → Bool
is_basic basic = true
is_basic _ = false

unfoldable pub is_mutating : Fields → Bool
is_mutating step = not (is_basic (resolve_step_risk_level step))

-- by_id, the newest first
abbrev pub Steps : Type 0
Steps = List (String × Fields)

unfoldable pub step_of : String → Steps → Option Fields
step_of k [] = none
step_of k ((j, step) ∷ steps) = if j == k then some step else step_of k steps

unfoldable pub is_known : String → Steps → Bool
is_known k [] = false
is_known k ((j, step) ∷ steps) = j == k || is_known k steps

abbrev pub one_key : List String → String → Bool
one_key keys k = any (λ j. j == k) keys

abbrev pub fields_of : Value → Option Fields
fields_of (dict fs) = some fs
fields_of _ = none

abbrev pub chain {ℓ κ} : {A : Type ℓ} {B : Type κ} → Option A → (A → Option B) → Option B
chain none f = none
chain (some a) f = f a

abbrev pub check : Bool → Option (Unit {0})
check true = some tt
check false = none

-- `v is True`
abbrev is_true : Value → Bool
is_true (bool b) = b
is_true _ = false

abbrev is_text : String → Value → Bool
is_text s (text t) = t == s
is_text s _ = false

-- `result.get("status") == "ok" and result.get("success") is True`
unfoldable pub succeeded : Fields → Bool
succeeded result = is_text "ok" (get "status" result) && is_true (get "success" result)

-- What a step declares to undo it.
pub record Declared : Type 0 where
  pub command : String
  pub verification : String
  pub risk_level : Value

abbrev command_text : Value → Option String
command_text (text s) = if strip s == "" then none else some s
command_text _ = none

unfoldable pub declared : Fields → Option Declared
unfolding strip
declared step = chain (fields_of (get "rollback" step)) λ compensation.
    chain (check (is_true (get "supported" compensation))) λ _.
      chain (command_text (get "command" compensation)) λ command.
        chain (command_text (get "verification_command" compensation)) λ verification.
          some (record {
            command = command;
            verification = verification;
            risk_level = or_else (get "risk_level" compensation) (text "risky");
          })

-- A step of the plan that undoes.
pub record UndoStep : Type 0 where
  pub step_id : String
  pub order : ℕ
  pub command : String
  pub risk_level : Value
  pub description : String

-- The steps that have run: the identifiers in the results, and the steps that succeeded, the last
-- one first.
pub record Run : Type 0 where
  pub seen : List String
  pub completed : List Fields

pub record Rollback : Type 0 where
  pub original_plan_sha256 : String
  pub steps : List UndoStep
  pub requirement : Requirement

-- A step as a value.
unfoldable pub step_value : UndoStep → Value
step_value u = dict (
    field "step_id" (text u.step_id) (
      field "order" (num u.order) (
        field "action" (text "shell") (
          field "command" (text u.command)
            (field "risk_level" u.risk_level (field "description" (text u.description) end))))))

abbrev step_values : List UndoStep → List Value
step_values [] = []
step_values (u ∷ us) = step_value u ∷ step_values us

abbrev pub items_of : Value → Option (List Value)
items_of (list vs) = some (to_list vs)
items_of _ = none

abbrev pub is_empty {ℓ} : {A : Type ℓ} → List A → Bool
is_empty [] = true
is_empty (x ∷ xs) = false

-- What a result of this step adds to the run.
unfoldable pub after_result : Run → String → Fields → Fields → Option Run
after_result run k step result =
    if succeeded result
    then some (record { seen = k ∷ run.seen; completed = step ∷ run.completed })
    else if is_mutating step
    then none
    else some (record run { seen = k ∷ run.seen })

-- `any(sid not in seen and resolve_step_risk_level(step) != "basic" ...)`
unfoldable pub is_missing : List String → Steps → Bool
is_missing seen [] = false
is_missing seen ((k, step) ∷ steps) =
    not (one_key seen k) && is_mutating step || is_missing seen steps

abbrev pub required : Result Requirement → Option Requirement
required (ok requirement) = some requirement
required (err x) = none

abbrev pub no_run : Run
no_run = record { seen = []; completed = [] }

-- `repr` is that of a list or a dictionary, `key_of` the key of a value in a dictionary, which equal
-- values share and a list has none, and `fingerprint` the SHA-256 of the JSON text of a plan.
module _ (repr : Value → String) (key_of : Value → Option String)
    (fingerprint : Value → String) where
  abbrev text_of : Value → String
  text_of v = elim (str v) [ some s ↦ s | none ↦ repr v ]

  -- The loop that fills by_id.
  unfoldable pub index_steps : List Value → Steps → Option Steps
  index_steps [] by_id = some by_id
  index_steps (v ∷ vs) by_id = chain (fields_of v) λ step.
      chain (check (truthy (get "step_id" step))) λ _.
        chain (key_of (get "step_id" step))
          λ k. chain (check (not (is_known k by_id))) λ _. index_steps vs ((k, step) ∷ by_id)

  -- The loop over the results.
  unfoldable pub scan_results : Steps → List Value → Run → Option Run
  scan_results by_id [] run = some run
  scan_results by_id (v ∷ vs) run = chain (fields_of v) λ result.
      chain (key_of (get "step_id" result)) λ k. chain (step_of k by_id) λ step.
        chain (check (not (one_key run.seen k)))
          λ _. chain (after_result run k step result) λ run'. scan_results by_id vs run'

  -- One entry of the inner loop over ("undo", command) and ("verify", verification).
  unfoldable pub undo_step : Fields → Declared → String → String → ℕ → UndoStep
  undo_step step d suffix command n = record {
    step_id =
        String.◌++◌ "rollback-"
          (String.◌++◌ (text_of (get "step_id" step)) (String.◌++◌ "-" suffix));
    order = n;
    command = command;
    risk_level = d.risk_level;
    description = String.◌++◌ "Rollback " (
        String.◌++◌ suffix
          (String.◌++◌ ": " (text_of (or_else (get "description" step) (get "step_id" step)))));
  }

  -- The loop over the completed steps, where `n` steps undo already.
  unfoldable pub undo_from : ℕ → List Fields → Option (List UndoStep)
  undo_from n [] = some []
  undo_from n (step ∷ steps) = elim (is_mutating step) [
    | false ↦ undo_from n steps
    | true ↦ chain (declared step) λ d. chain (undo_from (2 + n) steps) λ rest. some (
        undo_step step d "undo" d.command (1 + n)
        ∷ undo_step step d "verify" d.verification (2 + n)
        ∷ rest)
  ]

  -- The plan as a value.
  unfoldable pub rollback_value : Value → List UndoStep → Value
  rollback_value plan undo = dict (
      field "source" (text "rollback") (
        field "original_plan_sha256" (text (fingerprint plan)) (
          field "steps" (list (of_list (step_values undo)))
            (field "requires_new_approval" (bool true) end))))

  -- The plan of the steps that have run.
  unfoldable pub rollback_of : Value → Steps → Run → Option Rollback
  rollback_of plan by_id run = chain (check (not (is_missing run.seen by_id))) λ _.
      chain (undo_from 0 run.completed) λ undo. chain (check (not (is_empty undo))) λ _.
        chain (required (approval_requirement (rollback_value plan undo))) λ requirement.
          some (record {
            original_plan_sha256 = fingerprint plan;
            steps = undo;
            requirement = requirement;
          })

  -- After the checks of the form.
  unfoldable pub rollback_from : Value → List Value → List Value → Option Rollback
  rollback_from plan steps results =
      chain (index_steps steps [])
        λ by_id. chain (scan_results by_id results no_run) λ run. rollback_of plan by_id run

  -- build_rollback_plan
  unfoldable pub build_rollback_plan : Value → Value → Option Rollback
  unfolding to_list get
  build_rollback_plan plan step_results = chain (fields_of plan) λ fields.
      chain (items_of (get "steps" fields)) λ steps.
        chain (check (not (is_empty steps)))
          λ _. chain (items_of step_results) λ results. rollback_from plan steps results
