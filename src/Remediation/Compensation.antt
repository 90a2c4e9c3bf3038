-- ===== src/Remediation/Compensation.antt =====
-- The plan of remediation/rollback.py undoes every step that is not rated basic.
use xoc_api_aws.Base.{
  ℕ, ◌+◌, String, ◌≡◌, refl, subst, false, not, Option, some, List, [], ◌∷◌, All, All-In, In, here,
  there, Bool-cases, inl, inr, ◌⊎◌,
}
use xoc_api_aws.Base.Value.{Value, list, dict, Items, get, Fields, truthy, to_list}
use xoc_api_aws.Risk.Plan.{approval_requirement}
use xoc_api_aws.Remediation.Rollback.{
  Steps, Run, Rollback, UndoStep, Declared, is_mutating, step_of, is_known, one_key, fields_of,
  check, succeeded, declared, index_steps, after_result, scan_results, is_missing, undo_step,
  undo_from, rollback_of, rollback_from, build_rollback_plan, items_of, is_empty, required, no_run,
  rollback_value,
}
use xoc_api_aws.Remediation.Lookup.{
  chain-some, check-true, some-injective, some_same, not-true, All-map, none-some, two_more,
  IsUnique, step_of_unique, key-All, present,
}

-- The plan has the command that undoes, and right after it the one that verifies.
pub data Undoes (d : Declared) : List UndoStep → Type 0 where
  now :
      (u v : UndoStep) (us : List UndoStep)
      → u.command ≡ d.command
      → v.command ≡ d.verification
      → Undoes d (u ∷ v ∷ us)
  later : (u v : UndoStep) (us : List UndoStep) → Undoes d us → Undoes d (u ∷ v ∷ us)

abbrev pub IsUndone : List UndoStep → Fields → Type 0
IsUndone us step =
    (is_mutating step ≡ false) ⊎ ((d : Declared) × (declared step ≡ some d) × Undoes d us)

-- The steps are numbered from here on.
abbrev pub IsNumbered : ℕ → List UndoStep → Type 0
IsNumbered n [] = Unit
IsNumbered n (u ∷ us) = (u.order ≡ 1 + n) × IsNumbered (1 + n) us

IsUndone-more :
    (u v : UndoStep) (us : List UndoStep) (step : Fields)
    → IsUndone us step
    → IsUndone (u ∷ v ∷ us) step
IsUndone-more u v us step (inl basic_step) = inl basic_step
IsUndone-more u v us step (inr (d, declares, undoes)) = inr (d, declares, later u v us undoes)

-- An entry of the plan is a step, which is rated basic or is undone.
abbrev pub IsEntryUndone : List UndoStep → Value → Type 0
IsEntryUndone us v = (step : Fields) × (fields_of v ≡ some step) × IsUndone us step

module _ (repr : Value → String) (key_of : Value → Option String)
    (fingerprint : Value → String) where
  undo_from-IsUndone :
      (n : ℕ) (steps : List Fields) {us : List UndoStep}
      → undo_from repr key_of fingerprint n steps ≡ some us
      → All (IsUndone us) steps × IsNumbered n us
  unfolding undo_from undo_step
  undo_from-IsUndone n [] {us} h =
      subst (λ (vs : List UndoStep). All (IsUndone vs) [] × IsNumbered n vs) (some-injective h)
        (tt, tt)
  undo_from-IsUndone n (step ∷ steps) {us} h = elim (Bool-cases (is_mutating step)) [
    | inr basic_step ↦
        let (rest, numbers) = undo_from-IsUndone n steps (rw (undo_from, basic_step) at h) in
        ((inl basic_step, rest), numbers)
    | inl mutating ↦
        let (d, declares, h1) = chain-some (declared step) _ (rw (undo_from, mutating) at h) in
        let (more, undone, h2) =
          chain-some (undo_from repr key_of fingerprint (2 + n) steps) _ h1 in
        let (rest, numbers) = undo_from-IsUndone (2 + n) steps undone in
        let u = undo_step repr key_of fingerprint step d "undo" d.command (1 + n) in
        let v = undo_step repr key_of fingerprint step d "verify" d.verification (2 + n) in
        subst (λ (vs : List UndoStep). All (IsUndone vs) (step ∷ steps) × IsNumbered n vs)
          (some-injective h2)
          (
            (
              inr (d, declares, now u v more refl refl),
              All-map (IsUndone more) (IsUndone (u ∷ v ∷ more)) steps (IsUndone-more u v more) rest,
            ),
            (refl, (two_more n, subst (λ (m : ℕ). IsNumbered m more) (two_more n) numbers)),
          )
  ]

  -- What by_id holds: the steps of the plan, each under a key of its own.
  abbrev IsIndexed : Steps → Value → Type 0
  IsIndexed by_id v =
      (k : String) × (step : Fields) × (fields_of v ≡ some step) × In (k, step) by_id

  index-In :
      (vs : List Value) (acc by_id : Steps) (e : String × Fields)
      → index_steps repr key_of fingerprint vs acc ≡ some by_id
      → In e acc
      → In e by_id
  unfolding index_steps
  index-In [] acc by_id e h i = subst (In e) (some-injective h) i
  index-In (v ∷ vs) acc by_id e h i =
      let (step, form, h1) = chain-some (fields_of v) _ h in
      let (u, named, h2) = chain-some (check (truthy (get "step_id" step))) _ h1 in
      let (k, keyed, h3) = chain-some (key_of (get "step_id" step)) _ h2 in
      let (u', fresh, h4) = chain-some (check (not (is_known k acc))) _ h3 in
      index-In vs ((k, step) ∷ acc) by_id e h4 (there i)

  index-IsUnique :
      (vs : List Value) (acc by_id : Steps)
      → index_steps repr key_of fingerprint vs acc ≡ some by_id
      → IsUnique acc
      → IsUnique by_id × All (IsIndexed by_id) vs
  unfolding index_steps
  index-IsUnique [] acc by_id h unique = (subst IsUnique (some-injective h) unique, tt)
  index-IsUnique (v ∷ vs) acc by_id h unique =
      let (step, form, h1) = chain-some (fields_of v) _ h in
      let (u, named, h2) = chain-some (check (truthy (get "step_id" step))) _ h1 in
      let (k, keyed, h3) = chain-some (key_of (get "step_id" step)) _ h2 in
      let (u', fresh, h4) = chain-some (check (not (is_known k acc))) _ h3 in
      let (all_unique, indexed) =
        index-IsUnique vs ((k, step) ∷ acc) by_id h4
          (not-true (is_known k acc) (check-true (not (is_known k acc)) fresh), unique) in
      (
        all_unique,
        ((k, step, form, index-In vs ((k, step) ∷ acc) by_id (k, step) h4 here), indexed),
      )

  -- A step that has run: it succeeded, or it is rated basic.
  abbrev IsCovered : Steps → List Fields → String → Type 0
  IsCovered by_id completed k =
      (step : Fields) × (step_of k by_id ≡ some step)
      × ((is_mutating step ≡ false) ⊎ In step completed)

  IsCovered-more :
      (by_id : Steps) (completed : List Fields) (step : Fields) (k : String)
      → IsCovered by_id completed k
      → IsCovered by_id (step ∷ completed) k
  IsCovered-more by_id completed step k (s, found, inl basic_step) = (s, found, inl basic_step)
  IsCovered-more by_id completed step k (s, found, inr ran) = (s, found, inr (there ran))

  after-IsCovered :
      (by_id : Steps) (run run' : Run) (k : String) (step result : Fields)
      → step_of k by_id ≡ some step
      → All (IsCovered by_id run.completed) run.seen
      → after_result run k step result ≡ some run'
      → All (IsCovered by_id run'.completed) run'.seen
  unfolding after_result
  after-IsCovered by_id run run' k step result found h k1 = elim (Bool-cases (succeeded result)) [
    | inl success ↦
        subst (λ (r : Run). All (IsCovered by_id r.completed) r.seen)
          (some-injective (rw success at k1))
          (
            (step, found, inr here),
            All-map (IsCovered by_id run.completed) (IsCovered by_id (step ∷ run.completed))
                run.seen (IsCovered-more by_id run.completed step) h,
          )
    | inr failure ↦ elim (Bool-cases (is_mutating step)) [
      | inl mutating ↦ absurd (none-some (rw (failure, mutating) at k1))
      | inr basic_step ↦
          subst (λ (r : Run). All (IsCovered by_id r.completed) r.seen)
            (some-injective (rw (failure, basic_step) at k1)) ((step, found, inl basic_step), h)
    ]
  ]

  scan-IsCovered :
      (by_id : Steps) (vs : List Value) (run run' : Run)
      → All (IsCovered by_id run.completed) run.seen
      → scan_results repr key_of fingerprint by_id vs run ≡ some run'
      → All (IsCovered by_id run'.completed) run'.seen
  unfolding scan_results
  scan-IsCovered by_id [] run run' h k =
      subst (λ (r : Run). All (IsCovered by_id r.completed) r.seen) (some-injective k) h
  scan-IsCovered by_id (v ∷ vs) run run' h k =
      let (result, form, k1) = chain-some (fields_of v) _ k in
      let (key, keyed, k2) = chain-some (key_of (get "step_id" result)) _ k1 in
      let (step, found, k3) = chain-some (step_of key by_id) _ k2 in
      let (u, fresh, k4) = chain-some (check (not (one_key run.seen key))) _ k3 in
      let (run1, after, k5) = chain-some (after_result run key step result) _ k4 in
      scan-IsCovered by_id vs run1 run'
        (after-IsCovered by_id run run1 key step result found h after) k5

  -- A step of the plan that has its key is undone.
  entry-IsUndone :
      (by_id : Steps) (run : Run) (us : List UndoStep) {k : String} {step : Fields}
      → IsUnique by_id
      → All (IsCovered by_id run.completed) run.seen
      → is_missing run.seen by_id ≡ false
      → All (IsUndone us) run.completed
      → In (k, step) by_id
      → IsUndone us step
  entry-IsUndone by_id run us {k} {step} unique covered complete undone i =
      elim (present run.seen complete i) [
        | inr basic_step ↦ inl basic_step
        | inl ran ↦
            let (s, found, how) = key-All (IsCovered by_id run.completed) run.seen k covered ran in
            let same = some_same found (step_of_unique unique i) in
            subst (IsUndone us) same (elim how [
              | inl basic_step ↦ inl basic_step
              | inr done ↦ All-In (IsUndone us) undone done
            ])
      ]

  rollback_from-IsUndone :
      (plan : Value) (steps results : List Value) (r : Rollback)
      → rollback_from repr key_of fingerprint plan steps results ≡ some r
      → All (IsEntryUndone r.steps) steps × IsNumbered 0 r.steps
  unfolding rollback_from rollback_of
  rollback_from-IsUndone plan steps results r h =
      let (by_id, indexed, h1) = chain-some (index_steps repr key_of fingerprint steps []) _ h in
      let (run, scanned, h2) =
        chain-some (scan_results repr key_of fingerprint by_id results no_run) _ h1 in
      let (u, complete, h3) = chain-some (check (not (is_missing run.seen by_id))) _ h2 in
      let (us, undone, h4) = chain-some (undo_from repr key_of fingerprint 0 run.completed) _ h3 in
      let (u', full, h5) = chain-some (check (not (is_empty us))) _ h4 in
      let (requirement, needs, h6) =
        chain-some
          (required (approval_requirement (rollback_value repr key_of fingerprint plan us))) _ h5 in
      let (unique, entries) = index-IsUnique steps [] by_id indexed tt in
      let (all_undone, numbers) = undo_from-IsUndone 0 run.completed undone in
      let covered = scan-IsCovered by_id results no_run run tt scanned in
      subst (λ (o : Rollback). All (IsEntryUndone o.steps) steps × IsNumbered 0 o.steps)
        (some-injective h6)
        (
          All-map (IsIndexed by_id) (IsEntryUndone us) steps
              (λ v e. (
                e.1,
                e.2,
                entry-IsUndone by_id run us unique covered
                    (not-true (is_missing run.seen by_id)
                      (check-true (not (is_missing run.seen by_id)) complete))
                    all_undone e.3,
              ))
              entries,
          numbers,
        )

  -- If build_rollback_plan gives a plan, then every step of the original one is rated basic by
  -- resolve_step_risk_level or has declared how to undo it, and the plan runs its compensation and
  -- right after it the verification. The steps of the plan are numbered from one.
  pub build_rollback_plan-IsUndone :
      (fields : Fields) (items : Items) (step_results : Value) (r : Rollback)
      → get "steps" fields ≡ list items
      → build_rollback_plan repr key_of fingerprint (dict fields) step_results ≡ some r
      → All (IsEntryUndone r.steps) (to_list items) × IsNumbered 0 r.steps
  unfolding build_rollback_plan
  build_rollback_plan-IsUndone fields items step_results r listed h =
      let (u, full, h1) = chain-some (check (not (is_empty (to_list items)))) _ (rw listed at h) in
      let (results, form, h2) = chain-some (items_of step_results) _ h1 in
      rollback_from-IsUndone (dict fields) (to_list items) results r h2
