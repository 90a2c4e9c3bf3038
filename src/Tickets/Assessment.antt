-- ===== src/Tickets/Assessment.antt =====
-- What shared/ticket_automation_sync.py does to tickets.
use xoc_api_aws.Base.{
  ℕ, String, ◌≡◌, refl, ap, ◌∙◌, sym, subst, ◌==◌, List, [], ◌∷◌, Bool-cases, Bool, true, false,
  ◌&&◌, Option, none, some, arith, Option-cases, inl, inr, eq_iff, ==→eq,
}
use xoc_api_aws.Base.Value.{Value, null}
use xoc_api_aws.Tickets.Item.{Ticket, tenant_pk, ticket_sk}
use xoc_api_aws.Tickets.Table.{Table, World, same_key, update_if, update_if-some}
use xoc_api_aws.Tickets.Indexed.Rules.{table-publish}
use xoc_api_aws.Tickets.Automation.{
  message_of, assessment_messages, assessment_guard, assessed, has_status, is_null,
  sync_unresolvable_assessment, record_automation_started, takes_arn, with_arn, takes_start,
  started, or_kept, Op, assess, start, step, run,
}

-- A ticket that nothing has happened to: it waits, and has no plan and no decision.
abbrev pub IsUntouched : Ticket → Type 0
IsUntouched t =
    (t.status ≡ some "PENDING")
    × (t.action_plan ≡ null)
    × (t.action_plans ≡ null)
    × (t.pending_decision ≡ null)
    × (t.automation_assessment ≡ null)

null_lem : (v : Value) → is_null v ≡ true → v ≡ null
null_lem null h = refl
null_lem v h = cc

status_lem : (o : Option String) (s : String) → has_status s o ≡ true → o ≡ some s
status_lem none s h = cc
status_lem (some t) s h = ap some (==→eq t s h)

refusal : false ≡ true → ⊥
refusal h = cc

same_self : (p k : String) → same_key p k p k ≡ true
same_self p k = rw ((eq_iff p p).1 refl, (eq_iff k k).1 refl) refl

seven :
    (a b c d e f g : Bool)
    → (a && b && c && d && e && f && g) ≡ true
    → (b ≡ true) × (c ≡ true) × (e ≡ true) × (f ≡ true) × (g ≡ true)
seven a b c d e f g h = ground arith

guard-IsUntouched :
    (tenant_id : ℕ) (t : Ticket) → assessment_guard tenant_id t ≡ true → IsUntouched t
unfolding assessment_guard
guard-IsUntouched tenant_id t h =
    let (waits, fresh, no_plan, no_plans, no_decision) = seven _ _ _ _ _ _ _ h in
    (
      status_lem t.status "PENDING" waits,
      null_lem t.action_plan no_plan,
      null_lem t.action_plans no_plans,
      null_lem t.pending_decision no_decision,
      null_lem t.automation_assessment fresh,
    )

-- An assessment is noted on the ticket.
abbrev IsAssessed : Ticket → Type 0
IsAssessed t = is_null t.automation_assessment ≡ false

assessed_refused :
    (tenant_id : ℕ) (t : Ticket) → IsAssessed t → assessment_guard tenant_id t ≡ false
unfolding assessment_guard
assessed_refused tenant_id t h = ground arith

assessed-IsAssessed :
    (tenant_id : ℕ) (code message now : String) (t : Ticket)
    → IsAssessed (assessed tenant_id code message now t)
unfolding assessed
assessed-IsAssessed tenant_id code message now t = refl

with_arn-IsAssessed : (arn : String) (t : Ticket) → IsAssessed t → IsAssessed (with_arn arn t)
unfolding with_arn
with_arn-IsAssessed arn t h = h

started-IsAssessed : (now : String) (t : Ticket) → IsAssessed t → IsAssessed (started now t)
unfolding started
started-IsAssessed now t h = h

some-injective : {a b : Ticket} → some a ≡ some b → a ≡ b
some-injective h = cc

same_parts : (p k p' k' : String) → same_key p k p' k' ≡ true → (p ≡ p') × (k ≡ k')
same_parts p k p' k' h = elim (Bool-cases (p == p')) [
  | inl same ↦ (==→eq p p' same, ==→eq k k' (rw same at h))
  | inr other ↦ absurd (refusal (rw other at h))
]

module _ {S : Type 0} (db : Table S) where
  refused_write :
      (tenant_id : ℕ) (ticket_id : String) (condition : Ticket → Bool) (change : Ticket → Ticket)
      (s : S) (t : Ticket)
      → db.get_item s (tenant_pk tenant_id) (ticket_sk ticket_id) ≡ some t
      → condition t ≡ false
      → update_if db tenant_id ticket_id condition change s ≡ none
  unfolding update_if
  refused_write tenant_id ticket_id condition change s t found unmet = rw (found, unmet) refl

  refused_sync :
      (tenant_id : ℕ) (ticket_id code now : String) (w : World S) (t : Ticket)
      → db.get_item w.table (tenant_pk tenant_id) (ticket_sk ticket_id) ≡ some t
      → assessment_guard tenant_id t ≡ false
      → (sync_unresolvable_assessment db tenant_id ticket_id code now w).0 ≡ false
  unfolding sync_unresolvable_assessment
  refused_sync tenant_id ticket_id code now w t found unmet =
      elim (Option-cases (message_of code assessment_messages)) [
        | inl unknown ↦ rw unknown refl
        | inr (m, known) ↦
            rw
              (
                known,
                refused_write tenant_id ticket_id (assessment_guard tenant_id)
                    (assessed tenant_id code m now) w.table t found unmet,
              )
              refl
      ]

  after_sync :
      (tenant_id : ℕ) (ticket_id code now : String) (w : World S)
      → (sync_unresolvable_assessment db tenant_id ticket_id code now w).0 ≡ true
      → (m : String) × (s : S) × (update_if db tenant_id ticket_id
            (assessment_guard tenant_id)
            (assessed tenant_id code m now)
            w.table
          ≡ some s)
        × ((sync_unresolvable_assessment db tenant_id ticket_id code now w).1.table ≡ s)
  unfolding sync_unresolvable_assessment
  after_sync tenant_id ticket_id code now w h =
      elim (Option-cases (message_of code assessment_messages)) [
        | inl unknown ↦ absurd (refusal (rw unknown at h))
        | inr (m, known) ↦
            elim (Option-cases (
              update_if db tenant_id ticket_id (assessment_guard tenant_id)
                (assessed tenant_id code m now) w.table)) [
                  | inl failed ↦ absurd (refusal (rw (known, failed) at h))
                  | inr (s, went) ↦ (
                    m,
                    s,
                    went,
                    rw (known, went)
                        (table-publish db tenant_id ticket_id "DERIVADO" (record w { table = s })),
                  )
                ]
      ]

  refused_same :
      (tenant_id : ℕ) (ticket_id code now : String) (w : World S)
      → (sync_unresolvable_assessment db tenant_id ticket_id code now w).0 ≡ false
      → (sync_unresolvable_assessment db tenant_id ticket_id code now w).1 ≡ w
  unfolding sync_unresolvable_assessment
  refused_same tenant_id ticket_id code now w h =
      elim (Option-cases (message_of code assessment_messages)) [
        | inl unknown ↦ rw unknown refl
        | inr (m, known) ↦
            elim (Option-cases (
              update_if db tenant_id ticket_id (assessment_guard tenant_id)
                (assessed tenant_id code m now) w.table)) [
                  | inl failed ↦ rw (known, failed) refl
                  | inr (s, went) ↦ absurd (refusal (sym (rw (known, went) at h)))
                ]
      ]

  -- The item of a key has an assessment.
  abbrev Stays : String → String → S → Type 0
  Stays p k s = (t : Ticket) × (db.get_item s p k ≡ some t) × IsAssessed t

  write-Stays :
      (tenant_id : ℕ) (ticket_id : String) (condition : Ticket → Bool) (change : Ticket → Ticket)
      (p k : String) (s s' : S)
      → ((t : Ticket) → IsAssessed t → IsAssessed (change t))
      → update_if db tenant_id ticket_id condition change s ≡ some s'
      → Stays p k s
      → Stays p k s'
  write-Stays tenant_id ticket_id condition change p k s s' keeps went (t, there, h) =
      let (t0, found, _, is_write) =
        update_if-some db tenant_id ticket_id condition change s s' went in
      let after = db.get-update s t0 (tenant_pk tenant_id) (ticket_sk ticket_id) change p k found in
      elim (Bool-cases (same_key (tenant_pk tenant_id) (ticket_sk ticket_id) p k)) [
        | inl same ↦
            let (at_p, at_k) = same_parts (tenant_pk tenant_id) (ticket_sk ticket_id) p k same in
            (
              change t0,
              rw (← is_write, after, same) refl,
              keeps t0 (subst IsAssessed (some-injective (sym there ∙ rw (at_p, at_k) at found)) h),
            )
        | inr other ↦ (t, rw (← is_write, after, other) there, h)
      ]

  write_or_kept-Stays :
      (tenant_id : ℕ) (ticket_id : String) (condition : Ticket → Bool) (change : Ticket → Ticket)
      (p k : String) (s : S)
      → ((t : Ticket) → IsAssessed t → IsAssessed (change t))
      → Stays p k s
      → Stays p k (or_kept db s (update_if db tenant_id ticket_id condition change s))
  write_or_kept-Stays tenant_id ticket_id condition change p k s keeps h =
      elim (Option-cases (update_if db tenant_id ticket_id condition change s)) [
        | inl failed ↦ rw failed h
        | inr (s', went) ↦
            rw went (write-Stays tenant_id ticket_id condition change p k s s' keeps went h)
      ]

  started-Stays :
      (tenant_id : ℕ) (ticket_id arn now p k : String) (s : S)
      → Stays p k s
      → Stays p k (record_automation_started db tenant_id ticket_id arn now s)
  unfolding record_automation_started
  started-Stays tenant_id ticket_id arn now p k s h =
      elim (Option-cases
        (update_if db tenant_id ticket_id (takes_arn tenant_id arn) (with_arn arn) s)) [
          | inl failed ↦ rw failed h
          | inr (s', went) ↦ rw went (
              write_or_kept-Stays tenant_id ticket_id (takes_start tenant_id arn) (started now) p k
                s' (started-IsAssessed now)
                (write-Stays tenant_id ticket_id (takes_arn tenant_id arn) (with_arn arn) p k s s'
                  (with_arn-IsAssessed arn) went h))
        ]

  sync-Stays :
      (tenant_id : ℕ) (ticket_id code now p k : String) (w : World S)
      → Stays p k w.table
      → Stays p k (sync_unresolvable_assessment db tenant_id ticket_id code now w).1.table
  sync-Stays tenant_id ticket_id code now p k w h =
      elim (Bool-cases (sync_unresolvable_assessment db tenant_id ticket_id code now w).0) [
        | inl took ↦
            let (m, s, went, is_table) = after_sync tenant_id ticket_id code now w took in
            rw is_table (
              write-Stays tenant_id ticket_id (assessment_guard tenant_id)
                (assessed tenant_id code m now) p k w.table s
                (λ t _. assessed-IsAssessed tenant_id code m now t) went h)
        | inr refused ↦ rw (refused_same tenant_id ticket_id code now w refused) h
      ]

  step-Stays :
      (op : Op) (p k : String) (w : World S) → Stays p k w.table → Stays p k (step db w op).table
  unfolding step
  step-Stays (assess tenant_id ticket_id code now) p k w h =
      sync-Stays tenant_id ticket_id code now p k w h
  step-Stays (start tenant_id ticket_id arn now) p k w h =
      started-Stays tenant_id ticket_id arn now p k w.table h

  run-Stays :
      (ops : List Op) (p k : String) (w : World S)
      → Stays p k w.table
      → Stays p k (run db w ops).table
  unfolding run
  run-Stays [] p k w h = h
  run-Stays (op ∷ ops) p k w h = run-Stays ops p k (step db w op) (step-Stays op p k w h)

  -- When sync_unresolvable_assessment answers true, the ticket was PENDING, without a plan, a decision
  -- or an assessment, and no later call for it answers true, whatever its code and whatever calls of
  -- sync_unresolvable_assessment and record_automation_started, for any tickets, come between.
  pub sync_once :
      (tenant_id : ℕ) (ticket_id code code' now now' : String) (ops : List Op) (w : World S)
      → (sync_unresolvable_assessment db tenant_id ticket_id code now w).0 ≡ true
      → ((t : Ticket) × (db.get_item w.table (tenant_pk tenant_id) (ticket_sk ticket_id) ≡ some t)
          × IsUntouched t)
        × ((sync_unresolvable_assessment db tenant_id ticket_id code' now'
              (run db (sync_unresolvable_assessment db tenant_id ticket_id code now w).1 ops)).0
            ≡ false)
  sync_once tenant_id ticket_id code code' now now' ops w h =
      let (m, s, went, is_table) = after_sync tenant_id ticket_id code now w h in
      let (t, found, met, is_write) =
        update_if-some db tenant_id ticket_id (assessment_guard tenant_id)
          (assessed tenant_id code m now) w.table s went in
      let (t', stays, is_assessed) =
        run-Stays ops (tenant_pk tenant_id) (ticket_sk ticket_id)
          (sync_unresolvable_assessment db tenant_id ticket_id code now w).1
          (
            assessed tenant_id code m now t,
            rw
                (
                  is_table,
                  ← is_write,
                  db.get-update w.table t (tenant_pk tenant_id) (ticket_sk ticket_id)
                      (assessed tenant_id code m now) (tenant_pk tenant_id) (ticket_sk ticket_id)
                      found,
                  same_self (tenant_pk tenant_id) (ticket_sk ticket_id),
                )
                refl,
            assessed-IsAssessed tenant_id code m now t,
          ) in
      (
        (t, found, guard-IsUntouched tenant_id t met),
        refused_sync tenant_id ticket_id code' now' _ t' stays
            (assessed_refused tenant_id t' is_assessed),
      )
