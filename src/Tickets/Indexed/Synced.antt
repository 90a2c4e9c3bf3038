-- ===== src/Tickets/Indexed/Synced.antt =====
-- The writes of shared/ticket_automation_sync.py keep the index fields of the stored tickets right.
use xoc_api_aws.Base.{ℕ, String, ◌≡◌, refl, sym, ap, ◌∙◌, inl, inr, Option-cases}
use xoc_api_aws.Tickets.Item.{Ticket, tenant_pk, ticket_sk, status_index_pk}
use xoc_api_aws.Tickets.Table.{Table, World, update_if}
use xoc_api_aws.Tickets.Indexed.{IsIndexed, WellIndexed, tenant_pk-injective}
use xoc_api_aws.Tickets.Indexed.Rules.{table-publish, update_if-WellIndexed}
use xoc_api_aws.Tickets.Automation.{
  message_of, assessment_messages, assessment_guard, assessed, sync_unresolvable_assessment,
  takes_arn, with_arn, takes_start, started, record_automation_started,
}

assessed-IsIndexed :
    (tenant_id : ℕ) (ticket_id code message now : String) (t : Ticket)
    → IsIndexed (tenant_pk tenant_id) (ticket_sk ticket_id) t
    → IsIndexed (tenant_pk tenant_id) (ticket_sk ticket_id) (assessed tenant_id code message now t)
unfolding assessed
assessed-IsIndexed tenant_id ticket_id code message now t h = record {
  at_pk = h.at_pk;
  at_sk = h.at_sk;
  state = "DERIVADO";
  has_state = refl;
  listed =
      ap (λ n. status_index_pk n "DERIVADO") (tenant_pk-injective tenant_id t.tenant_id h.at_pk);
  looked_up = h.looked_up;
}

-- A write that leaves the key, the status and the index fields.
kept :
    {p k : String} (t u : Ticket)
    → IsIndexed p k t
    → t.tenant_id ≡ u.tenant_id
    → t.ticket_id ≡ u.ticket_id
    → t.status ≡ u.status
    → t.gsi1pk ≡ u.gsi1pk
    → t.gsi2pk ≡ u.gsi2pk
    → IsIndexed p k u
kept t u h tenant id status listed looked_up = record {
  at_pk = rw (← tenant) h.at_pk;
  at_sk = rw (← id) h.at_sk;
  state = h.state;
  has_state = sym status ∙ h.has_state;
  listed = rw (← tenant) (sym listed ∙ h.listed);
  looked_up = rw (← id) (sym looked_up ∙ h.looked_up);
}

module _ {S : Type 0} (db : Table S) where
  sync-WellIndexed :
      (tenant_id : ℕ) (ticket_id code now : String) (w : World S)
      → WellIndexed db w.table
      → WellIndexed db (sync_unresolvable_assessment db tenant_id ticket_id code now w).1.table
  unfolding sync_unresolvable_assessment
  sync-WellIndexed tenant_id ticket_id code now w well =
      elim (Option-cases (message_of code assessment_messages)) [
        | inl unknown ↦ rw unknown well
        | inr (m, known) ↦
            elim (Option-cases (
              update_if db tenant_id ticket_id (assessment_guard tenant_id)
                (assessed tenant_id code m now) w.table)) [
                  | inl failed ↦ rw (known, failed) well
                  | inr (s, went) ↦
                      rw
                        (
                          known,
                          went,
                          table-publish db tenant_id ticket_id "DERIVADO" (record w { table = s }),
                        )
                        (update_if-WellIndexed db tenant_id ticket_id (assessment_guard tenant_id)
                          (assessed tenant_id code m now)
                          (assessed-IsIndexed tenant_id ticket_id code m now) w.table s well went)
                ]
      ]

  started-WellIndexed :
      (tenant_id : ℕ) (ticket_id arn now : String) (s : S)
      → WellIndexed db s
      → WellIndexed db (record_automation_started db tenant_id ticket_id arn now s)
  unfolding record_automation_started with_arn started
  started-WellIndexed tenant_id ticket_id arn now s well =
      elim (Option-cases
        (update_if db tenant_id ticket_id (takes_arn tenant_id arn) (with_arn arn) s)) [
          | inl failed ↦ rw failed well
          | inr (s', went) ↦
              let well' =
                update_if-WellIndexed db tenant_id ticket_id (takes_arn tenant_id arn)
                  (with_arn arn) (λ t h. kept t _ h refl refl refl refl refl) s s' well went in
              elim (Option-cases
                (update_if db tenant_id ticket_id (takes_start tenant_id arn) (started now) s')) [
                  | inl failed ↦ rw (went, failed) well'
                  | inr (s2, went') ↦
                      rw (went, went')
                        (update_if-WellIndexed db tenant_id ticket_id (takes_start tenant_id arn)
                          (started now) (λ t h. kept t _ h refl refl refl refl refl) s' s2 well'
                          went')
                ]
        ]

  -- sync_unresolvable_assessment and record_automation_started keep every stored ticket listed under
  -- its status.
  pub synced-WellIndexed :
      (tenant_id : ℕ) (ticket_id code arn now : String) (w : World S)
      → WellIndexed db w.table
      → WellIndexed db (sync_unresolvable_assessment db tenant_id ticket_id code now w).1.table
        × WellIndexed db (record_automation_started db tenant_id ticket_id arn now w.table)
  synced-WellIndexed tenant_id ticket_id code arn now w well = (
    sync-WellIndexed tenant_id ticket_id code now w well,
    started-WellIndexed tenant_id ticket_id arn now w.table well,
  )
