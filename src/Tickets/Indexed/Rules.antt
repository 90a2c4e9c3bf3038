-- ===== src/Tickets/Indexed/Rules.antt =====
-- Handlers that keep the index fields of the stored tickets right: how they compose, and the
-- conditional write by which a decision is recorded.
use xoc_api_aws.Base.{ℕ, String, ◌≡◌, refl, inl, inr, Bool, none, some, List, arith, Option-cases}
use xoc_api_aws.Base.Outcome.{Result, ok, err, Result-cases, ◌>>=◌, Handler, lift, modify}
use xoc_api_aws.Tickets.Item.{Ticket, tenant_pk, ticket_sk}
use xoc_api_aws.Tickets.Table.{
  Table, World, publish_ticket_status_notification, get_tenant_ticket_or_404, update_if,
  update_if-some,
}
use xoc_api_aws.Tickets.Workflow.{record_decision, is_preapproved}
use xoc_api_aws.Tickets.Indexed.{IsIndexed, WellIndexed, update-WellIndexed}

module _ {S : Type 0} (db : Table S) where
  -- A handler that keeps the index right, whether it answers or raises.
  pub record KeepsIndex {A : Type 0} (m : Handler (World S) A) : Type 0 where
    pub at : (w : World S) → WellIndexed db w.table → WellIndexed db (m w).1.table

  pub KeepsIndex-bind :
      {A B : Type 0} (m : Handler (World S) A) (f : A → Handler (World S) B)
      → KeepsIndex m
      → ((a : A) → KeepsIndex (f a))
      → KeepsIndex (m >>= f)
  KeepsIndex-bind m f first then_ = record {
    at = λ w well. elim (Result-cases (m w).0) [
      | inr (e, failed) ↦ rw failed (first.at w well)
      | inl (a, went) ↦ rw went ((then_ a).at (m w).1 (first.at w well))
    ];
  }

  -- The same at one world, with what the first part answered.
  pub WellIndexed-bind :
      {A B : Type 0} (m : Handler (World S) A) (f : A → Handler (World S) B) (w : World S)
      → WellIndexed db (m w).1.table
      → ((a : A) → (m w).0 ≡ ok a → WellIndexed db (f a (m w).1).1.table)
      → WellIndexed db ((m >>= f) w).1.table
  WellIndexed-bind m f w well next = elim (Result-cases (m w).0) [
    | inr (e, failed) ↦ rw failed well
    | inl (a, went) ↦ rw went (next a went)
  ]

  pub KeepsIndex-lift : {A : Type 0} (r : Result A) → KeepsIndex (lift r)
  KeepsIndex-lift r = record { at = λ w well. well }

  pub KeepsIndex-bind_lift :
      {A B : Type 0} (r : Result A) (f : A → Handler (World S) B)
      → ((a : A) → r ≡ ok a → KeepsIndex (f a))
      → KeepsIndex (lift r >>= f)
  KeepsIndex-bind_lift (ok a) f next = next a refl
  KeepsIndex-bind_lift (err e) f next = record { at = λ w well. well }

  pub KeepsIndex-modify :
      (f : World S → World S)
      → ((w : World S) → WellIndexed db w.table → WellIndexed db (f w).table)
      → KeepsIndex (modify f)
  KeepsIndex-modify f keep = record { at = keep }

  pub table-publish :
      (tenant_id : ℕ) (ticket_id status : String) (w : World S)
      → (publish_ticket_status_notification db tenant_id ticket_id status w).table ≡ w.table
  unfolding publish_ticket_status_notification
  table-publish tenant_id ticket_id status w = ground arith

  unwritten :
      (status : String) (advanced : List String) (tenant_id : ℕ) (ticket_id : String)
      (change : Ticket → Ticket) (w : World S)
      → update_if db tenant_id ticket_id is_preapproved change w.table ≡ none
      → (record_decision db status advanced tenant_id ticket_id change w).1.table ≡ w.table
  unfolding record_decision
  unwritten status advanced tenant_id ticket_id change w failed = ground arith

  written :
      (status : String) (advanced : List String) (tenant_id : ℕ) (ticket_id : String)
      (change : Ticket → Ticket) (w : World S) (table : S)
      → update_if db tenant_id ticket_id is_preapproved change w.table ≡ some table
      → (record_decision db status advanced tenant_id ticket_id change w).1.table ≡ table
  unfolding record_decision get_tenant_ticket_or_404
  written status advanced tenant_id ticket_id change w table went = grind (arith, table-publish)

  -- The guard of a conditional write sees the item that the write changes.
  pub update_if-WellIndexed :
      (tenant_id : ℕ) (ticket_id : String) (condition : Ticket → Bool) (change : Ticket → Ticket)
      → ((t : Ticket)
          → IsIndexed (tenant_pk tenant_id) (ticket_sk ticket_id) t
          → IsIndexed (tenant_pk tenant_id) (ticket_sk ticket_id) (change t))
      → (s s' : S) → WellIndexed db s
      → update_if db tenant_id ticket_id condition change s ≡ some s'
      → WellIndexed db s'
  unfolding update_if
  update_if-WellIndexed tenant_id ticket_id condition change keep s s' well went =
      let (t, there, _, is_write) =
        update_if-some db tenant_id ticket_id condition change s s' went in
      rw (← is_write)
        (update-WellIndexed db s _ _ t change well there (keep t (well.each _ _ t there)))

  pub record_decision-KeepsIndex :
      (status : String) (advanced : List String) (tenant_id : ℕ) (ticket_id : String)
      (change : Ticket → Ticket)
      → ((t : Ticket)
          → IsIndexed (tenant_pk tenant_id) (ticket_sk ticket_id) t
          → IsIndexed (tenant_pk tenant_id) (ticket_sk ticket_id) (change t))
      → KeepsIndex (record_decision db status advanced tenant_id ticket_id change)
  record_decision-KeepsIndex status advanced tenant_id ticket_id change keep = record {
    at = λ w well.
        elim (Option-cases (update_if db tenant_id ticket_id is_preapproved change w.table)) [
          | inl failed ↦ rw (unwritten status advanced tenant_id ticket_id change w failed) well
          | inr (table, went) ↦
              rw (written status advanced tenant_id ticket_id change w table went) (
                update_if-WellIndexed tenant_id ticket_id is_preapproved change keep w.table table
                  well went)
        ];
  }
