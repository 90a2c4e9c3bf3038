-- ===== src/Tickets/Indexed.antt =====
-- The index fields of the stored tickets agree with the tickets (shared/tickets_store.py).
pub mod Rules
pub mod Items
pub mod Edits
pub mod Decisions
pub mod Synced
use text.Mathlib.TextLemmas.{append_cancel_left}
use xoc_api_aws.Base.{
  ℕ, String, ◌≡◌, refl, sym, ◌∙◌, ap, subst, ◌≢◌, ◌⊎◌, inl, inr, Bool, true, false, Option, none,
  some, List, [], ◌∷◌, arith, if◌then◌else◌, Bool-cases, Option-cases, eq_iff, ==→eq,
}
use xoc_api_aws.Base.Decimal.{show_nat, show_nat-injective}
use xoc_api_aws.Base.Value.{Value, null, Fields}
use xoc_api_aws.Base.Outcome.{
  Error, Result, ok, err, Result-cases, ◌>>=◌, Handler, lift, and_then, and_then-ok,
}
use xoc_api_aws.Tickets.Item.{
  Ticket, tenant_pk, ticket_sk, status_index_pk, ticket_lookup_pk, with_index_fields,
}
use xoc_api_aws.Tickets.Table.{Table, World, same_key}

-- A ticket stored under a key: the key is its own, it has a status, and it is listed under that
-- status and under its id.
pub record IsIndexed (p k : String) (t : Ticket) : Type 0 where
  pub at_pk : p ≡ tenant_pk t.tenant_id
  pub at_sk : k ≡ ticket_sk t.ticket_id
  pub state : String
  pub has_state : t.status ≡ some state
  pub listed : t.gsi1pk ≡ status_index_pk t.tenant_id state
  pub looked_up : t.gsi2pk ≡ ticket_lookup_pk t.ticket_id

-- Tenants have different partitions, tickets of a tenant different sort keys.
pub tenant_pk-injective : (m n : ℕ) → tenant_pk m ≡ tenant_pk n → m ≡ n
unfolding tenant_pk
tenant_pk-injective m n h =
    show_nat-injective m n (append_cancel_left "TICKET#" (show_nat m) (show_nat n) h)

pub ticket_sk-injective : (a b : String) → ticket_sk a ≡ ticket_sk b → a ≡ b
unfolding ticket_sk
ticket_sk-injective a b h = append_cancel_left "TICKET#" a b h

-- A SET of the index fields for the key under which the ticket stands, and of the status that they
-- are built for.
pub with_index_fields-IsIndexed :
    (tenant_id : ℕ) (ticket_id status created_at : String) (t u : Ticket)
    → IsIndexed (tenant_pk tenant_id) (ticket_sk ticket_id) t
    → u.tenant_id ≡ t.tenant_id
    → u.ticket_id ≡ t.ticket_id
    → u.status ≡ some status
    → IsIndexed
        (tenant_pk tenant_id)
        (ticket_sk ticket_id)
        (with_index_fields tenant_id ticket_id status created_at u)
unfolding with_index_fields
with_index_fields-IsIndexed tenant_id ticket_id status created_at t u h same_tenant same_id
      is_status =
    record {
      at_pk = rw same_tenant h.at_pk;
      at_sk = rw same_id h.at_sk;
      state = status;
      has_state = is_status;
      listed =
          ap (λ n. status_index_pk n status)
            (tenant_pk-injective tenant_id u.tenant_id (rw same_tenant h.at_pk));
      looked_up =
          ap ticket_lookup_pk (ticket_sk-injective ticket_id u.ticket_id (rw same_id h.at_sk));
    }

some-injective : {t u : Ticket} → some t ≡ some u → t ≡ u
some-injective h = cc

not-none-eq-some : {t : Ticket} → none ≡ some t → ⊥
not-none-eq-some h = cc

module _ {S : Type 0} (db : Table S) where
  -- Every stored ticket is indexed.
  pub record WellIndexed (s : S) : Type 0 where
    pub each : (p k : String) (t : Ticket) → db.get_item s p k ≡ some t → IsIndexed p k t

  same_key→eq : (p k p' k' : String) → same_key p k p' k' ≡ true → (p ≡ p') × (k ≡ k')
  same_key→eq p k p' k' h = ground (arith, eq_iff p p', eq_iff k k')

  -- Where the key is another one, the ticket was there before; where it is the key, the ticket is
  -- the new one.
  at_key :
      (s s' : S) (p k p' k' : String) (t u : Ticket)
      → WellIndexed s
      → IsIndexed p k t
      → db.get_item s' p' k' ≡ (if same_key p k p' k' then some t else db.get_item s p' k')
      → db.get_item s' p' k' ≡ some u
      → IsIndexed p' k' u
  at_key s s' p k p' k' t u well new law e = elim (Bool-cases (same_key p k p' k')) [
    | inr other ↦ well.each p' k' u (sym (rw other at law) ∙ e)
    | inl same ↦
        rw
          (
            ← (same_key→eq p k p' k' same).0,
            ← (same_key→eq p k p' k' same).1,
            ← some-injective (sym (rw same at law) ∙ e),
          )
          new
  ]

  pub update-WellIndexed :
      (s : S) (p k : String) (t : Ticket) (change : Ticket → Ticket)
      → WellIndexed s
      → db.get_item s p k ≡ some t
      → IsIndexed p k (change t)
      → WellIndexed (db.update_item s p k change)
  update-WellIndexed s p k t change well there changed = record {
    each = λ p' k' u e.
        at_key s (db.update_item s p k change) p k p' k' (change t) u well changed
          (db.get-update s t p k change p' k' there) e;
  }

  pub put-WellIndexed :
      (s : S) (t : Ticket) → WellIndexed s → IsIndexed t.pk t.sk t → WellIndexed (db.put_item s t)
  put-WellIndexed s t well new = record {
    each = λ p k u e. at_key s (db.put_item s t) t.pk t.sk p k t u well new (db.get-put s t p k) e;
  }
