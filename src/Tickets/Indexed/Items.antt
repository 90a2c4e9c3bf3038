-- ===== src/Tickets/Indexed/Items.antt =====
-- The changes of a ticket item keep its index fields right.
use xoc_api_aws.Base.{ℕ, String, ◌≡◌, refl, ap, ◌≢◌, Option, none, some, arith}
use xoc_api_aws.Base.Value.{Value, null, text, Fields, find, get, field, end, or_else}
use xoc_api_aws.Base.Outcome.{Result, ok, err, and_then, and_then-ok, ok-injective}
use xoc_api_aws.Tickets.Item.{
  Ticket, tenant_pk, ticket_sk, with_index_fields, normalize_status, build_new_ticket_item,
  finish_item,
}
use xoc_api_aws.Tickets.Update.{payload_status, set_fields, set_status, asked_status, status_fields}
use xoc_api_aws.Tickets.Workflow.{
  approved_fields, rejected_fields, approved_item, decided_item, rejected_item,
}
use xoc_api_aws.Tickets.Indexed.{IsIndexed, with_index_fields-IsIndexed}

-- The three writes of a decision keep the index fields right.
module _ (now : String) (tenant_id : ℕ) (ticket_id created_at : String) (user_id : Option ℕ)
    (t : Ticket) (h : IsIndexed (tenant_pk tenant_id) (ticket_sk ticket_id) t) where
  pub approved_item-IsIndexed :
      IsIndexed
        (tenant_pk tenant_id)
        (ticket_sk ticket_id)
        (approved_item now tenant_id ticket_id created_at user_id t)
  unfolding approved_item
  approved_item-IsIndexed =
      with_index_fields-IsIndexed tenant_id ticket_id "APROBADO" created_at t
        (approved_fields now user_id t) h refl refl refl

  pub rejected_item-IsIndexed :
      IsIndexed
        (tenant_pk tenant_id)
        (ticket_sk ticket_id)
        (rejected_item now tenant_id ticket_id created_at user_id t)
  unfolding rejected_item
  rejected_item-IsIndexed =
      with_index_fields-IsIndexed tenant_id ticket_id "RECHAZADO" created_at t
        (rejected_fields now user_id t) h refl refl refl

  pub decided_item-IsIndexed :
      IsIndexed
        (tenant_pk tenant_id)
        (ticket_sk ticket_id)
        (decided_item now tenant_id ticket_id created_at user_id t)
  unfolding decided_item
  decided_item-IsIndexed =
      let a = approved_item-IsIndexed in
      record {
        at_pk = a.at_pk;
        at_sk = a.at_sk;
        state = a.state;
        has_state = a.has_state;
        listed = a.listed;
        looked_up = a.looked_up;
      }

-- A payload that does not ask for a status of None.
abbrev pub NotNullStatus : Fields → Type 0
NotNullStatus payload = find "status" payload ≢ some null

normalize_status-none : (v : Value) → normalize_status v ≡ ok none → v ≡ null
unfolding normalize_status
normalize_status-none v h = ground arith

asked_status-none : (o : Option Value) → asked_status o ≡ ok (some none) → o ≡ some null
unfolding asked_status
asked_status-none none h = cc
asked_status-none (some v) h = ap some (normalize_status-none v (stripped (normalize_status v) h))
  where
    stripped :
        (r : Result (Option String))
        → and_then r (λ status. ok (some status)) ≡ ok (some none)
        → r ≡ ok none
    stripped (ok s) e = cc
    stripped (err x) e = cc

pub payload_status-none :
    (payload : Fields) → payload_status payload ≡ ok (some none) → find "status" payload ≡ some null
unfolding payload_status
payload_status-none end h = cc
payload_status-none (field k v fs) h = asked_status-none _ h

pub set_fields-IsIndexed :
    (now p k : String) (payload : Fields) (t : Ticket)
    → IsIndexed p k t
    → IsIndexed p k (set_fields now payload t)
unfolding set_fields
set_fields-IsIndexed now p k payload t h = record {
  at_pk = h.at_pk;
  at_sk = h.at_sk;
  state = h.state;
  has_state = h.has_state;
  listed = h.listed;
  looked_up = h.looked_up;
}

pub set_status-IsIndexed :
    (now : String) (tenant_id : ℕ) (ticket_id created_at : String) (status : Option (Option String))
    (t : Ticket)
    → status ≢ some none
    → IsIndexed (tenant_pk tenant_id) (ticket_sk ticket_id) t
    → IsIndexed
        (tenant_pk tenant_id)
        (ticket_sk ticket_id)
        (set_status now tenant_id ticket_id created_at status t)
unfolding set_status
set_status-IsIndexed now tenant_id ticket_id created_at none t some_status h = h
set_status-IsIndexed now tenant_id ticket_id created_at (some none) t some_status h =
    absurd (some_status refl)
set_status-IsIndexed now tenant_id ticket_id created_at (some (some status)) t some_status h =
    with_index_fields-IsIndexed tenant_id ticket_id status created_at t (status_fields now status t)
      h refl refl refl

finish-IsIndexed :
    (now id : String) (tenant_id : ℕ) (user_id subject description : Value) (status : Option String)
    (t : Ticket)
    → finish_item now id tenant_id user_id subject description status ≡ ok t
    → IsIndexed t.pk t.sk t
unfolding finish_item with_index_fields
finish-IsIndexed now id tenant_id user_id subject description none t h = cc
finish-IsIndexed now id tenant_id user_id subject description (some status) t h =
    rw (← ok-injective h) (record {
      at_pk = refl;
      at_sk = refl;
      state = status;
      has_state = refl;
      listed = refl;
      looked_up = refl;
    })

-- The item of a new ticket is indexed.
pub build-IsIndexed :
    (now id : String) (payload : Fields) (tenant_id : ℕ) (user_id : Value) (t : Ticket)
    → build_new_ticket_item now id payload tenant_id user_id ≡ ok t
    → IsIndexed t.pk t.sk t
unfolding build_new_ticket_item
build-IsIndexed now id payload tenant_id user_id t h =
    let (status, normal, rest) =
      and_then-ok (normalize_status (or_else (get "status" payload) (text "PENDING"))) _ h in
    finish-IsIndexed now id tenant_id user_id (get "subject" payload) (get "description" payload)
      status t rest
