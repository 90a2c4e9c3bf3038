-- ===== src/Tickets/Sample.antt =====
-- A table that is a list, newest write first: it shows that the laws of `Table` can be met, and runs
-- the handlers in tests.
use xoc_api_aws.Base.{
  String, ◌≡◌, refl, true, false, Option, none, some, List, [], ◌∷◌, arith, ◌==◌, if◌then◌else◌,
  eq_iff, Bool-cases, inl, inr,
}
use xoc_api_aws.Tickets.Item.{Ticket}
use xoc_api_aws.Tickets.Table.{Table, same_key}

-- a row: the key and the item
abbrev pub Rows : Type 0
Rows = List (String × String × Ticket)

unfoldable pub get_row : Rows → String → String → Option Ticket
get_row [] p k = none
get_row ((p', k', t) ∷ rows) p k = if same_key p' k' p k then some t else get_row rows p k

unfoldable pub put_row : Rows → Ticket → Rows
put_row rows t = (t.pk, t.sk, t) ∷ rows

unfoldable pub update_row : Rows → String → String → (Ticket → Ticket) → Rows
update_row [] p k f = []
update_row ((p', k', t) ∷ rows) p k f =
    let rest = update_row rows p k f in
    if same_key p k p' k' then (p', k', f t) ∷ rest else (p', k', t) ∷ rest

unfoldable pub delete_row : Rows → String → String → Rows
delete_row [] p k = []
delete_row ((p', k', t) ∷ rows) p k =
    let rest = delete_row rows p k in if same_key p k p' k' then rest else (p', k', t) ∷ rest

unfoldable pub query_rows : Rows → String → Option Ticket
query_rows [] g = none
query_rows ((p', k', t) ∷ rows) g = if t.gsi2pk == g then some t else query_rows rows g

pub get-put_row :
    (s : Rows) (t : Ticket) (p k : String)
    → get_row (put_row s t) p k ≡ (if same_key t.pk t.sk p k then some t else get_row s p k)
unfolding get_row put_row
get-put_row s t p k = refl

pub get-delete_row :
    (s : Rows) (p k p' k' : String)
    → get_row (delete_row s p k) p' k' ≡ (if same_key p k p' k' then none else get_row s p' k')
unfolding get_row delete_row
get-delete_row [] p k p' k' = ground arith
get-delete_row ((q, l, t) ∷ rows) p k p' k' = ground (
  arith,
  eq_iff p q,
  eq_iff k l,
  eq_iff p p',
  eq_iff k k',
  eq_iff q p',
  eq_iff l k',
  get-delete_row rows p k p' k',
)

get-update_row_ne :
    (s : Rows) (p k : String) (f : Ticket → Ticket) (p' k' : String)
    → same_key p k p' k' ≡ false
    → get_row (update_row s p k f) p' k' ≡ get_row s p' k'
unfolding get_row update_row
get-update_row_ne [] p k f p' k' h = refl
get-update_row_ne ((q, l, t) ∷ rows) p k f p' k' h = ground (
  arith,
  eq_iff p q,
  eq_iff k l,
  eq_iff p p',
  eq_iff k k',
  eq_iff q p',
  eq_iff l k',
  get-update_row_ne rows p k f p' k' h,
)

get-update_row_self :
    (s : Rows) (t : Ticket) (p k : String) (f : Ticket → Ticket)
    → get_row s p k ≡ some t
    → get_row (update_row s p k f) p k ≡ some (f t)
unfolding get_row update_row
get-update_row_self [] t p k f h = cc
get-update_row_self ((q, l, u) ∷ rows) t p k f h =
    ground (arith, eq_iff p q, eq_iff k l, eq_iff q p, eq_iff l k, get-update_row_self rows t p k f)

-- Two keys that test equal are equal.
same_key→eq : (p k p' k' : String) → same_key p k p' k' ≡ true → (p ≡ p') × (k ≡ k')
same_key→eq p k p' k' h = ground (arith, eq_iff p p', eq_iff k k')

pub get-update_row :
    (s : Rows) (t : Ticket) (p k : String) (f : Ticket → Ticket) (p' k' : String)
    → get_row s p k ≡ some t
    → get_row (update_row s p k f) p' k'
      ≡ (if same_key p k p' k' then some (f t) else get_row s p' k')
get-update_row s t p k f p' k' h = elim (Bool-cases (same_key p k p' k')) [
  | inr other ↦ rw other (get-update_row_ne s p k f p' k' other)
  | inl same ↦ rw same (
      rw (← (same_key→eq p k p' k' same).0, ← (same_key→eq p k p' k' same).1)
        (get-update_row_self s t p k f h))
]

abbrev pub rows_table : Table Rows
rows_table = record {
  get_item = get_row;
  put_item = put_row;
  update_item = update_row;
  delete_item = delete_row;
  query_lookup = query_rows;
  get-put = get-put_row;
  get-update = get-update_row;
  get-delete = get-delete_row;
}
