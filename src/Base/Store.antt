-- ===== src/Base/Store.antt =====
-- A DynamoDB table of items: what the stores of the program ask of it, and a table that is a list.
use Prim.Native.String.{String}
use mathlib.Core.Path.{◌≡◌, refl}
use mathlib.Core.Bool.{Bool, ◌&&◌}
use mathlib.Core.Option.{Option, none, some}
use mathlib.Core.List.{List, [], ◌∷◌}
use xoc_api_aws.Base.Tests.{◌==◌, if◌then◌else◌}

-- Two keys are one.
abbrev pub one_key : String → String → String → String → Bool
one_key p k p' k' = p == p' && k == k'

-- A table: `get_item` is what stands there, `peek` a read that may be late, of which nothing is
-- known, and `write_item` puts an item at its key.
pub record ItemStore (A S : Type 0) : Type 0 where
  pub get_item : S → String → String → Option A
  pub peek : S → String → String → Option A
  pub write_item : S → String → String → A → S
  pub get-write :
      (s : S) (p k : String) (a : A) (p' k' : String)
      → get_item (write_item s p k a) p' k'
        ≡ (if one_key p k p' k' then some a else get_item s p' k')

abbrev fresh : {S : Type 0} {A : Type 0} → S → Option A → Option S
fresh s none = some s
fresh s (some a) = none

abbrev when_holds : {S A : Type 0} → (A → Bool) → (A → S) → Option A → Option S
when_holds condition write none = none
when_holds condition write (some a) = if condition a then some (write a) else none

abbrev pub or_blank : {A : Type 0} → A → Option A → A
or_blank blank none = blank
or_blank blank (some a) = a

module _ {A S : Type 0} (db : ItemStore A S) where
  -- put_item under the condition that no item is there; `none` is the
  -- ConditionalCheckFailedException
  unfoldable pub put_new : S → String → String → A → Option S
  put_new s p k a = fresh (db.write_item s p k a) (db.get_item s p k)

  pub put_new_free :
      (s : S) (p k : String) (a : A)
      → db.get_item s p k ≡ none
      → put_new s p k a ≡ some (db.write_item s p k a)
  unfolding put_new
  put_new_free s p k a h = rw h refl

  pub put_new_taken :
      (s : S) (p k : String) (a b : A) → db.get_item s p k ≡ some b → put_new s p k a ≡ none
  unfolding put_new
  put_new_taken s p k a b h = rw h refl

  -- update_item under a condition that only an item can meet
  unfoldable pub update_when : S → String → String → (A → Bool) → (A → A) → Option S
  update_when s p k condition change =
      when_holds condition (λ a. db.write_item s p k (change a)) (db.get_item s p k)

  pub update_when_there :
      (s : S) (p k : String) (condition : A → Bool) (change : A → A) (a : A)
      → db.get_item s p k ≡ some a
      → update_when s p k condition change
        ≡ (if condition a then some (db.write_item s p k (change a)) else none)
  unfolding update_when
  update_when_there s p k condition change a h = rw h refl

  -- update_item without a condition, which makes an item where there is none
  unfoldable pub update_any : S → String → String → A → (A → A) → S
  update_any s p k blank change = db.write_item s p k (change (or_blank blank (db.get_item s p k)))

-- Rows, the newest first.
abbrev pub RowsOf : Type 0 → Type 0
RowsOf A = List (String × String × A)

unfoldable pub find_row : {A : Type 0} → RowsOf A → String → String → Option A
find_row [] p k = none
find_row ((p', k', a) ∷ rows) p k = if one_key p' k' p k then some a else find_row rows p k

pub find-row_write :
    {A : Type 0} (s : RowsOf A) (p k : String) (a : A) (p' k' : String)
    → find_row ((p, k, a) ∷ s) p' k' ≡ (if one_key p k p' k' then some a else find_row s p' k')
unfolding find_row
find-row_write s p k a p' k' = refl

abbrev pub rows_store : (A : Type 0) → ItemStore A (RowsOf A)
rows_store A = record {
  get_item = find_row;
  peek = find_row;
  write_item = λ s p k a. (p, k, a) ∷ s;
  get-write = find-row_write;
}
