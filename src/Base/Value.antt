-- ===== src/Base/Value.antt =====
-- Dynamic values as JSON and DynamoDB carry them: dictionaries, lists and scalars, with Python's
-- truth value, `str`, `dict.get` and iteration.
use Prim.Native.Nat.{ℕ}
use Prim.Native.String.{String}
use mathlib.Core.Path.{◌≡◌, refl}
use mathlib.Core.Bool.{Bool, true, false, not}
use mathlib.Core.List.{List, [], ◌∷◌}
use mathlib.Core.Option.{Option, none, some}
use native.Mathlib.Omega.{arith}
use xoc_api_aws.Base.Tests.{eqb, ◌==◌, if◌then◌else◌}
use package.text.Mathlib.TextEquality.{eq_iff}
use xoc_api_aws.Base.Decimal.{show_nat}

-- `other` is a number that is negative or no integer, by its `str`.
mutual
  pub data Value : Type 0 where
    null : Value
    bool : Bool → Value
    num : ℕ → Value
    other : String → Value
    text : String → Value
    list : Items → Value
    dict : Fields → Value

  pub data Items : Type 0 where
    nil : Items
    cons : Value → Items → Items

  pub data Fields : Type 0 where
    end : Fields
    field : String → Value → Fields → Fields

unfoldable pub to_list : Items → List Value
to_list nil = []
to_list (cons v vs) = v ∷ to_list vs

unfoldable pub of_list : List Value → Items
of_list [] = nil
of_list (v ∷ vs) = cons v (of_list vs)

pub to_list-of_list : (vs : List Value) → to_list (of_list vs) ≡ vs
unfolding to_list of_list
to_list-of_list [] = refl
to_list-of_list (v ∷ vs) = rw (to_list-of_list vs)

-- `bool(v)`
unfoldable pub truthy : Value → Bool
truthy null = false
truthy (bool b) = b
truthy (num n) = not (eqb n 0)
truthy (other _) = true
truthy (text s) = not (s == "")
truthy (list nil) = false
truthy (list (cons _ _)) = true
truthy (dict end) = false
truthy (dict (field _ _ _)) = true

-- `v or w`
unfoldable pub or_else : Value → Value → Value
unfolding truthy
or_else v w = if truthy v then v else w

-- `d[k]`, where the key is there
unfoldable pub find : String → Fields → Option Value
find k end = none
find k (field j v fs) = if j == k then some v else find k fs

-- `d.get(k, default)`
unfoldable pub get_or : String → Value → Fields → Value
unfolding find
get_or k default fs = elim (find k fs) [ none ↦ default | some v ↦ v ]

-- `d.get(k)`
unfoldable pub get : String → Fields → Value
unfolding get_or
get k fs = get_or k null fs

-- `d[k] = v`
unfoldable pub put : String → Value → Fields → Fields
put k v end = field k v end
put k v (field j w fs) = if j == k then field j v fs else field j w (put k v fs)

-- `isinstance(v, dict)`, with the dictionary
unfoldable pub as_dict : Value → Option Fields
as_dict (dict fs) = some fs
as_dict _ = none

-- `isinstance(v, list)`, with the list
unfoldable pub as_list : Value → Option (List Value)
unfolding to_list
as_list (list vs) = some (to_list vs)
as_list _ = none

-- `isinstance(v, str)`, with the text
unfoldable pub as_text : Value → Option String
as_text (text s) = some s
as_text _ = none

-- `(d.get(k) or {})`, and `{}` where that is no dictionary
unfoldable pub dict_or_empty : Value → Fields
dict_or_empty (dict fs) = fs
dict_or_empty _ = end

-- `v == "…"`
unfoldable pub is_text : String → Value → Bool
is_text t (text s) = s == t
is_text t _ = false

-- `str(v)` of a scalar; `none` for a list or a dictionary, whose text the program never asks for.
unfoldable pub str : Value → Option String
unfolding show_nat
str null = some "None"
str (bool true) = some "True"
str (bool false) = some "False"
str (num n) = some (show_nat n)
str (other s) = some s
str (text s) = some s
str _ = none

-- A write is read back, and leaves the other keys.
pub find-put :
    (k j : String) (v : Value) (fs : Fields)
    → find j (put k v fs) ≡ (if k == j then some v else find j fs)
unfolding find put
find-put k j v end = refl
find-put k j v (field i w fs) =
    ground (arith, eq_iff k j, eq_iff i k, eq_iff i j, find-put k j v fs)
