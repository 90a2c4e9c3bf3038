-- ===== src/Base/Text.antt =====
-- Python's text methods on the native `String`. Case mapping is that of the ASCII letters, and
-- white space that of the characters below U+0100; other characters are left as they are.
use Prim.Native.Char.{Char, code}
use Prim.Native.Nat.{ℕ, zero, suc}
use Prim.Native.String.{String, [], ◌∷◌, ◌++◌}
use mathlib.Core.Bool.{Bool, true, false, ◌||◌, ◌&&◌}
use mathlib.Core.List.{List}
use text.Mathlib.Text.{starts_with}
use xoc_api_aws.Base.Tests.{leb, eqb, ◌==◌, if◌then◌else◌}

-- The character of `to` at the place where `from` has `c`.
translate : String → String → Char → Char
translate (a ∷ from) (b ∷ to) c = if eqb (code a) (code c) then b else translate from to c
translate _ _ c = c

map_chars : (Char → Char) → String → String
map_chars f [] = []
map_chars f (c ∷ s) = f c ∷ map_chars f s

-- str.upper and str.lower
unfoldable pub upper : String → String
unfolding translate map_chars
upper = map_chars (translate "abcdefghijklmnopqrstuvwxyz" "ABCDEFGHIJKLMNOPQRSTUVWXYZ")

unfoldable pub lower : String → String
unfolding translate map_chars
lower = map_chars (translate "ABCDEFGHIJKLMNOPQRSTUVWXYZ" "abcdefghijklmnopqrstuvwxyz")

-- str.isspace of one character
unfoldable pub is_space : Char → Bool
is_space c =
    let n = code c in (leb 9 n && leb n 13) || (leb 28 n && leb n 32) || eqb n 133 || eqb n 160

unfoldable pub lstrip_by : (Char → Bool) → String → String
lstrip_by p [] = []
lstrip_by p (c ∷ s) = let rest = lstrip_by p s in if p c then rest else c ∷ s

-- A text with the characters of its end that pass the test removed.
unfoldable pub rstrip_by : (Char → Bool) → String → String
rstrip_by p [] = []
rstrip_by p (c ∷ s) = let rest = rstrip_by p s in if p c && rest == "" then [] else c ∷ rest

unfoldable pub strip_by : (Char → Bool) → String → String
unfolding lstrip_by rstrip_by
strip_by p s = rstrip_by p (lstrip_by p s)

-- str.strip()
unfoldable pub strip : String → String
unfolding strip_by is_space
strip = strip_by is_space

-- The longest beginning whose characters pass the test.
unfoldable pub take_while : (Char → Bool) → String → String
take_while p [] = []
take_while p (c ∷ s) = if p c then c ∷ take_while p s else []

-- A text without the characters that pass the test.
unfoldable pub remove_by : (Char → Bool) → String → String
remove_by p [] = []
remove_by p (c ∷ s) = let rest = remove_by p s in if p c then rest else c ∷ rest

-- `s[:n]`
unfoldable pub take_text : ℕ → String → String
take_text zero s = []
take_text (suc n) [] = []
take_text (suc n) (c ∷ s) = c ∷ take_text n s

-- A text with more than `n` characters.
unfoldable pub is_longer : ℕ → String → Bool
is_longer n [] = false
is_longer zero (c ∷ s) = true
is_longer (suc n) (c ∷ s) = is_longer n s

-- `t in s`
unfoldable pub contains : String → String → Bool
contains t [] = t == ""
contains t (c ∷ s) = starts_with (c ∷ s) t || contains t s

-- the pieces of a text between the characters that pass the test
unfoldable pub split_by : (Char → Bool) → String → String → List String
split_by p cur [] = List.◌∷◌ cur List.[]
split_by p cur (c ∷ s) =
    let closed = List.◌∷◌ cur (split_by p "" s) in
    let longer = split_by p (cur ++ (c ∷ [])) s in if p c then closed else longer

unfoldable pub non_empty : List String → List String
non_empty List.[] = List.[]
non_empty (List.◌∷◌ w ws) = let rest = non_empty ws in if w == "" then rest else List.◌∷◌ w rest

-- str.split()
unfoldable pub words : String → List String
unfolding split_by non_empty is_space
words s = non_empty (split_by is_space "" s)

-- " ".join
unfoldable pub unwords : List String → String
unwords List.[] = ""
unwords (List.◌∷◌ w List.[]) = w
unwords (List.◌∷◌ w (List.◌∷◌ v ws)) = w ++ (" " ++ unwords (List.◌∷◌ v ws))
