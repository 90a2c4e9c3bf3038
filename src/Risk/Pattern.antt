-- ===== src/Risk/Pattern.antt =====
-- The regular expressions of shared/risk_config.py, and the part of the `re` module that they
-- use. The ones that ignore case hold letters of the ASCII range only, and are searched for in
-- the lower-case text.
use Prim.Native.Char.{Char, code}
use xoc_api_aws.Base.{
  String, ◌≡◌, refl, Bool, true, false, ◌&&◌, ◌||◌, not, Option, none, some, leb, eqb, ◌==◌,
  if◌then◌else◌,
}
use xoc_api_aws.Base.Text.{is_space, lstrip_by, take_while, strip_by}

pub data Pattern : Type 0 where
  epsilon boundary start finish : Pattern
  one many : (Char → Bool) → Pattern
  seq alt : Pattern → Pattern → Pattern

-- a character of a class that is written out
abbrev pub one_of : String → Char → Bool
one_of String.[] c = false
one_of (String.◌∷◌ d ds) c = eqb (code d) (code c) || one_of ds c

abbrev pub is_letter : Char → Bool
is_letter c = let n = code c in (leb b'a' n && leb n b'z') || (leb b'A' n && leb n b'Z')

abbrev pub is_digit : Char → Bool
is_digit c = let n = code c in leb b'0' n && leb n b'9'

-- \w, on ASCII text
abbrev pub is_word : Char → Bool
is_word c = is_letter c || is_digit c || one_of "_" c

abbrev word_before : Option Char → Bool
word_before none = false
word_before (some c) = is_word c

abbrev word_after : String → Bool
word_after String.[] = false
word_after (String.◌∷◌ c _) = is_word c

abbrev differ : Bool → Bool → Bool
differ true b = not b
differ false b = b

abbrev is_start : Option Char → Bool
is_start none = true
is_start (some _) = false

-- What is left to match: the character before the place, and the text behind it.
abbrev Rest : Type 0
Rest = Option Char → String → Bool

match_many : (Char → Bool) → Option Char → String → Rest → Bool
match_many p prev String.[] k = k prev String.[]
match_many p prev (String.◌∷◌ c s) k =
    let more = match_many p (some c) s k in
    if p c then k prev (String.◌∷◌ c s) || more else k prev (String.◌∷◌ c s)

unfoldable pub match : Pattern → Option Char → String → Rest → Bool
unfolding match_many
match epsilon prev s k = k prev s
match boundary prev s k = differ (word_before prev) (word_after s) && k prev s
match start prev s k = is_start prev && k prev s
match finish prev s k = s == "" && k prev s
match (one p) prev String.[] k = false
match (one p) prev (String.◌∷◌ c s) k = p c && k (some c) s
match (many p) prev s k = match_many p prev s k
match (seq p q) prev s k = match p prev s (λ prev' s'. match q prev' s' k)
match (alt p q) prev s k = match p prev s k || match q prev s k

search_from : Pattern → Option Char → String → Bool
search_from p prev String.[] = match p prev String.[] (λ _ _. true)
search_from p prev (String.◌∷◌ c s) =
    match p prev (String.◌∷◌ c s) (λ _ _. true) || search_from p (some c) s

-- `bool(re.search(p, s))`
unfoldable pub search_in : Pattern → String → Bool
unfolding search_from match
search_in p s = search_from p none s

-- `bool(re.match(p, s))`
unfoldable pub match_at_start : Pattern → String → Bool
unfolding match
match_at_start p s = match p none s (λ _ _. true)

abbrev literal : String → Pattern
literal String.[] = epsilon
literal (String.◌∷◌ c s) = seq (one (λ d. eqb (code c) (code d))) (literal s)

abbrev maybe : Pattern → Pattern
maybe p = alt p epsilon

-- \b(mkfs(\.\w+)?|wipefs|fdisk|sfdisk|parted)\b
abbrev pub critical_tool_pattern : Pattern
critical_tool_pattern = seq boundary (
    seq
      (alt (seq (literal "mkfs") (maybe (seq (literal ".") (seq (one is_word) (many is_word))))) (
        alt (literal "wipefs") (alt (literal "fdisk") (alt (literal "sfdisk") (literal "parted")))))
      boundary)

-- \bdd\b[^|;]*\bof=/dev/
abbrev pub dd_block_device_pattern : Pattern
dd_block_device_pattern = seq boundary (
    seq (literal "dd")
      (seq boundary (seq (many (λ c. not (one_of "|;" c))) (seq boundary (literal "of=/dev/")))))

-- \|\s*(sudo\s+)?(ba|z|k|da|fi)?sh\b
abbrev pub pipe_to_shell_pattern : Pattern
pipe_to_shell_pattern = seq (literal "|") (
    seq (many is_space) (
      seq (maybe (seq (literal "sudo") (seq (one is_space) (many is_space)))) (
        seq
          (maybe (
            alt (literal "ba")
              (alt (literal "z") (alt (literal "k") (alt (literal "da") (literal "fi"))))))
          (seq (literal "sh") boundary))))

-- (^|\s)(-[a-zA-Z]*r[a-zA-Z]*|--recursive)(=|\s|$)
abbrev pub recursive_flag_pattern : Pattern
recursive_flag_pattern = seq (alt start (one is_space)) (
    seq
      (alt (seq (literal "-") (seq (many is_letter) (seq (literal "r") (many is_letter))))
        (literal "--recursive"))
      (alt (literal "=") (alt (one is_space) finish)))

-- ^[A-Za-z_][A-Za-z0-9_]*=
abbrev pub assignment_pattern : Pattern
assignment_pattern = seq (one (λ c. is_letter c || one_of "_" c)) (seq (many is_word) (literal "="))

abbrev in_target : Char → Bool
in_target c = not (is_space c || one_of "|&;" c)

-- The first group of >>?\s*([^\s|&;]+) at a place behind its first `>`, "" if it has no match:
-- a second `>` is skipped, if a target is left behind it.
target_behind : String → String
unfolding lstrip_by take_while
target_behind String.[] = ""
target_behind (String.◌∷◌ c s) =
    let past = take_while in_target (lstrip_by is_space s) in
    let here = take_while in_target (lstrip_by is_space (String.◌∷◌ c s)) in
    if one_of ">" c then if past == "" then here else past else here

-- _redirect_target, "" for None: a match is never empty, and a target of quotes alone is falsy too
unfoldable pub redirect_target : String → String
unfolding target_behind strip_by
redirect_target String.[] = ""
redirect_target (String.◌∷◌ c s) =
    let rest = redirect_target s in
    let target = target_behind s in
    if one_of ">" c && not (target == "") then strip_by (one_of "'\"") target else rest

finds_tools : (search_in critical_tool_pattern "sudo mkfs.ext4 /dev/sda1") ≡ true
unfolding search_in
finds_tools = refl
