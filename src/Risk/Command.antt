-- ===== src/Risk/Command.antt =====
-- The risk that shared/risk_config.py infers from the text of a shell command.
mod Names
use Prim.Native.Char.{Char, code}
use Prim.Native.String
use package.text.Mathlib.Text.{starts_with}
use xoc_api_aws.Base.{
  String, ◌≡◌, refl, Bool, true, false, ◌&&◌, ◌||◌, not, Option, none, some, List, [], ◌∷◌, map,
  any, ltb, eqb, ◌==◌, if◌then◌else◌,
}
use xoc_api_aws.Base.Text.{strip, lower, contains, split_by, non_empty, words, unwords, strip_by}
use xoc_api_aws.Risk.Levels.{RiskLevel, basic, controlled, risky, critical, level_order, table_get}
use xoc_api_aws.Risk.Pattern.{
  one_of, search_in, match_at_start, critical_tool_pattern, dd_block_device_pattern,
  pipe_to_shell_pattern, recursive_flag_pattern, assignment_pattern, redirect_target,
}
use Names.{command_risk_map}

-- `t in (…)` for a list of texts
abbrev pub one_text : List String → String → Bool
one_text ts s = any (λ t. t == s) ts

abbrev pub system_path_prefixes : List String
system_path_prefixes =
    "/etc" ∷ "/usr" ∷ "/bin" ∷ "/sbin" ∷ "/boot" ∷ "/lib" ∷ "/lib64" ∷ "/var" ∷ "/root" ∷ "/dev"
    ∷ "/sys" ∷ "/proc" ∷ "/srv" ∷ []

abbrev pub critical_target_files : List String
critical_target_files = "/etc/passwd" ∷ "/etc/shadow" ∷ "/etc/sudoers" ∷ "/etc/crontab" ∷ []

abbrev pub shell_prefixes : List String
shell_prefixes = "sudo" ∷ "doas" ∷ "nohup" ∷ "time" ∷ "env" ∷ "nice" ∷ "ionice" ∷ []

abbrev on_head : Char → List String → List String
on_head c [] = String.◌∷◌ c "" ∷ []
on_head c (piece ∷ pieces) = String.◌∷◌ c piece ∷ pieces

abbrev is_pair : Char → Char → Bool
is_pair c d = (one_of "&" c && one_of "&" d) || (one_of "|" c && one_of "|" d)

-- re.split(r"&&|\|\||[;\n|]", command)
split_at_operators : String → List String
split_at_operators String.[] = "" ∷ []
split_at_operators (String.◌∷◌ c String.[]) =
    if one_of ";\n|" c then "" ∷ "" ∷ [] else String.◌∷◌ c "" ∷ []
split_at_operators (String.◌∷◌ c (String.◌∷◌ d s)) =
    let past = split_at_operators s in
    let next = split_at_operators (String.◌∷◌ d s) in
    if is_pair c d then "" ∷ past else if one_of ";\n|" c then "" ∷ next else on_head c next

unfoldable pub split_command_segments : String → List String
unfolding split_at_operators non_empty strip
split_command_segments command = non_empty (map strip (split_at_operators command))

abbrev is_assignment : String → Bool
is_assignment token =
    contains "=" token && not (starts_with token "-") && match_at_start assignment_pattern token

drop_while : (String → Bool) → List String → List String
drop_while p [] = []
drop_while p (t ∷ ts) = let rest = drop_while p ts in if p t then rest else t ∷ ts

-- `s.split("/")[-1]`
last_part : String → List String → String
last_part part [] = part
last_part part (next ∷ parts) = last_part next parts

-- The command's name and its arguments, ("", "") if only prefixes are left.
name_and_args : List String → String × String
unfolding last_part split_by unwords
name_and_args [] = ("", "")
name_and_args (token ∷ tokens) = (last_part token (split_by (one_of "/") "" token), unwords tokens)

unfoldable pub segment_head : String → String × String
unfolding name_and_args drop_while words contains match_at_start
segment_head segment =
    name_and_args (drop_while (one_text shell_prefixes) (drop_while is_assignment (words segment)))

abbrev under_system_path : String → Bool
under_system_path path =
    any (λ prefix. path == prefix || starts_with path (String.◌++◌ prefix "/")) system_path_prefixes

is_system_token : String → Bool
unfolding strip strip_by
is_system_token token =
    let cleaned = strip_by (one_of "'\"") (strip token) in
    starts_with cleaned "/"
    && (one_text ("/" ∷ "/*" ∷ "/." ∷ "/.." ∷ []) cleaned || under_system_path cleaned)

unfoldable pub mentions_system_path : List String → Bool
unfolding is_system_token
mentions_system_path tokens = any is_system_token tokens

abbrev mentions : List String → String → Bool
mentions parts s = any (λ part. contains part s) parts

rm_risk : String → List String → String → RiskLevel
unfolding search_in mentions_system_path
rm_risk name tokens lowered =
    let recursive =
      search_in recursive_flag_pattern (String.◌++◌ " " (String.◌++◌ lowered " "))
      && name == "rm" in
    if recursive && mentions_system_path tokens
    then critical
    else if name == "shred" && mentions_system_path tokens
    then critical
    else risky

-- _command_risk; `none` is the None of a name that is not in the table
unfoldable pub command_risk : String → String → String → Option RiskLevel
unfolding rm_risk words lower contains search_in mentions_system_path table_get
command_risk name args segment =
    let tokens = words args in
    let lowered = lower args in
    if one_text ("rm" ∷ "rmdir" ∷ "unlink" ∷ "shred" ∷ []) name
    then some (rm_risk name tokens lowered)
    else if name == "find"
    then some
        (if mentions ("-delete" ∷ "-exec rm" ∷ "-exec unlink" ∷ []) lowered then risky else basic)
    else if name == "dpkg"
    then some (
        if any (λ flag. one_text tokens flag) ("-l" ∷ "--list" ∷ "-s" ∷ "--status" ∷ [])
        then basic
        else controlled)
    else if name == "systemctl"
    then some (
        if mentions ("status" ∷ "list-units" ∷ "show" ∷ "cat " ∷ []) lowered
        then basic
        else controlled)
    else if one_text ("docker" ∷ "kubectl" ∷ "helm" ∷ "git" ∷ []) name
    then some (
        if mentions (" ps" ∷ " logs" ∷ " get " ∷ " status" ∷ " diff" ∷ " show" ∷ " describe" ∷ [])
          lowered
        then basic
        else controlled)
    else if name == "sed"
    then some (if contains "-i" lowered then controlled else basic)
    else if name == "dd"
    then some (if search_in dd_block_device_pattern (lower segment) then critical else controlled)
    else if one_text ("chmod" ∷ "chown" ∷ []) name
    then some (
        if (one_text tokens "-R" || one_text tokens "--recursive") && mentions_system_path tokens
        then risky
        else controlled)
    else if one_text ("mkdir" ∷ "mv" ∷ "cp" ∷ []) name
    then some controlled
    else if one_text ("curl" ∷ "wget" ∷ []) name
    then some (
        if one_text tokens "-o" || one_text tokens "--output" || contains ">" segment
        then controlled
        else basic)
    else table_get command_risk_map name

-- `_raise`: the level so far, and the one that is found now
abbrev pub raise_level : Option RiskLevel → Option RiskLevel → Option RiskLevel
raise_level level none = level
raise_level none (some new) = some new
raise_level (some old) (some new) =
    some (if ltb (level_order old) (level_order new) then new else old)

abbrev when : Bool → RiskLevel → Option RiskLevel
when b level = if b then some level else none

-- What the tests on the whole text find.
unfoldable pub pattern_risk : String → Option RiskLevel
unfolding search_in lower
pattern_risk text =
    let lowered = lower text in
    raise_level
      (raise_level (when (search_in critical_tool_pattern lowered) critical)
        (when (search_in dd_block_device_pattern lowered) critical))
      (when (search_in pipe_to_shell_pattern lowered) risky)

-- What one segment adds; a segment without a command adds nothing.
unfoldable pub segment_risk : String → Option RiskLevel
unfolding segment_head command_risk
segment_risk segment =
    let (name, args) = segment_head segment in
    if name == "" then none else command_risk name args segment

unfoldable pub raise_all : Option RiskLevel → List String → Option RiskLevel
unfolding segment_risk
raise_all level [] = level
raise_all level (segment ∷ segments) = raise_all (raise_level level (segment_risk segment)) segments

unfoldable pub redirect_risk : String → Option RiskLevel
unfolding redirect_target
redirect_risk text =
    let target = redirect_target text in
    if target == ""
    then none
    else if any (λ path. starts_with target path) critical_target_files
    then some critical
    else when (under_system_path target) controlled

-- infer_risk_from_command, on a text
unfoldable pub infer_risk_from_command : String → Option RiskLevel
unfolding strip pattern_risk split_command_segments raise_all redirect_risk
infer_risk_from_command command =
    let stripped = strip command in
    if stripped == ""
    then none
    else raise_level (raise_all (pattern_risk stripped) (split_command_segments stripped))
        (redirect_risk stripped)

-- Commands of tests/test_risk_config.py.
rm_root : infer_risk_from_command "sudo rm -rf /etc/nginx" ≡ some critical
unfolding infer_risk_from_command
rm_root = refl

read_only : infer_risk_from_command "FOO=1 /bin/ls -la /var | grep x > /tmp/out" ≡ some basic
unfolding infer_risk_from_command
read_only = refl

piped : infer_risk_from_command "curl http://x | sudo bash" ≡ some risky
unfolding infer_risk_from_command
piped = refl

redirected : infer_risk_from_command "echo x >> /etc/passwd" ≡ some critical
unfolding infer_risk_from_command
redirected = refl

disk : infer_risk_from_command "dd if=/dev/zero of=/dev/sda" ≡ some critical
unfolding infer_risk_from_command
disk = refl
