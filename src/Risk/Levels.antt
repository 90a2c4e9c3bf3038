-- ===== src/Risk/Levels.antt =====
-- The tables of shared/risk_config.py: levels, roles, and what an action type stands for.
use xoc_api_aws.Base.{ℕ, String, Bool, Option, none, some, List, [], ◌∷◌, leb, ◌==◌, if◌then◌else◌}
use xoc_api_aws.Base.Text.{upper, lower}

-- RISK_LEVELS
pub data RiskLevel : Type 0 where
  basic controlled risky critical : RiskLevel

-- RISK_LEVEL_ORDER[level]
abbrev pub level_order : RiskLevel → ℕ
level_order basic = 0
level_order controlled = 1
level_order risky = 2
level_order critical = 3

-- The key of RISK_LEVEL_ORDER that a text is.
unfoldable pub level_of : String → Option RiskLevel
level_of s =
    if s == "basic"
    then some basic
    else if s == "controlled"
    then some controlled
    else if s == "risky"
    then some risky
    else if s == "critical"
    then some critical
    else none

abbrev pub level_name : RiskLevel → String
level_name basic = "basic"
level_name controlled = "controlled"
level_name risky = "risky"
level_name critical = "critical"

-- ROLE_HIERARCHY.get(role, 0)
unfoldable pub role_rank : String → ℕ
role_rank role =
    if role == "USER"
    then 1
    else if role == "ADMIN"
    then 2
    else if role == "ADMIN_XOC"
    then 3
    else if role == "SUPERADMIN"
    then 3
    else 0

abbrev pub default_role : String
default_role = "USER"

abbrev pub default_risk_level : RiskLevel
default_risk_level = basic

-- REQUIRED_ROLE_FOR_RISK[level]
abbrev pub required_role : RiskLevel → String
required_role basic = "USER"
required_role controlled = "ADMIN"
required_role risky = "ADMIN"
required_role critical = "SUPERADMIN"

-- APPROVER_LABEL_FOR_RISK[level]
abbrev pub approver_label : RiskLevel → String
approver_label basic = "Usuario"
approver_label controlled = "Admin del tenant"
approver_label risky = "Admin del tenant"
approver_label critical = "Superadmin XOC"

-- The value of the first key of a table that a text is.
unfoldable pub table_get : List (String × RiskLevel) → String → Option RiskLevel
table_get [] k = none
table_get ((j, level) ∷ rows) k = if j == k then some level else table_get rows k

abbrev pub action_type_risk_map : List (String × RiskLevel)
action_type_risk_map =
    ("view", basic)
    ∷ ("list", basic)
    ∷ ("export", basic)
    ∷ ("report", basic)
    ∷ ("install", basic)
    ∷ ("setup", basic)
    ∷ ("deploy", basic)
    ∷ ("start", basic)
    ∷ ("create", basic)
    ∷ ("update", controlled)
    ∷ ("modify", controlled)
    ∷ ("configure", controlled)
    ∷ ("restart", controlled)
    ∷ ("enable", controlled)
    ∷ ("disable", controlled)
    ∷ ("upgrade", controlled)
    ∷ ("downgrade", controlled)
    ∷ ("uninstall", controlled)
    ∷ ("scale", controlled)
    ∷ ("backup", controlled)
    ∷ ("delete", risky)
    ∷ ("remove", risky)
    ∷ ("destroy", risky)
    ∷ ("terminate", risky)
    ∷ ("revoke", risky)
    ∷ ("reset", risky)
    ∷ ("replace", risky)
    ∷ ("migrate", risky)
    ∷ ("change_tenant_plan", risky)
    ∷ ("modify_important", risky)
    ∷ ("delete_important", risky)
    ∷ ("purge", critical)
    ∷ ("wipe", critical)
    ∷ ("drop", critical)
    ∷ ("reinitialize", critical)
    ∷ []

unfoldable pub is_role_sufficient : String → String → Bool
unfolding role_rank upper
is_role_sufficient user_role required =
    leb (role_rank (upper required)) (role_rank (upper user_role))

-- risk_level_order, required_role_for_risk and approver_label_for_risk, on a text
unfoldable pub risk_level_order : String → ℕ
unfolding level_of lower
risk_level_order s = elim (level_of (lower s)) [ none ↦ 0 | some level ↦ level_order level ]

unfoldable pub required_role_for_risk : String → String
unfolding level_of lower
required_role_for_risk s = elim (level_of (lower s)) [
  | none ↦ default_role
  | some level ↦ required_role level
]

unfoldable pub approver_label_for_risk : String → String
unfolding level_of lower
approver_label_for_risk s = elim (level_of (lower s)) [
  | none ↦ approver_label default_risk_level
  | some level ↦ approver_label level
]

unfoldable pub is_publicly_approvable : String → Bool
unfolding required_role_for_risk
is_publicly_approvable s = required_role_for_risk s == "USER"
