-- ===== src/Risk/Order.antt =====
-- The order of risk levels, and the roles that reach them (shared/risk_config.py).
use xoc_api_aws.Base.{
  ℕ, String, ◌≡◌, refl, ◌≤◌, ◌⊎◌, inl, inr, true, Option, none, some, arith, leb, eq_iff,
}
use xoc_api_aws.Base.Text.{upper}
use xoc_api_aws.Risk.Levels.{
  RiskLevel, basic, controlled, risky, critical, level_order, role_rank, required_role,
  is_role_sufficient,
}
use xoc_api_aws.Risk.Command.{raise_level}
use xoc_api_aws.Risk.Plan.{higher}

abbrev pub IsAtMost : RiskLevel → RiskLevel → Type 0
IsAtMost a b = level_order a ≤ level_order b

-- The level is found, or a higher one is.
abbrev pub Reaches : RiskLevel → Option RiskLevel → Type 0
Reaches l none = ⊥
Reaches l (some m) = IsAtMost l m

pub order-injective : (a b : RiskLevel) → level_order a ≡ level_order b → a ≡ b
order-injective a b h = ground arith

pub critical-max : (l : RiskLevel) → IsAtMost critical l → l ≡ critical
critical-max l h = ground arith

pub Reaches-raise_left :
    (l : RiskLevel) (a b : Option RiskLevel) → Reaches l a → Reaches l (raise_level a b)
Reaches-raise_left l none b h = absurd h
Reaches-raise_left l (some m) none h = h
Reaches-raise_left l (some m) (some n) h = ground arith

pub Reaches-raise_right :
    (l : RiskLevel) (a b : Option RiskLevel) → Reaches l b → Reaches l (raise_level a b)
Reaches-raise_right l a none h = absurd h
Reaches-raise_right l none (some n) h = h
Reaches-raise_right l (some m) (some n) h = ground arith

-- The level that is raised to is one of the two.
pub raise_level-or : (a b : Option RiskLevel) → (raise_level a b ≡ a) ⊎ (raise_level a b ≡ b)
raise_level-or a none = inl refl
raise_level-or none (some n) = inr refl
raise_level-or (some m) (some n) = ground arith

pub higher_left : (a : RiskLevel) (b : Option RiskLevel) → IsAtMost a (higher a b)
unfolding higher
higher_left a b = ground arith

pub higher_right :
    (a : RiskLevel) {b : RiskLevel} (o : Option RiskLevel) → o ≡ some b → IsAtMost b (higher a o)
unfolding higher
higher_right a o h = ground arith

pub higher-or : (a : RiskLevel) (o : Option RiskLevel) → (higher a o ≡ a) ⊎ (o ≡ some (higher a o))
unfolding higher
higher-or a none = inl refl
higher-or a (some b) = ground arith

-- The rank that a level asks for.
abbrev pub rank_for : RiskLevel → ℕ
rank_for basic = 1
rank_for controlled = 2
rank_for risky = 2
rank_for critical = 3

pub rank-required_role : (l : RiskLevel) → role_rank (upper (required_role l)) ≡ rank_for l
unfolding role_rank upper
rank-required_role basic = refl
rank-required_role controlled = refl
rank-required_role risky = refl
rank-required_role critical = refl

pub sufficient_iff_rank :
    (role : String) (l : RiskLevel)
    → is_role_sufficient role (required_role l) ≡ leb (rank_for l) (role_rank (upper role))
unfolding is_role_sufficient
sufficient_iff_rank role l = rw (rank-required_role l) refl

-- Who may approve a level may approve every lower one.
pub is_role_sufficient_mono :
    (role : String) (a b : RiskLevel)
    → IsAtMost a b
    → is_role_sufficient role (required_role b) ≡ true
    → is_role_sufficient role (required_role a) ≡ true
is_role_sufficient_mono role a b h p =
    ground (arith, sufficient_iff_rank role a, sufficient_iff_rank role b)

-- Only the two platform roles reach the rank of a critical plan.
pub rank_three : (role : String) → 3 ≤ role_rank role → (role ≡ "ADMIN_XOC") ⊎ (role ≡ "SUPERADMIN")
unfolding role_rank
rank_three role h = ground (
  arith,
  eq_iff role "USER",
  eq_iff role "ADMIN",
  eq_iff role "ADMIN_XOC",
  eq_iff role "SUPERADMIN",
)

pub sufficient_for_critical :
    (role : String)
    → is_role_sufficient role (required_role critical) ≡ true
    → (upper role ≡ "ADMIN_XOC") ⊎ (upper role ≡ "SUPERADMIN")
sufficient_for_critical role h =
    rank_three (upper role) (ground (arith, sufficient_iff_rank role critical))
