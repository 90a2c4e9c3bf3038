-- ===== src/Risk.antt =====
-- shared/risk_config.py: risk levels, the roles that may approve them, and the risk of a plan.
-- `Risk.Levels` has the tables, `Risk.Pattern` the regular expressions that the module searches
-- for, `Risk.Command` the inference from a shell command, and `Risk.Plan` the risk of a step and
-- of a plan. Proofs: `Risk.Order`, `Risk.Inference`, `Risk.Governance`.
pub mod Levels
pub mod Pattern
pub mod Command
pub mod Plan
pub mod Order
pub mod Inference
pub mod Governance
mod Tests
