-- ===== src/Remediation.antt =====
-- The plans that undo what a remediation has changed: remediation/rollback.py.
pub mod Rollback
pub mod Lookup
pub mod Compensation
pub mod Tests
