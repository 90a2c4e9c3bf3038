-- ===== src/Access.antt =====
-- Who asks, and for which tenant: src/shared/context.py and src/shared/dependencies.py.
pub mod Request
pub mod Roles
pub mod Tenancy
mod Tests
