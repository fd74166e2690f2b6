-- ===== src/Authorization.antt =====
-- Role-based authorization (src/n8n_operator/core/authorization.py): the capability table, the
-- workflow-scope patterns, and the evaluation of a principal's memberships.
pub mod Roles
pub mod Glob
pub mod Like
pub mod Evaluate
pub mod Decisions
pub mod Duties
