-- ===== src/Identity.antt =====
-- packages/identity/src: roles and permissions.
pub mod Rbac
