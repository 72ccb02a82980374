-- ===== src/Auth.antt =====
-- src/kohakuhub/auth: who may do what.
pub mod Permissions
