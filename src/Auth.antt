-- ===== src/Auth.antt =====
-- pkg/auth: roles, keys, tokens and the denylist.
pub mod Roles
pub mod Tokens
pub mod Keys
pub mod Passwords
pub mod Denylist
