-- ===== src/Auth.antt =====
-- auth/: who may call, and with what signature.
pub mod Authorization
pub mod Canonical
pub mod Middleware
pub mod Signature
pub mod Timestamp
