-- ===== src/Core.antt =====
-- core/: the types that every layer shares.
pub mod Types
pub mod Validate
