-- ===== src/Dictionary.antt =====
-- core/dictionary/: the token table, behind one read interface.
pub mod View
pub mod Compact
pub mod Wide
