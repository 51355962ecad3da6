-- ===== src/Search.antt =====
-- search/: lookup, tokenization and predicates over the compressed codes.
pub mod Lookup
pub mod Tokenize
pub mod Equals
pub mod Prefix
pub mod Frequency
pub mod Automaton
pub mod Cover
pub mod Substring
pub mod Build
