-- ===== src/Encoding.antt =====
-- encoding/: the input of training and encoding.
pub mod Config
pub mod Rows
pub mod Lanes
pub mod DictionaryMatcher
pub mod Parser
