-- ===== src/Tests.antt =====
-- Concrete dictionaries and columns, and the theorems of the other modules applied to them.
mod Data
mod Dictionary
mod Search
mod Frequency
mod Automaton
mod Encoding
mod Cover
mod Substring
mod Decoding
mod Column
mod Parser
mod Frozen
