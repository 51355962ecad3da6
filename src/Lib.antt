-- ===== src/Lib.antt =====
-- Verification of OnPair, a dictionary compressor for columns of short byte strings. A column is a
-- dictionary of tokens (byte strings of 1 to 16 bytes), a stream of `u16` codes that index it, and
-- row offsets into the stream. Encoding replaces each row by the codes of its greedy segmentation;
-- decoding copies tokens; equality, prefix and substring search work on the codes.
--
-- Files and the code that they model:
-- - Core/Types: src/core/types.rs (`Token`, `MAX_TOKEN_SIZE`, `TokenRange`), with the wrap-around
--   of `u16` and `u32` written out. Core/Validate: `InvalidColumn` of src/core/validate.rs.
-- - Dictionary/View: the trait `DictionaryView` of src/core/dictionary/mod.rs, as a record of its
--   methods, and `Represents`, what such a view promises of a token table. The decoder and the
--   search take any view with that promise.
-- - Dictionary/Compact: src/core/dictionary/compact.rs (`pad_raw`, `validate_safety`,
--   `validate_conformance`, `validate`, `CompactDictionaryView`). Its children: Safety and Violation
--   (what the structural check accepts and what its errors mean), Padding, Access (the view), Scan,
--   Alphabet and Conformance (the token contents), Payload (`token_payload`) and Width (`code_bits`).
-- - Dictionary/Wide: src/core/dictionary/wide.rs, and `to_wide`. Build is the conversion; Check,
--   Fill and Agree are `WideDictionary::validate_safety`, which validates and builds in one pass.
-- - Decoding: src/decoding/mod.rs and src/decoding/copy.rs. The output buffer is a list of bytes and
--   a cursor, and every load and store is checked against the lengths, so `fault` is undefined
--   behaviour of the source. Copy and Exact: the copies; Loops, Fits, Padded: the decoders.
-- - Search/Lookup, Search/Tokenize, Search/Equals, Search/Prefix: src/search/lookup.rs,
--   tokenize.rs, equals.rs and prefix.rs. Search/Frequency: src/search/index/frequency.rs.
-- - Search/Automaton: the byte automaton of src/search/substring/dfa.rs. Matches and Occurs say what
--   a text ends with and contains; Fallback and Failure are `kmp_failure`, Fall and Steps `step_bytes`.
-- - Search/Substring: `ContainsDfa`, `next` and `row_contains` of src/search/substring/dfa.rs, over the
--   interface `IsTable`, which says what compiling a pattern is to give.
-- - Search/Build: `ContainsDfa::new` and the passes of `Build`. Emit and Grown: recording exceptions;
--   Advance, Accept, Subtree, Depth and Traverse: `traverse`; Sorting, Relevant, Pending and Visit: the
--   bytes of a failure chain; Base, Slices and Table: the two passes; Exact: the automaton.
-- - Search/Cover: the normal form of probe covers, src/search/substring/probe/cover.rs; Merge is about
--   sorting and merging the runs, Halving about the binary searches, which are the standard library's.
-- - Encoding: the input of the encoder. Rows: src/encoding/rows.rs and `validate_offsets` of
--   src/encoding/parser.rs; Config: `MaxDictBits` and the error of src/encoding/config.rs.
-- - Encoding/Lanes: src/encoding/lanes.rs. The matcher is the record `Matcher`, and what the lanes need
--   of it is `IsMatcher`. Segments and Invariant say what a lane has done; Code, End, Rounds and Loop
--   are the rounds, Finder the matcher's answers, Bounds the split, Join and Batches the result.
-- - Encoding/DictionaryMatcher: src/encoding/dictionary_matcher.rs; Find is `find_all`. Keys, Bits and
--   Prefixes are about the keys, Chains, Records and Pads about the prefix tokens of a token and of a
--   pad, Built, Sorted, Counts and Frozen about what `from_dictionary` builds, Start, Placed, Covering
--   and Matched about the search, Promise its answers.
-- - Encoding/Parser: `Parser::parse` of src/encoding/parser.rs. Encodes and Roundtrip compose it with
--   the column, Frozen with the matcher of the dictionary.
-- - Column: src/column/mod.rs (`ColumnView`). Select and Containing are row search, Rows is
--   decompression.
-- - Common: byte strings, lists, tests and memory over the native numbers.
-- - Tests: concrete dictionaries and columns to which the theorems are applied.
--
-- A fallible step returns `Option`, where `none` is a panic or an access out of bounds, or a result
-- type with the source's errors. `usize` is 64 bits wide; a `u8`, `u16` or `u32` value is a number,
-- and theorems that need its bound state it (`AreBytes`, `AreU32`).
--
-- Loops that are not structural run on fuel: the binary searches of `narrow` get the width of their
-- range and one more, `tokenize` one round per byte and one more, the batches of
-- `decompress_into` one round per code and one more, `kmp_failure` two rounds per byte of the pattern
-- and one more, falling back and the failure chain the state and one more, `traverse` the 16 bytes of a token,
-- the loops over a token range its width and two more, the
-- binary searches of a cover the length of the slice, the
-- the slots of a block 4 rounds for 3 halvings, the
-- rounds of the lanes the bytes and rows of the batch and one more, `parse_arrow` one batch per row, `ilog2` the 32 bits of its argument, and
-- `to_wide`, the frequency sums and `select` one round per element. The theorems on these functions
-- state results, so the fuel is enough.
--
-- Not modelled: the trainer with its own matcher, and `parse_rows` (src/encoding). The lanes take the
-- matcher's promise `IsMatcher`, which the frozen matcher keeps, and theorems on
-- stored codes assume them greedy where they need it (`Encodes`, `IsGreedy`); the probe scan of
-- substring search (src/search/substring); the text of error messages.
pub mod Common
pub mod Core
pub mod Dictionary
pub mod Search
pub mod Decoding
pub mod Encoding
pub mod Column
mod Tests
