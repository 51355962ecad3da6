-- ===== src/Encoding/Parser/Frozen.antt =====
-- encoding/parser.rs: the parser of a dictionary with the matcher that is built from it.
use onpair.Common.{ℕ, ◌+◌, ◌-◌, ◌*◌, ◌≤◌, ◌<◌, ◌≡◌, some, Bytes, length, take}
use onpair.Core.Types.{usize_mod}
use onpair.Dictionary.View.{Tokens, tok, Represents, IsSorted, IsComplete, AreBytes}
use onpair.Dictionary.Compact
use onpair.Dictionary.Compact.{CompactDictionary, Offsets}
use onpair.Dictionary.Compact.Safety.{offset}
use onpair.Decoding.{done}
use onpair.Column.{Column, decompress_row_into}
use onpair.Encoding.Config.{ok}
use onpair.Encoding.Rows.Arrow.{IsMonotone}
use onpair.Encoding.Lanes.Segments.{span}
use onpair.Encoding.DictionaryMatcher.{DictionaryMatcher, from_dictionary}
use onpair.Encoding.DictionaryMatcher.Find.{matcher_of}
use onpair.Encoding.DictionaryMatcher.Promise.{from_dictionary-IsMatcher}
use onpair.Encoding.Parser.{Parser, parse}
use onpair.Encoding.Parser.Roundtrip.{parse-decompress_row_into}

-- The parser that pairs a dictionary with its matcher.
abbrev pub paired : CompactDictionary → DictionaryMatcher → Parser
paired dict m = record { dict = dict; lpm = matcher_of m }

module _ (dict : CompactDictionary) (toks : Tokens) (rep : Represents (Compact.as_view dict) toks)
    (sorted : IsSorted toks) (complete : IsComplete toks)
    (token_bytes : (i : ℕ) → i < length toks → AreBytes (tok toks i)) (num_lanes : ℕ)
    (some_lane : 0 < num_lanes) (offset_mod : ℕ) (bytes : Bytes) (are_bytes : AreBytes bytes)
    (offsets : Offsets) (ascend : IsMonotone offsets) (few : length offsets < usize_mod)
    (fits : length bytes * num_lanes < usize_mod)
    (narrow : offset offsets (length offsets - 1) < offset_mod) where
  -- For a strictly sorted dictionary of u8 tokens with every single byte, any positive number of
  -- lanes, u8 bytes, and offsets that do not decrease, end inside the bytes and whose last fits
  -- the row offsets, with the bytes times the lanes and the offsets below 2^64: from_dictionary
  -- gives a matcher, parse of the parser of the two gives a column, and for a row that fits an
  -- output buffer of fewer than 2^64 bytes, decompress_row_into of the column gives the bytes of
  -- the row.
  pub from_dictionary-decompress_row_into :
      (k : ℕ) (out : Bytes)
      → k + 1 < length offsets
      → offset offsets (length offsets - 1) ≤ length bytes
      → length (span bytes (offset offsets k) (offset offsets (k + 1))) ≤ length out
      → length out < usize_mod
      → (m : DictionaryMatcher) × (from_dictionary (Compact.as_view dict) ≡ some m)
        × ((column : Column) × (parse num_lanes offset_mod (paired dict m) bytes offsets
              ≡ some (ok column))
            × ((r : Bytes × ℕ) × (decompress_row_into column k out ≡ done r)
                × (take r.1 r.0 ≡ span bytes (offset offsets k) (offset offsets (k + 1)))))
  from_dictionary-decompress_row_into k out l u room small =
      let (m, e, good) =
        from_dictionary-IsMatcher toks (Compact.as_view dict) rep sorted complete token_bytes in
      (
        m,
        e,
        parse-decompress_row_into (paired dict m) toks rep sorted good num_lanes some_lane
            offset_mod bytes are_bytes offsets ascend few fits narrow k out l u room small,
      )
