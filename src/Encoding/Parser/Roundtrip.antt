-- ===== src/Encoding/Parser/Roundtrip.antt =====
-- encoding/parser.rs and column/mod.rs: a row that was encoded decodes to its bytes.
use onpair.Common.{
  ℕ, suc, ◌+◌, ◌-◌, ◌*◌, ◌≤◌, ◌<◌, ◌≡◌, ◌∙◌, inl, inr, ap, some, [], arith, Bytes, length, take,
  get_or,
}
use onpair.Core.Types.{usize_mod}
use onpair.Dictionary.View.{Tokens, Represents, IsSorted, AreBytes}
use onpair.Dictionary.Compact
use onpair.Dictionary.Compact.{Offsets}
use onpair.Dictionary.Compact.Safety.{offset}
use onpair.Dictionary.Compact.Access.{tokens_of, length-tokens_of, tok-tokens_of}
use onpair.Decoding.{done}
use onpair.Column.{Column, decompress_row_into}
use onpair.Column.Rows.{decompress_row_into-row}
use onpair.Encoding.Config.{ok}
use onpair.Encoding.Rows.Arrow.{IsMonotone}
use onpair.Encoding.Lanes.Segments.{span}
use onpair.Encoding.Lanes.Finder.{IsMatcher}
use onpair.Encoding.Parser.{Parser, parse}
use onpair.Encoding.Parser.Encodes.{parse-Encodes}

module _ (parser : Parser) (toks : Tokens) (rep : Represents (Compact.as_view parser.dict) toks)
    (sorted : IsSorted toks) (m : IsMatcher toks parser.lpm) (num_lanes : ℕ)
    (some_lane : 0 < num_lanes) (offset_mod : ℕ) (bytes : Bytes) (are_bytes : AreBytes bytes)
    (offsets : Offsets) (ascend : IsMonotone offsets) (few : length offsets < usize_mod)
    (fits : length bytes * num_lanes < usize_mod)
    (narrow : offset offsets (length offsets - 1) < offset_mod) where
  -- Under the conditions of encoding a valid pair, and for a row of it that fits an output buffer
  -- of fewer than 2^64 bytes, decompress_row_into of the parsed column gives the bytes of the
  -- row.
  pub parse-decompress_row_into :
      (k : ℕ) (out : Bytes)
      → k + 1 < length offsets
      → offset offsets (length offsets - 1) ≤ length bytes
      → length (span bytes (offset offsets k) (offset offsets (k + 1))) ≤ length out
      → length out < usize_mod
      → (column : Column) × (parse num_lanes offset_mod parser bytes offsets ≡ some (ok column))
        × ((r : Bytes × ℕ) × (decompress_row_into column k out ≡ done r)
            × (take r.1 r.0 ≡ span bytes (offset offsets k) (offset offsets (k + 1))))
  parse-decompress_row_into k out l u room small =
      let next : offset offsets (suc k) ≡ offset offsets (k + 1) =
        ap (offset offsets) (omega arith) in
      let row : get_or (tokens_of bytes offsets) k []
          ≡ span bytes (offset offsets k) (offset offsets (k + 1)) =
        tok-tokens_of bytes offsets k (omega arith) ∙ ap (span bytes (offset offsets k)) next in
      elim (parse-Encodes parser toks rep sorted m num_lanes some_lane offset_mod bytes are_bytes
        offsets ascend few fits narrow) [
          | inr (inl bad, e) ↦ absurd (omega arith)
          | inr (inr bad, e) ↦ absurd (omega arith)
          | inl (some_offset, inside, (column, e, enc)) ↦
              elim (decompress_row_into-row toks column (tokens_of bytes offsets) k out enc
                (omega (arith, length-tokens_of bytes offsets)) small) [
                  | inl (fit, (r, q, t)) ↦ (column, e, (r, q, t ∙ row))
                  | inr (short, q) ↦ absurd (omega (arith, ap length row))
                ]
        ]
