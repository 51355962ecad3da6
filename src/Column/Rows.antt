-- ===== src/Column/Rows.antt =====
-- column/mod.rs, decompression: a row of an encoded column decodes to the original row, and the
-- whole column decodes through the wide form.
use onpair.Common.{
  ℕ, ◌*◌, ◌≤◌, ◌<◌, ◌≡◌, ◌⊎◌, ◌∙◌, some, List, [], ◌∷◌, arith, ap, Bytes, length, get_or, take, inl,
  inr,
}
use onpair.Core.Types.{Token, usize_mod, max_token_size}
use onpair.Dictionary.View.{Tokens}
use onpair.Dictionary.Compact
use onpair.Dictionary.Compact.{from_raw}
use onpair.Dictionary.Compact.Safety.{AreU32, IsSafe}
use onpair.Dictionary.Compact.Access.{tokens_of}
use onpair.Dictionary.Wide
use onpair.Dictionary.Wide.Build.{to_wide-Represents}
use onpair.Search.Tokenize.Greedy.{IsGreedy, IsGreedy-decode, decode}
use onpair.Decoding.{done, output_too_small}
use onpair.Decoding.Loops.{InRange, Decodes}
use onpair.Decoding.Fits.{
  decompress_into_total, decompress_into-Decodes, decompress_into_unchecked-Decodes,
}
use onpair.Column.{
  Column, row_codes, row_or_panic, decompress_row_into, decompress_column_into,
  decompress_column_into_unchecked,
}
use onpair.Column.Select.{Encodes}

-- Greedy codes index the dictionary.
pub IsGreedy-InRange :
    (toks : Tokens) (s : Bytes) (codes : List Token) → IsGreedy toks s codes → InRange toks codes
IsGreedy-InRange toks s [] g = tt
IsGreedy-InRange toks s (c ∷ codes) g = (g.0.0, IsGreedy-InRange toks _ codes g.1)

row_done :
    (column : Column) (k : ℕ) (codes : List Token)
    → row_codes column k ≡ some codes
    → row_or_panic column k ≡ done codes
row_done column k codes e = ground arith

-- Row k, in range, of a greedily encoded column decodes to the bytes of the original row if they
-- fit the buffer of fewer than 2^64 bytes, and is refused with OutputTooSmall otherwise.
pub decompress_row_into-row :
    (toks : Tokens) (column : Column) (rows : List Bytes) (k : ℕ) (out : Bytes)
    → Encodes toks column rows
    → k < length rows
    → length out < usize_mod
    → ((length (get_or rows k []) ≤ length out)
        × ((r : Bytes × ℕ) × (decompress_row_into column k out ≡ done r)
            × (take r.1 r.0 ≡ get_or rows k [])))
      ⊎ ((length out < length (get_or rows k []))
          × (decompress_row_into column k out ≡ output_too_small))
unfolding decompress_row_into
decompress_row_into-row toks column rows k out enc l small =
    let (codes, e, g) = enc.row_lem k l in
    let d : decode toks codes ≡ get_or rows k [] = IsGreedy-decode toks _ codes g in
    elim (decompress_into_total (Compact.as_view column.dict) toks codes out enc.view
      (IsGreedy-InRange toks _ codes g) small) [
        | inl (fits, (r, q, t)) ↦
            inl (omega (arith, ap length d), (r, rw (row_done column k codes e) q, t ∙ d))
        | inr (short, q) ↦ inr (omega (arith, ap length d), rw (row_done column k codes e) q)
      ]

module _ (bytes : Bytes) (offsets row_offsets : List ℕ) (codes : List Token) (u : AreU32 offsets)
    (s : IsSafe bytes offsets) where
  abbrev column : Column
  column = record { dict = from_raw bytes offsets; codes = codes; row_offsets = row_offsets }

  -- On a column with safe dictionary buffers and u32 offsets, and for a buffer of fewer than 2^64
  -- bytes, decompress_into through the wide dictionary never accesses memory out of bounds, and
  -- ends as the decoder promises.
  pub decompress_column_into-Decodes :
      (out : Bytes)
      → length out < usize_mod
      → Decodes (tokens_of bytes offsets) (length out) [] codes (decompress_column_into column out)
  unfolding decompress_column_into
  decompress_column_into-Decodes out small =
      let (w, e, rep) = to_wide-Represents bytes offsets u s in
      rw e (decompress_into-Decodes (Wide.as_view w) (tokens_of bytes offsets) rep codes out small)

  decompress_column_into_unchecked-Decodes :
      (out : Bytes)
      → max_token_size * length codes ≤ length out
      → Decodes
          (tokens_of bytes offsets)
          (length out)
          []
          codes
          (decompress_column_into_unchecked column out)
  unfolding decompress_column_into_unchecked
  decompress_column_into_unchecked-Decodes out room =
      let (w, e, rep) = to_wide-Represents bytes offsets u s in
      rw e (
        decompress_into_unchecked-Decodes (Wide.as_view w) (tokens_of bytes offsets) rep codes out
          room)
