-- ===== src/Tests/Column.antt =====
-- The column theorems, on the rows `abba`, the empty row, and `ba`.
use onpair.Common.{
  ℕ, zero, suc, ◌≡◌, ◌⊎◌, ◌<◌, ◌≤◌, [], ◌∷◌, List, refl, arith, some, Bytes, take, replicate,
  get_or,
}
use onpair.Core.Types.{Token}
use onpair.Search.Tokenize.Greedy.{IsGreedy}
use onpair.Decoding.{done, output_too_small}
use onpair.Decoding.Loops.{Decodes}
use onpair.Column.{
  Column, row_codes, rows_containing, rows_equal_to, rows_starting_with, decompress_row_into,
  decompress_column_into,
}
use onpair.Column.Select.{Encodes, rows_equal_to-indices, rows_starting_with-indices}
use onpair.Column.Containing.{rows_containing-indices}
use onpair.Search.Automaton.{max_pattern_len}
use onpair.Search.Build.{pattern_too_long, prepared, refused}
use onpair.Column.Rows.{decompress_row_into-row, decompress_column_into-Decodes}
use onpair.Tests.Data.{
  alphabet, alphabet_dict, alphabet_bytes, alphabet_offsets, alphabet-AreU32, alphabet-laws,
  alphabet-Represents, abba, ab, ba, abba-IsGreedy, ba-IsGreedy, ab-AreBytes, ba-AreBytes,
}

abbrev codes : List Token
codes = 98 ∷ 99 ∷ 97 ∷ 99 ∷ 97 ∷ []

abbrev column : Column
column = record { dict = alphabet_dict; codes = codes; row_offsets = 0 ∷ 3 ∷ 3 ∷ 5 ∷ [] }

abbrev rows : List Bytes
rows = abba ∷ [] ∷ ba ∷ []

column-row :
    (k : ℕ)
    → k < 3
    → (codes : List Token) × (row_codes column k ≡ some codes)
      × IsGreedy alphabet (get_or rows k []) codes
unfolding row_codes
column-row zero l = (98 ∷ 99 ∷ 97 ∷ [], refl, abba-IsGreedy)
column-row (suc zero) l = ([], refl, refl)
column-row (suc (suc zero)) l = (99 ∷ 97 ∷ [], refl, ba-IsGreedy)
column-row (suc (suc (suc k))) l = absurd (omega (arith, l))

column-Encodes : Encodes alphabet column rows
column-Encodes = record { view = alphabet-Represents; count = refl; row_lem = column-row }

rows_equal_to-indices_example : rows_equal_to column ba ≡ some (2 ∷ [])
rows_equal_to-indices_example =
    rows_equal_to-indices alphabet column rows column-Encodes alphabet-laws.1 alphabet-laws.2 ba
      ba-AreBytes

rows_starting_with-indices_example : rows_starting_with column ab ≡ some (0 ∷ [])
rows_starting_with-indices_example =
    rows_starting_with-indices alphabet column rows column-Encodes alphabet-laws.1 alphabet-laws.2
      ab ab-AreBytes

decompress_row_into-row_example :
    ((4 ≤ 7)
      × ((r : Bytes × ℕ) × (decompress_row_into column 0 (replicate 7 0) ≡ done r)
          × (take r.1 r.0 ≡ abba)))
    ⊎ ((7 < 4) × (decompress_row_into column 0 (replicate 7 0) ≡ output_too_small))
decompress_row_into-row_example =
    decompress_row_into-row alphabet column rows 0 (replicate 7 0) column-Encodes (ground arith)
      (ground arith)

decompress_column_into-Decodes_example :
    Decodes alphabet 7 [] codes (decompress_column_into column (replicate 7 0))
decompress_column_into-Decodes_example =
    decompress_column_into-Decodes alphabet_bytes alphabet_offsets (0 ∷ 3 ∷ 3 ∷ 5 ∷ []) codes
      alphabet-AreU32 alphabet-laws.0 (replicate 7 0) (ground arith)

rows_containing-indices_example :
    ((1 ≤ max_pattern_len) × (rows_containing column (98 ∷ []) ≡ some (prepared (0 ∷ 2 ∷ []))))
    ⊎ ((max_pattern_len < 1)
        × (rows_containing column (98 ∷ []) ≡ some (refused (pattern_too_long 1 max_pattern_len))))
rows_containing-indices_example =
    rows_containing-indices alphabet column rows column-Encodes alphabet-laws.1 (98 ∷ [])
