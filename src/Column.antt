-- ===== src/Column.antt =====
-- column/mod.rs: the compressed column, its rows, and the row predicates.
pub mod Select
pub mod Containing
pub mod Rows
use onpair.Common.{
  ℕ, zero, suc, ◌+◌, ◌-◌, Bool, true, false, Option, some, none, List, [], ◌∷◌, Bytes, leb,
  if◌then◌else◌, length, get_elem?, take, drop, ◌&&◌, ◌>>=◌,
}
use onpair.Core.Types.{Token}
use onpair.Core.Validate.InvalidColumn.{bad_row_offsets}
use onpair.Dictionary.View.{DictionaryView}
use onpair.Dictionary.Compact
use onpair.Dictionary.Compact.{CompactDictionary}
use onpair.Dictionary.Wide
use onpair.Decoding
use onpair.Decoding.{Run, done, panic, access, decompress_into, decompress_into_unchecked}
use onpair.Search.Tokenize.{tokenize}
use onpair.Search.Equals.{equals}
use onpair.Search.Prefix
use onpair.Search.Substring.{row_contains}
use onpair.Search.Build.{Prepared, prepared, refused, new_dfa}
use onpair.Search.Prefix.{PrefixQuery, starts_with}

-- The owned column, and the view that borrows its buffers. A row offset is a `u32` or a `u64`.
pub record Column : Type 0 where
  pub dict : CompactDictionary
  pub codes : List Token
  pub row_offsets : List ℕ

module _ (column : Column) where
  abbrev pub num_rows : ℕ
  num_rows = length column.row_offsets - 1

  -- Indexing panics out of bounds; so do row offsets that decrease or reach past the codes.
  unfoldable pub row_codes : ℕ → Option (List Token)
  row_codes k = do
    a ← get_elem? column.row_offsets k
    b ← get_elem? column.row_offsets (k + 1)
    if leb a b && leb b (length column.codes)
        then some (take (b - a) (drop a column.codes))
        else none

  -- `(0..num_rows).filter(..)`: the first argument counts the rows left.
  unfoldable pub select_loop : (List Token → Option Bool) → ℕ → ℕ → Option (List ℕ)
  select_loop pred zero k = some []
  select_loop pred (suc left) k = do
    codes ← row_codes k
    keep ← pred codes
    rest ← select_loop pred left (k + 1)
    some (if keep then k ∷ rest else rest)

  unfoldable pub select : (List Token → Option Bool) → Option (List ℕ)
  select pred = select_loop pred num_rows 0

  unfoldable pub rows_equal_to : Bytes → Option (List ℕ)
  rows_equal_to needle = do
    query ← tokenize needle (Compact.as_view column.dict)
    select (λ codes. some (equals codes query))

  unfoldable pub rows_starting_with : Bytes → Option (List ℕ)
  rows_starting_with prefix = do
    query ← Prefix.new prefix (Compact.as_view column.dict)
    select (λ codes. starts_with codes query)

  unfoldable pub rows_containing : Bytes → Option (Prepared (List ℕ))
  rows_containing pattern = elim (new_dfa pattern (Compact.as_view column.dict)) [
    | none ↦ none
    | some (refused e) ↦ some (refused e)
    | some (prepared dfa) ↦ do rows ← select (λ codes. row_contains codes dfa); some (prepared rows)
  ]

  -- The whole column, through the wide form.
  unfoldable pub decompress_column_into : Bytes → Run (Bytes × ℕ)
  decompress_column_into out =
      Decoding.◌>>=◌ (access (Wide.to_wide column.dict))
        (λ wide. decompress_into (Wide.as_view wide) column.codes out)

  unfoldable pub decompress_column_into_unchecked : Bytes → Run (Bytes × ℕ)
  decompress_column_into_unchecked out =
      Decoding.◌>>=◌ (access (Wide.to_wide column.dict))
        (λ wide. decompress_into_unchecked (Wide.as_view wide) column.codes out)

  -- The panic of `row_codes` as an outcome.
  abbrev pub row_or_panic : ℕ → Run (List Token)
  row_or_panic k = elim (row_codes k) [ none ↦ panic bad_row_offsets | some codes ↦ done codes ]

  -- One row, on the compact form.
  unfoldable pub decompress_row_into : ℕ → Bytes → Run (Bytes × ℕ)
  decompress_row_into k out =
      Decoding.◌>>=◌ (row_or_panic k)
        (λ codes. decompress_into (Compact.as_view column.dict) codes out)

  unfoldable pub decompress_row_into_unchecked : ℕ → Bytes → Run (Bytes × ℕ)
  decompress_row_into_unchecked k out =
      Decoding.◌>>=◌ (row_or_panic k)
        (λ codes. decompress_into_unchecked (Compact.as_view column.dict) codes out)
