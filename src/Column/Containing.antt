-- ===== src/Column/Containing.antt =====
-- column/mod.rs, `rows_containing`: the rows that contain the pattern, whatever the dictionary.
use onpair.Common.{◌≤◌, ◌<◌, ◌≡◌, ◌∙◌, ◌⊎◌, inl, inr, some, List, refl, ap, Bytes, length}
use onpair.Dictionary.View.{Tokens, IsSorted}
use onpair.Dictionary.Compact
use onpair.Search.Tokenize.Greedy.{IsGreedy-decode}
use onpair.Search.Automaton.{max_pattern_len}
use onpair.Search.Automaton.Occurs.{occurs}
use onpair.Search.Substring.{row_contains}
use onpair.Search.Build.{pattern_too_long, prepared, refused}
use onpair.Search.Build.Exact.{new_dfa-Compiles}
use onpair.Column.{Column, rows_containing}
use onpair.Column.Rows.{IsGreedy-InRange}
use onpair.Column.Select.{Encodes, indices, select-indices}

module _ (toks : Tokens) (column : Column) (rows : List Bytes) (enc : Encodes toks column rows)
    (sorted : IsSorted toks) where
  -- On a greedily encoded column over a sorted dictionary, rows_containing does not panic: it
  -- refuses a pattern of more than 255 bytes, and for any other returns the ascending indices of
  -- exactly the rows that contain it.
  pub rows_containing-indices :
      (pattern : Bytes)
      → ((length pattern ≤ max_pattern_len)
          × (rows_containing column pattern ≡ some (prepared (indices (occurs pattern) 0 rows))))
        ⊎ ((max_pattern_len < length pattern)
            × (rows_containing column pattern
                ≡ some (refused (pattern_too_long (length pattern) max_pattern_len))))
  unfolding rows_containing
  rows_containing-indices pattern =
      elim (new_dfa-Compiles (Compact.as_view column.dict) toks enc.view sorted pattern) [
        | inr (long, e) ↦ inr (long, rw (rows_containing, e) refl)
        | inl (short, (dfa, e, decides)) ↦
            let found =
              select-indices toks column (λ codes. row_contains codes dfa) (occurs pattern)
                (λ row codes g.
                  decides codes (IsGreedy-InRange toks row codes g)
                  ∙ ap (λ (s : Bytes). some (occurs pattern s)) (IsGreedy-decode toks row codes g))
                rows enc in
            inl (short, rw (rows_containing, e, found) refl)
      ]
