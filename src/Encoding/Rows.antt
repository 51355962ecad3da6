-- ===== src/Encoding/Rows.antt =====
-- encoding/rows.rs: the trait `Rows`, with the rows of an Arrow pair and of a list, and
-- `validate_offsets` of encoding/parser.rs.
pub mod Arrow
use onpair.Common.{
  ℕ, zero, suc, ◌+◌, ◌-◌, Bool, Option, some, none, List, [], ◌∷◌, Bytes, ltb, if◌then◌else◌,
  length, get_elem?, ◌>>=◌,
}
use onpair.Core.Types.{usize_mod}
use onpair.Dictionary.Compact.{Offsets, slice}
use onpair.Decoding.{sub64}
use onpair.Encoding.Config.{Fallible, ok, err, invalid_arg}

-- The methods; `none` is the panic of an index out of bounds.
pub record Rows : Type 0 where
  pub num_rows : ℕ
  pub total_bytes : Option ℕ
  pub row : ℕ → Option Bytes

abbrev pub arrow_total : Offsets → Option ℕ
arrow_total offsets = do
  first ← get_elem? offsets 0
  last ← get_elem? offsets (length offsets - 1)
  some (sub64 last first)

abbrev pub arrow_row : Bytes → Offsets → ℕ → Option Bytes
arrow_row bytes offsets i = do
  start ← get_elem? offsets i
  end ← get_elem? offsets (i + 1)
  slice bytes start end

-- `ArrowRows`.
unfoldable pub arrow_rows : Bytes → Offsets → Rows
arrow_rows bytes offsets = record {
  num_rows = sub64 (length offsets) 1;
  total_bytes = arrow_total offsets;
  row = arrow_row bytes offsets;
}

abbrev pub sum_lengths : List Bytes → ℕ
sum_lengths [] = 0
sum_lengths (r ∷ rows) = length r + sum_lengths rows

-- `impl Rows for [T]`.
unfoldable pub slice_rows : List Bytes → Rows
slice_rows rows = record {
  num_rows = length rows;
  total_bytes = some (sum_lengths rows);
  row = λ i. get_elem? rows i;
}

-- `validate_offsets` in release: the debug assertion is not part of it.
unfoldable pub validate_offsets : Bytes → Offsets → Fallible (Unit {0})
validate_offsets bytes offsets = elim (get_elem? offsets (length offsets - 1)) [
  | none ↦ err invalid_arg
  | some last ↦ if ltb (length bytes) last then err invalid_arg else ok tt
]
