-- ===== src/Encoding/Parser.antt =====
-- encoding/parser.rs: the trained encoder, and encoding an Arrow pair.
pub mod Encodes
pub mod Roundtrip
pub mod Frozen
use onpair.Common.{ℕ, Option, some, none, List, [], ◌∷◌, Bytes, ◌>>=◌}
use onpair.Dictionary.Compact.{CompactDictionary, Offsets}
use onpair.Encoding.Config.{Fallible, ok, err}
use onpair.Encoding.Rows.{validate_offsets}
use onpair.Encoding.Lanes.{Matcher, Encoded, parse_arrow}
use onpair.Column.{Column}

pub record Parser : Type 0 where
  pub dict : CompactDictionary
  pub lpm : Matcher

-- `offset_mod` is 2^32 or 2^64, by the width of the row offsets.
module _ (num_lanes offset_mod : ℕ) (parser : Parser) where
  unfoldable pub parse_unchecked : Bytes → Offsets → Option Column
  parse_unchecked bytes offsets = do
    out ←
        parse_arrow parser.lpm num_lanes offset_mod bytes offsets
          (record { codes = []; row_offsets = 0 ∷ [] })
    some (record { dict = parser.dict; codes = out.codes; row_offsets = out.row_offsets })

  -- `none` is a panic.
  unfoldable pub parse : Bytes → Offsets → Option (Fallible Column)
  parse bytes offsets = elim (validate_offsets bytes offsets) [
    | err e ↦ some (err e)
    | ok _ ↦ do column ← parse_unchecked bytes offsets; some (ok column)
  ]
