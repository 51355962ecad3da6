-- ===== src/Encoding/Lanes/Invariant.antt =====
-- encoding/lanes.rs, `parse_batch`: what holds of a lane before and after every round.
use onpair.Common.{ℕ, ◌+◌, ◌-◌, ◌≤◌, ◌<◌, ◌≡◌, arith, List, ◌++◌, Bytes, length, take, dec_lt}
use onpair.Core.Types.{Token, usize_mod}
use onpair.Dictionary.View.{Tokens, AreBytes}
use onpair.Dictionary.Compact.{Offsets}
use onpair.Dictionary.Compact.Safety.{offset}
use onpair.Encoding.Lanes.{Lane}
use onpair.Encoding.Lanes.Segments.{span, GreedyTo, AreParsed, joined, ends}

-- The offsets of a batch: they ascend, and the last is inside the bytes, which are `u8` values.
pub record AreOffsets (bytes : Bytes) (offsets : Offsets) : Type 0 where
  pub are_bytes : AreBytes bytes
  pub some_offset : 0 < length offsets
  pub ascending : (i j : ℕ) → i ≤ j → j < length offsets → offset offsets i ≤ offset offsets j
  pub inside : offset offsets (length offsets - 1) ≤ length bytes
  pub small : length bytes < usize_mod
  pub few : length offsets < usize_mod

-- The bytes of a row.
abbrev pub row_of : Bytes → Offsets → ℕ → Bytes
row_of bytes offsets k = span bytes (offset offsets k) (offset offsets (k + 1))

-- The lane has parsed the rows from `bound` to `row` into `segs`, and a part of `row` into `cur`.
pub record IsLane (toks : Tokens) (bytes : Bytes) (offsets : Offsets) (lane : Lane) : Type 0 where
  pub segs : List (List Token)
  pub cur : List Token
  pub parsed : AreParsed toks (row_of bytes offsets) lane.bound lane.row segs
  pub until : lane.row ≤ lane.last_row
  pub last : lane.last_row < length offsets
  pub low : offset offsets lane.row ≤ lane.at
  pub high : lane.at ≤ lane.row_end
  pub ending : lane.row < lane.last_row → lane.row_end ≡ offset offsets (lane.row + 1)
  pub finished :
      lane.last_row ≤ lane.row
      → (lane.at ≡ lane.row_end) × (lane.at ≤ offset offsets lane.last_row) × (length cur ≡ 0)
  pub partial :
      lane.row < lane.last_row
      → GreedyTo toks (row_of bytes offsets lane.row) cur (span bytes lane.at lane.row_end)
  pub fits : lane.count + offset offsets lane.bound ≤ lane.at
  pub written : take lane.count lane.codes ≡ joined segs ++ cur
  pub counted : lane.count ≡ length (joined segs) + length cur
  pub codes_size : length lane.codes ≡ offset offsets lane.last_row - offset offsets lane.bound + 1
  pub ends_size : length lane.row_ends ≡ lane.last_row - lane.bound + 1
  pub ended : take (length segs) lane.row_ends ≡ ends 0 segs

module _ (toks : Tokens) (bytes : Bytes) (offsets : Offsets) (o : AreOffsets bytes offsets)
    (lane : Lane) (h : IsLane toks bytes offsets lane) where
  -- A lane does not leave its bytes.
  pub IsLane-at : lane.at ≤ offset offsets lane.last_row
  IsLane-at = elim (dec_lt lane.row lane.last_row) [
    | yes running ↦ omega (
      arith,
      h.high,
      h.ending running,
      o.ascending (lane.row + 1) lane.last_row (omega arith) h.last,
    )
    | no over ↦ let f = h.finished (omega arith) in f.1
  ]

  pub IsLane-row_end : lane.row_end ≤ length bytes
  IsLane-row_end =
      let whole =
        o.ascending lane.last_row (length offsets - 1) (omega (arith, h.last))
          (omega (arith, o.some_offset)) in
      elim (dec_lt lane.row lane.last_row) [
        | yes running ↦ omega (
          arith,
          h.ending running,
          o.ascending (lane.row + 1) lane.last_row (omega arith) h.last,
          o.inside,
        )
        | no over ↦ let f = h.finished (omega arith) in omega (arith, f.0, f.1, o.inside)
      ]
  -- The bytes and rows that are left.

abbrev pub to_do : Offsets → Lane → ℕ
to_do offsets lane = offset offsets lane.last_row - lane.at + (lane.last_row - lane.row)
