-- ===== src/Encoding/Lanes.antt =====
-- encoding/lanes.rs: interleaved greedy parsing. The matcher is an interface; buffers are cleared
-- before they are read, so a batch takes none.
pub mod Segments
pub mod Invariant
pub mod Code
pub mod End
pub mod Rounds
pub mod Finder
pub mod Loop
pub mod Bounds
pub mod Join
pub mod Batches
use onpair.Common.{
  ℕ, zero, suc, ◌+◌, ◌-◌, ◌*◌, ◌/◌, ◌%◌, min, max, Bool, true, false, ◌&&◌, ◌||◌, Option, some,
  none, List, [], ◌∷◌, ◌++◌, map, Bytes, ltb, leb, ◌==◌, if◌then◌else◌, length, get_elem?, set, put,
  take, drop, replicate, ◌>>=◌,
}
use onpair.Core.Types.{Token, usize_mod, max_token_size}
use onpair.Dictionary.Compact.{Offsets}
use onpair.Decoding.{sub64}

-- `DictionaryMatcher::find_all`: for each position and window, the token and its length.
pub record Matcher : Type 0 where
  pub find_all : Bytes → List ℕ → List ℕ → Option (List (Token × ℕ))

-- `offsets.partition_point(|o| o < target)`, on ascending offsets.
abbrev pub below_count : Offsets → ℕ → ℕ
below_count [] target = 0
below_count (o ∷ offsets) target = if ltb o target then suc (below_count offsets target) else 0

-- The state of one lane: its slices of the arrays, and its buffers. `bound` is `bounds[j]`.
pub record Lane : Type 0 where
  pub bound : ℕ
  pub at : ℕ
  pub row_end : ℕ
  pub row : ℕ
  pub last_row : ℕ
  pub count : ℕ
  pub codes : List Token
  pub row_ends : List ℕ

-- `bounds[j]`: the bytes are split evenly, at row boundaries.
unfoldable pub lane_bound : ℕ → Offsets → ℕ → ℕ → ℕ → ℕ
lane_bound num_lanes offsets first total j =
    let n = length offsets - 1 in
    if j == 0
    then 0
    else if j == num_lanes
    then n
    else min (below_count offsets (first + total * j % usize_mod / num_lanes)) n

-- A lane for the rows `r0..r1`.
unfoldable pub start_lane : Offsets → ℕ → ℕ → Option Lane
start_lane offsets r0 r1 = do
  start ← get_elem? offsets r0
  end ← if ltb r0 r1 then get_elem? offsets (r0 + 1) else some start
  stop ← get_elem? offsets r1
  some (record {
    bound = r0;
    at = start;
    row_end = end;
    row = r0;
    last_row = r1;
    count = 0;
    codes = replicate (sub64 stop start + 1) 0;
    row_ends = replicate (sub64 r1 r0 + 1) 0;
  })

-- The lanes `j..num_lanes`; the first argument counts them.
unfoldable pub start_lanes : Offsets → (ℕ → ℕ) → ℕ → ℕ → Option (List Lane)
start_lanes offsets bounds zero j = some []
start_lanes offsets bounds (suc left) j = do
  lane ← start_lane offsets (bounds j) (bounds (j + 1))
  lanes ← start_lanes offsets bounds left (j + 1)
  some (lane ∷ lanes)

-- The window of a lane.
abbrev pub window : Lane → ℕ
window lane = min (max (sub64 lane.row_end lane.at) 1) max_token_size

abbrev pub is_running : Lane → Bool
is_running lane = ltb lane.row lane.last_row

abbrev pub is_active : Lane → Bool
is_active lane = ltb lane.at lane.row_end

-- The lane takes a code; an inactive one discards it.
unfoldable pub take_code : Lane → Token × ℕ → Option Lane
take_code lane found = do
  codes ← put lane.codes lane.count found.0
  some (record {
    bound = lane.bound;
    at = lane.at + (if is_active lane then found.1 else 0);
    row_end = lane.row_end;
    row = lane.row;
    last_row = lane.last_row;
    count = lane.count + (if is_active lane then 1 else 0);
    codes = codes;
    row_ends = lane.row_ends;
  })

-- The end of the current row is recorded, and a row that is used up ends.
unfoldable pub end_row : Offsets → Bool → Lane → Option Lane
end_row offsets running lane = do
  row_ends ← put lane.row_ends (sub64 lane.row lane.bound) lane.count
  let done = (lane.at == lane.row_end) && running
  let row = if done then lane.row + 1 else lane.row
  next_end ← get_elem? offsets (min (row + 1) (length offsets - 1))
  some (record {
    bound = lane.bound;
    at = lane.at;
    row_end = if done then if ltb row lane.last_row then next_end else lane.at else lane.row_end;
    row = row;
    last_row = lane.last_row;
    count = lane.count;
    codes = lane.codes;
    row_ends = row_ends;
  })

abbrev pub step_lane : Offsets → Lane → Token × ℕ → Option Lane
step_lane offsets lane found = take_code lane found >>= end_row offsets (is_running lane)

unfoldable pub step_lanes : Offsets → List Lane → List (Token × ℕ) → Option (List Lane)
step_lanes offsets [] found = some []
step_lanes offsets (lane ∷ lanes) [] = none
step_lanes offsets (lane ∷ lanes) (hit ∷ found) = do
  lane' ← step_lane offsets lane hit
  lanes' ← step_lanes offsets lanes found
  some (lane' ∷ lanes')

abbrev pub any_running : List Lane → Bool
any_running [] = false
any_running (lane ∷ lanes) = is_running lane || any_running lanes

module _ (matcher : Matcher) (bytes : Bytes) (offsets : Offsets) where
  -- `loop`, until a round in which no lane was running.
  unfoldable pub lanes_loop : ℕ → List Lane → Option (List Lane)
  lanes_loop zero lanes = none
  lanes_loop (suc fuel) lanes =
      elim (matcher.find_all bytes (map (λ (lane : Lane). lane.at) lanes) (map window lanes)) [
        | none ↦ none
        | some found ↦ elim (step_lanes offsets lanes found) [
          | none ↦ none
          | some lanes' ↦ elim (any_running lanes) [
            | true ↦ lanes_loop fuel lanes'
            | false ↦ some lanes'
          ]
        ]
      ]

-- The codes so far, and the ends of their rows.
pub record Encoded : Type 0 where
  pub codes : List Token
  pub row_offsets : List ℕ

-- `O::from_usize(base + end)`, in offsets below `offset_mod`.
abbrev pub rebase : ℕ → ℕ → List ℕ → List ℕ
rebase offset_mod base ends = map (λ end. (base + end) % offset_mod) ends

-- The lanes are joined in row order.
unfoldable pub join_lanes : ℕ → List Lane → Encoded → Option Encoded
join_lanes offset_mod [] out = some out
join_lanes offset_mod (lane ∷ lanes) out =
    let rows = sub64 lane.last_row lane.bound in
    if leb lane.count (length lane.codes) && leb rows (length lane.row_ends)
    then join_lanes offset_mod lanes (record {
      codes = out.codes ++ take lane.count lane.codes;
      row_offsets =
          out.row_offsets ++ rebase offset_mod (length out.codes) (take rows lane.row_ends);
    })
    else none

module _ (matcher : Matcher) (num_lanes offset_mod : ℕ) (bytes : Bytes) where
  -- A round moves every running lane by a byte or a row.
  unfoldable pub parse_batch : Offsets → Encoded → Option Encoded
  parse_batch offsets out = do
    first ← get_elem? offsets 0
    last ← get_elem? offsets (length offsets - 1)
    let total = sub64 last first
    lanes ← start_lanes offsets (lane_bound num_lanes offsets first total) num_lanes 0
    lanes' ← lanes_loop matcher bytes offsets (last + length offsets) lanes
    join_lanes offset_mod lanes' out

  -- `while start < n`, over batches of whole rows.
  unfoldable pub arrow_loop : Offsets → ℕ → ℕ → ℕ → Encoded → Option Encoded
  arrow_loop offsets batch_bytes zero start out = none
  arrow_loop offsets batch_bytes (suc fuel) start out = elim (ltb start (length offsets - 1)) [
    | false ↦ some out
    | true ↦ elim (get_elem? offsets start) [
      | none ↦ none
      | some begin ↦
          let fit = below_count (drop (start + 1) offsets) (begin + batch_bytes + 1) in
          let end = start + max fit 1 in
          elim (parse_batch (take (end + 1 - start) (drop start offsets)) out) [
            | none ↦ none
            | some out' ↦ arrow_loop offsets batch_bytes fuel end out'
          ]
    ]
  ]

  abbrev pub parse_arrow_batched : Offsets → ℕ → Encoded → Option Encoded
  parse_arrow_batched offsets batch_bytes = arrow_loop offsets batch_bytes (length offsets) 0

abbrev pub batch_bytes : ℕ
batch_bytes = 0x4_0000

abbrev pub parse_arrow : Matcher → ℕ → ℕ → Bytes → Offsets → Encoded → Option Encoded
parse_arrow matcher num_lanes offset_mod bytes offsets =
    parse_arrow_batched matcher num_lanes offset_mod bytes offsets batch_bytes
