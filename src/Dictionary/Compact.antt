-- ===== src/Dictionary/Compact.antt =====
-- core/dictionary/compact.rs: the compact dictionary, its accessors and its validation.
pub mod Padding
pub mod Safety
pub mod Violation
pub mod Access
pub mod Alphabet
pub mod Scan
pub mod Conformance
pub mod Payload
pub mod Width
use onpair.Common.{
  ℕ, zero, suc, ◌+◌, ◌-◌, ◌^◌, ◌/◌, ◌%◌, ◌≤◌, ◌<◌, ◌≡◌, Bool, true, false, not, ◌&&◌, ◌||◌, Option,
  some, none, List, [], ◌∷◌, ◌++◌, Bytes, ltb, leb, ◌==◌, if◌then◌else◌, length, get_elem?, get_or,
  set, take, drop, replicate, lex_lt, ◌>>=◌,
}
use Prim.Native.Nat.{bit_or}
use mathlib.Core.Option
use onpair.Core.Types.{Token, token_mod, u32_mod, usize_mod, max_token_size, sub32}
use onpair.Core.Validate
use onpair.Core.Validate.{InvalidColumn, Checked}
use onpair.Core.Validate.Checked.{ok, err}
use onpair.Core.Validate.InvalidColumn.{
  empty_dictionary, code_out_of_range, first_offset_not_zero, decreasing_offsets, empty_token,
  token_too_large, missing_padding, unsorted_tokens, incomplete_alphabet,
}
use onpair.Dictionary.View.{DictionaryView}

abbrev pub Offsets : Type 0
Offsets = List ℕ

-- The buffers that `DictionaryStorage` lends, in the owned and in the borrowed form.
pub record CompactDictionary : Type 0 where
  pub bytes : Bytes
  pub offsets : Offsets

abbrev pub max_num_tokens : ℕ
max_num_tokens = token_mod

abbrev pub checked_add : ℕ → ℕ → Option ℕ
checked_add a b = if ltb (a + b) usize_mod then some (a + b) else none

-- `Vec::resize` with zeros.
abbrev pub resize : Bytes → ℕ → Bytes
resize bytes n =
    if leb n (length bytes) then take n bytes else bytes ++ replicate (n - length bytes) 0

-- `none` is the panic of `expect`.
unfoldable pub pad_raw : Bytes → Offsets → Option Bytes
pad_raw bytes offsets = if ltb (length offsets) 2 then some bytes else do
  last_token_start ← get_elem? offsets (length offsets - 2)
  required ← checked_add last_token_start max_token_size
  some (if ltb (length bytes) required then resize bytes required else bytes)

-- The error flags of the offset scan. `|=` of a 0/1 flag is `||`.
pub record Flags : Type 0 where
  pub bad_decreasing : Bool
  pub bad_empty : Bool
  pub bad_length : Bool

abbrev pub no_flags : Flags
no_flags = record { bad_decreasing = false; bad_empty = false; bad_length = false }

abbrev pub scan_pair : Flags → ℕ → ℕ → Flags
scan_pair f start end = record {
  bad_decreasing = f.bad_decreasing || ltb end start;
  bad_empty = f.bad_empty || (end == start);
  bad_length = f.bad_length || ltb max_token_size (sub32 end start);
}

-- The loop over `starts.iter().zip(ends)`: the pairs of neighbours.
unfoldable pub scan_pairs : Flags → Offsets → Flags
scan_pairs f (start ∷ end ∷ rest) = scan_pairs (scan_pair f start end) (end ∷ rest)
scan_pairs f _ = f

unfoldable pub check_flags : Flags → Checked (Unit {0})
check_flags f =
    if f.bad_decreasing
    then err decreasing_offsets
    else if f.bad_empty
    then err empty_token
    else if f.bad_length
    then err token_too_large
    else ok tt

unfoldable pub check_padding : Bytes → Option ℕ → Checked (Unit {0})
check_padding bytes none = err missing_padding
check_padding bytes (some last_read_end) =
    if ltb (length bytes) last_read_end then err missing_padding else ok tt

unfoldable pub validate_safety : Bytes → Offsets → Checked (Unit {0})
unfolding scan_pairs check_flags check_padding
validate_safety bytes [] = err empty_dictionary
validate_safety bytes (first ∷ ends) =
    let num_tokens = length ends in
    if num_tokens == 0
    then err empty_dictionary
    else if ltb max_num_tokens num_tokens
    then err code_out_of_range
    else if not (first == 0)
    then err first_offset_not_zero
    else Validate.◌>>=◌ (check_flags (scan_pairs no_flags (first ∷ ends))) (λ _.
      check_padding bytes (checked_add (get_or (first ∷ ends) (num_tokens - 1) 0) max_token_size))

-- `&bytes[begin..end]`: `none` is the panic.
abbrev pub slice : Bytes → ℕ → ℕ → Option Bytes
slice bytes begin end =
    if leb begin end && leb end (length bytes)
    then some (take (end - begin) (drop begin bytes))
    else none

-- The accessors of `CompactDictionaryView`.
abbrev pub num_tokens : CompactDictionary → ℕ
num_tokens d = length d.offsets - 1

abbrev pub token : CompactDictionary → Token → Option Bytes
token d id = do
  begin ← get_elem? d.offsets id
  end ← get_elem? d.offsets (id + 1)
  slice d.bytes begin end

abbrev pub token_len : CompactDictionary → Token → Option ℕ
token_len d id = do
  end ← get_elem? d.offsets (id + 1)
  begin ← get_elem? d.offsets id
  some (sub32 end begin)

abbrev pub token_ptr : CompactDictionary → Token → Option Bytes
token_ptr d id = do begin ← get_elem? d.offsets id; slice d.bytes begin (begin + max_token_size)

unfoldable pub as_view : CompactDictionary → DictionaryView
as_view d = record {
  num_tokens = num_tokens d;
  token = token d;
  token_len = token_len d;
  token_ptr = token_ptr d;
  token_len_unchecked = token_len d;
}

abbrev pub from_raw : Bytes → Offsets → CompactDictionary
from_raw bytes offsets = record { bytes = bytes; offsets = offsets }

-- The alphabet bitset: four words, bit `byte & 63` of word `byte >> 6`.
abbrev pub mark : List ℕ → ℕ → List ℕ
mark seen byte = set seen (byte / 64) (bit_or (get_or seen (byte / 64) 0) (2 ^ (byte % 64)))

abbrev pub u64_max : ℕ
u64_max = 0xFFFF_FFFF_FFFF_FFFF

-- The loop over the offset pairs. `none` is the panic of a slice out of bounds.
unfoldable pub scan_tokens : Bytes → Bytes → List ℕ → Offsets → Option (Checked (List ℕ))
scan_tokens bytes prev seen (start ∷ end ∷ rest) = elim (slice bytes start end) [
  | none ↦ none
  | some token ↦ elim (lex_lt prev token) [
    | false ↦ some (err unsorted_tokens)
    | true ↦
        scan_tokens bytes token (if length token == 1 then mark seen (get_or token 0 0) else seen)
          (end ∷ rest)
  ]
]
scan_tokens bytes prev seen _ = some (ok seen)

abbrev pub is_complete : List ℕ → Bool
is_complete (a ∷ b ∷ c ∷ d ∷ []) =
    (a == u64_max) && ((b == u64_max) && ((c == u64_max) && (d == u64_max)))
is_complete _ = false

unfoldable pub validate_conformance : Bytes → Offsets → Option (Checked (Unit {0}))
validate_conformance bytes [] = none
validate_conformance bytes (first ∷ ends) = do
  scanned ← scan_tokens bytes [] (replicate 4 0) (first ∷ ends)
  some
      (Validate.◌>>=◌ scanned (λ seen. if is_complete seen then ok tt else err incomplete_alphabet))

-- `CompactDictionary::validate`, and `CompactDictionaryView::validate`.
unfoldable pub validate : Bytes → Offsets → Option (Checked CompactDictionary)
validate bytes offsets = elim (validate_safety bytes offsets) [
  | err e ↦ some (err e)
  | ok _ ↦ do
    conformance ← validate_conformance bytes offsets
    some (Validate.◌>>=◌ conformance (λ _. ok (from_raw bytes offsets)))
]

-- `offsets.last().copied().unwrap_or(0)`: the token bytes without the padding.
abbrev pub logical_len : Offsets → ℕ
logical_len offsets = Option.get_or (get_elem? offsets (length offsets - 1)) 0

-- The token bytes without the padding. `none` is the panic of the slice.
unfoldable pub token_payload : CompactDictionary → Option Bytes
token_payload d = slice d.bytes 0 (logical_len d.offsets)

-- `u32::ilog2` of a positive value: the fuel is the width.
abbrev pub log_loop : ℕ → ℕ → ℕ
log_loop zero n = 0
log_loop (suc fuel) n = if ltb n 2 then 0 else suc (log_loop fuel (n / 2))

abbrev pub ilog2 : ℕ → ℕ
ilog2 n = log_loop 32 n

-- `num_tokens as u32 - 1` in `u32`, and the result as a `u8`.
unfoldable pub code_bits_for_num_tokens : ℕ → ℕ
code_bits_for_num_tokens num_tokens =
    if leb num_tokens 1 then 1 else (ilog2 (sub32 (num_tokens % u32_mod) 1) + 1) % 256
