-- ===== src/Dictionary/Wide.antt =====
-- core/dictionary/wide.rs, and `to_wide` of core/dictionary/compact.rs: one 16-byte row per token.
pub mod Build
pub mod Check
pub mod Fill
pub mod Agree
use onpair.Common.{
  ℕ, zero, suc, ◌+◌, ◌-◌, ◌*◌, ◌%◌, Bool, true, false, not, ◌&&◌, ◌||◌, Option, some, none, List,
  [], ◌∷◌, Bytes, ltb, leb, ◌==◌, if◌then◌else◌, length, get_elem?, put, replicate, load, store,
  ◌>>=◌,
}
use onpair.Core.Types.{Token, token_mod, usize_mod, max_token_size, sub32}
use onpair.Core.Validate
use onpair.Core.Validate.{Checked}
use onpair.Core.Validate.Checked.{ok, err}
use onpair.Core.Validate.InvalidColumn.{
  empty_dictionary, code_out_of_range, first_offset_not_zero, missing_padding,
}
use onpair.Dictionary.View.{DictionaryView}
use onpair.Dictionary.Compact.{
  CompactDictionary, Offsets, Flags, no_flags, scan_pair, check_flags, num_tokens, slice,
}

pub record WideDictionary : Type 0 where
  pub data_bytes : Bytes
  pub lens : List ℕ

abbrev pub from_raw : Bytes → List ℕ → WideDictionary
from_raw data_bytes lens = record { data_bytes = data_bytes; lens = lens }

-- `end - off` in `usize`, stored as a `u8`.
abbrev pub token_width : ℕ → ℕ → ℕ
token_width end off = ((end + usize_mod - off) % usize_mod) % 256

-- `for id in 0..n`: the first argument counts the rounds left. `none` is an access out of bounds.
unfoldable pub fill_rows : CompactDictionary → ℕ → ℕ → Bytes → List ℕ → Option WideDictionary
fill_rows d zero id data_bytes lens = some (from_raw data_bytes lens)
fill_rows d (suc n) id data_bytes lens = do
  off ← get_elem? d.offsets id
  end ← get_elem? d.offsets (id + 1)
  lens' ← put lens id (token_width end off)
  chunk ← load d.bytes off max_token_size
  data' ← store data_bytes (id * max_token_size) chunk
  fill_rows d n (id + 1) data' lens'

unfoldable pub to_wide : CompactDictionary → Option WideDictionary
to_wide d =
    fill_rows d (num_tokens d) 0 (replicate (num_tokens d * max_token_size) 0)
      (replicate (num_tokens d) 0)

-- The accessors of `WideDictionaryView`.
abbrev pub token : WideDictionary → Token → Option Bytes
token d id = do
  n ← get_elem? d.lens id
  slice d.data_bytes (id * max_token_size) (id * max_token_size + n)

unfoldable pub as_view : WideDictionary → DictionaryView
as_view d = record {
  num_tokens = length d.lens;
  token = token d;
  token_len = λ id. get_elem? d.lens id;
  token_ptr = λ id. load d.data_bytes (id * max_token_size) max_token_size;
  token_len_unchecked = λ id. get_elem? d.lens id;
}

-- `Self::validate_safety`: the two vectors and the error flags of the loop.
pub record BuildState : Type 0 where
  pub wide : WideDictionary
  pub flags : Flags
  pub bad_padding : Bool

-- What does not change in the loop: the source, and the check of the last offset.
pub record Source : Type 0 where
  pub bytes : Bytes
  pub offsets : Offsets
  pub last_start : ℕ
  pub last_source_is_readable : Bool

abbrev pub source_is_readable : Source → ℕ → Bool
source_is_readable src start = src.last_source_is_readable && leb start src.last_start

-- `if end > start && length <= MAX_TOKEN_SIZE as u32 && source_is_readable`.
abbrev pub copy_row : Source → ℕ → ℕ → ℕ → WideDictionary → Option WideDictionary
copy_row src id start end w =
    if ltb start end && (leb (sub32 end start) max_token_size && source_is_readable src start)
    then (do
      lens' ← put w.lens id (sub32 end start % 256)
      chunk ← load src.bytes start max_token_size
      data' ← store w.data_bytes (id * max_token_size) chunk
      some (from_raw data' lens'))
    else some w

unfoldable pub build_row : Source → ℕ → BuildState → Option BuildState
build_row src id b = do
  start ← get_elem? src.offsets id
  end ← get_elem? src.offsets (id + 1)
  wide' ← copy_row src id start end b.wide
  some (record {
    wide = wide';
    flags = scan_pair b.flags start end;
    bad_padding = b.bad_padding || not (source_is_readable src start);
  })

-- `for id in 0..num_tokens`: the second argument counts the rounds left.
unfoldable pub build_rows : Source → ℕ → ℕ → BuildState → Option BuildState
build_rows src zero id b = some b
build_rows src (suc n) id b = do b' ← build_row src id b; build_rows src n (id + 1) b'

abbrev pub check_build : BuildState → Checked WideDictionary
check_build b =
    Validate.◌>>=◌ (check_flags b.flags)
      (λ _. if b.bad_padding then err missing_padding else ok b.wide)

abbrev pub source_of : Bytes → Offsets → ℕ → Source
source_of bytes offsets last_start = record {
  bytes = bytes;
  offsets = offsets;
  last_start = last_start;
  last_source_is_readable = leb (last_start + max_token_size) (length bytes);
}

abbrev pub start_build : ℕ → Source → BuildState
start_build num_tokens src = record {
  wide = from_raw (replicate (num_tokens * max_token_size) 0) (replicate num_tokens 0);
  flags = no_flags;
  bad_padding = not src.last_source_is_readable;
}

-- `none` is an access out of bounds.
unfoldable pub validate_safety : Bytes → Offsets → Option (Checked WideDictionary)
validate_safety bytes [] = some (err empty_dictionary)
validate_safety bytes (first ∷ ends) =
    let num_tokens = length ends in
    if num_tokens == 0
    then some (err empty_dictionary)
    else if ltb token_mod num_tokens
    then some (err code_out_of_range)
    else if not (first == 0)
    then some (err first_offset_not_zero)
    else do
      last_start ← get_elem? (first ∷ ends) (num_tokens - 1)
      built ←
          build_rows (source_of bytes (first ∷ ends) last_start) num_tokens 0
            (start_build num_tokens (source_of bytes (first ∷ ends) last_start))
      some (check_build built)
