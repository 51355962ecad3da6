-- ===== src/Core/Types.antt =====
-- core/types.rs: token ids, the token size bound, and the inclusive range of token ids.
use onpair.Common.{ℕ, ◌+◌, ◌-◌, ◌%◌, Bool, ltb, leb, if◌then◌else◌, ◌&&◌}

-- `u16`, the type of a token id: its values are the numbers below `token_mod`.
abbrev pub Token : Type 0
Token = ℕ

abbrev pub token_mod : ℕ
token_mod = 0x1_0000

abbrev pub u32_mod : ℕ
u32_mod = 0x1_0000_0000

abbrev pub usize_mod : ℕ
usize_mod = 0x1_0000_0000_0000_0000

abbrev pub max_token_size : ℕ
max_token_size = 16

-- Additions and subtractions of `u16` and `u32` wrap.
abbrev pub add16 : ℕ → ℕ → ℕ
add16 a b = (a + b) % token_mod

abbrev pub sub16 : ℕ → ℕ → ℕ
sub16 a b = (a + token_mod - b) % token_mod

abbrev pub sub32 : ℕ → ℕ → ℕ
sub32 a b = (a + u32_mod - b) % u32_mod

pub record TokenRange : Type 0 where
  pub begin : Token
  pub last : Token

abbrev pub empty_range : TokenRange
empty_range = record { begin = 1; last = 0 }

abbrev pub new : Token → Token → TokenRange
new begin last = record { begin = begin; last = last }

abbrev pub is_empty : TokenRange → Bool
is_empty r = ltb r.last r.begin

abbrev pub len : TokenRange → ℕ
len r = if is_empty r then 0 else r.last - r.begin + 1

abbrev pub contains : TokenRange → Token → Bool
contains r t = leb r.begin t && leb t r.last
