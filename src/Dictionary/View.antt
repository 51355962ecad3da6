-- ===== src/Dictionary/View.antt =====
-- core/dictionary/mod.rs: the trait `DictionaryView`, as a record of its methods, and what a view
-- of a token table promises of them. `none` is a panic of a checked accessor, or a read outside
-- the buffers by an unchecked one.
use onpair.Common.{
  ℕ, ◌≤◌, ◌<◌, ◌≡◌, true, Option, some, List, [], ◌∷◌, ◌++◌, Bytes, length, get_or, lex_lt,
}
use onpair.Core.Types.{Token, token_mod, max_token_size}

pub record DictionaryView : Type 0 where
  pub num_tokens : ℕ
  pub token : Token → Option Bytes
  pub token_len : Token → Option ℕ
  -- The `max_token_size` bytes that are read through the pointer.
  pub token_ptr : Token → Option Bytes
  pub token_len_unchecked : Token → Option ℕ

abbrev pub Tokens : Type 0
Tokens = List Bytes

-- Token `i` of a table.
abbrev pub tok : Tokens → ℕ → Bytes
tok toks i = get_or toks i []

-- `v` gives access to the token table `toks`: the structural invariants behind the trait.
pub record Represents (v : DictionaryView) (toks : Tokens) : Type 0 where
  pub counted : v.num_tokens ≡ length toks
  pub addressable : length toks ≤ token_mod
  pub token_lem : (i : Token) → i < length toks → v.token i ≡ some (tok toks i)
  pub token_len_lem : (i : Token) → i < length toks → v.token_len i ≡ some (length (tok toks i))
  pub nonempty : (i : Token) → i < length toks → 1 ≤ length (tok toks i)
  pub bounded : (i : Token) → i < length toks → length (tok toks i) ≤ max_token_size
  pub token_ptr_lem :
      (i : Token)
      → i < length toks
      → (rest : Bytes) × (v.token_ptr i ≡ some (tok toks i ++ rest))
        × (length (tok toks i ++ rest) ≡ max_token_size)
  pub token_len_unchecked_lem :
      (i : Token) → i < length toks → v.token_len_unchecked i ≡ some (length (tok toks i))

-- Strictly ascending, hence without duplicates.
abbrev pub IsSorted : Tokens → Type 0
IsSorted toks = (i j : ℕ) → i < j → j < length toks → lex_lt (tok toks i) (tok toks j) ≡ true

-- Every single byte is a token.
abbrev pub IsComplete : Tokens → Type 0
IsComplete toks = (b : ℕ) → b < 256 → (t : Token) × (t < length toks) × (tok toks t ≡ b ∷ [])

-- The values are `u8`.
abbrev pub AreBytes : Bytes → Type 0
AreBytes s = (i : ℕ) → i < length s → get_or s i 0 < 256
