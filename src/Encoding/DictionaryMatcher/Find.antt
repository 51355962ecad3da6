-- ===== src/Encoding/DictionaryMatcher/Find.antt =====
-- encoding/dictionary_matcher.rs, `find_all`: the searches of all inputs advance together.
use onpair.Common.{
  ℕ, zero, suc, ◌+◌, ◌-◌, ◌*◌, ◌/◌, ◌%◌, ◌^◌, min, max, Option, some, none, List, [], ◌∷◌, Bytes,
  ltb, leb, ◌==◌, if◌then◌else◌, length, get_elem?, take, drop, ◌>>=◌,
}
use onpair.Core.Types.{Token, max_token_size}
use onpair.Encoding.Lanes.{Matcher}
use onpair.Encoding.DictionaryMatcher.{DictionaryMatcher, block_keys, from_be_bytes, buffer}

-- `window_key`: the 16 bytes at `at`, zero past the end.
unfoldable pub window_key : Bytes → ℕ → ℕ
window_key bytes at =
    if leb (at + max_token_size) (length bytes)
    then from_be_bytes (take max_token_size (drop at bytes))
    else from_be_bytes (buffer max_token_size (drop (min at (length bytes)) bytes))

-- `advance_if_le`: the index of the last key at most `b`, of two.
abbrev pub advance_if_le : ℕ → ℕ → ℕ → ℕ → ℕ
advance_if_le a b at step = if leb a b then at + step else at

-- `a ^ b` on `n` bits.
abbrev pub xor : ℕ → ℕ → ℕ → ℕ
xor zero a b = 0
xor (suc n) a b = (if a % 2 == b % 2 then 0 else 1) + 2 * xor n (a / 2) (b / 2)

-- The number of bits of a value below 2^n: the width less `leading_zeros`.
abbrev pub bit_length : ℕ → ℕ → ℕ
bit_length zero x = 0
bit_length (suc n) x = if x == 0 then 0 else suc (bit_length n (x / 2))

-- One input: its key, window, candidate blocks and slot.
pub record Search : Type 0 where
  pub key : ℕ
  pub win : ℕ
  pub base : ℕ
  pub size : ℕ
  pub slot : ℕ

module _ (m : DictionaryMatcher) where
  -- `block.0[slot]`.
  abbrev pub key_at : ℕ → ℕ → Option ℕ
  key_at base slot = get_elem? m.blocks base >>= (λ block. get_elem? block slot)

  unfoldable pub start_searches : Bytes → List ℕ → List ℕ → Option (List Search)
  start_searches bytes [] win = some []
  start_searches bytes (a ∷ at) [] = none
  start_searches bytes (a ∷ at) (w ∷ win) = do
    let key = window_key bytes a
    let prefix = key / 2 ^ 112
    first ← get_elem? m.first_blocks prefix
    last ← get_elem? m.first_blocks (prefix + 1)
    rest ← start_searches bytes at win
    some (record { key = key; win = w; base = first; size = last + 1 - first; slot = 0 } ∷ rest)

  abbrev pub largest : List Search → ℕ
  largest [] = 0
  largest (s ∷ searches) = max s.size (largest searches)

  -- One step over the samples.
  unfoldable pub halve : List Search → Option (List Search)
  halve [] = some []
  halve (s ∷ searches) = do
    let half = s.size / 2
    sample ← get_elem? m.samples (s.base + half)
    rest ← halve searches
    some (
        record {
          key = s.key;
          win = s.win;
          base = advance_if_le sample s.key s.base half;
          size = s.size - half;
          slot = s.slot;
        }
        ∷ rest)

  -- `for _ in 0..steps`.
  unfoldable pub sample_loop : ℕ → List Search → Option (List Search)
  sample_loop zero searches = some searches
  sample_loop (suc steps) searches = halve searches >>= sample_loop steps

  -- One step inside the blocks.
  unfoldable pub step_slots : ℕ → List Search → Option (List Search)
  step_slots half [] = some []
  step_slots half (s ∷ searches) = do
    key ← key_at s.base (s.slot + half)
    rest ← step_slots half searches
    some (
        record {
          key = s.key;
          win = s.win;
          base = s.base;
          size = s.size;
          slot = advance_if_le key s.key s.slot half;
        }
        ∷ rest)

  -- `while half > 0`.
  unfoldable pub slot_loop : ℕ → ℕ → List Search → Option (List Search)
  slot_loop zero half searches = none
  slot_loop (suc fuel) half searches =
      if ltb 0 half then step_slots half searches >>= slot_loop fuel (half / 2) else some searches

  -- The length of the longest prefix token that fits, and the token.
  unfoldable pub match_of : Search → Option (Token × ℕ)
  match_of s = do
    found ← key_at s.base s.slot
    let common = (128 - bit_length 128 (xor 128 found s.key)) / 8
    let q = s.base * block_keys + s.slot
    chain ← get_elem? m.chains q
    let len = bit_length 32 (chain.lens % 2 ^ min common s.win)
    longer ← get_elem? chain.ids (max len 2 - 2)
    single ← get_elem? m.singles (s.key / 2 ^ 120)
    some (if len == 1 then single else longer, len)

  unfoldable pub matches_of : List Search → Option (List (Token × ℕ))
  matches_of [] = some []
  matches_of (s ∷ searches) = do found ← match_of s; rest ← matches_of searches; some (found ∷ rest)

  -- `steps` is the number of bits of the largest size less one.
  unfoldable pub find_all : Bytes → List ℕ → List ℕ → Option (List (Token × ℕ))
  find_all bytes at win = do
    searches ← start_searches bytes at win
    placed ← sample_loop (bit_length 64 (largest searches - 1)) searches
    slotted ← slot_loop 4 (block_keys / 2) placed
    matches_of slotted

-- The matcher of the encoder.
abbrev pub matcher_of : DictionaryMatcher → Matcher
matcher_of m = record { find_all = find_all m }
