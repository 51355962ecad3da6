-- ===== src/Encoding/DictionaryMatcher.antt =====
-- encoding/dictionary_matcher.rs: the frozen longest-prefix matcher, its construction and its search.
-- A `u128` key is a number below 2^128.
pub mod Find
pub mod Keys
pub mod Bits
pub mod Prefixes
pub mod Chains
pub mod Records
pub mod Built
pub mod Sorted
pub mod Counts
pub mod Placed
pub mod Start
pub mod Matched
pub mod Covering
pub mod Pads
pub mod Frozen
pub mod Promise
use onpair.Common.{
  ℕ, zero, suc, ◌+◌, ◌-◌, ◌*◌, ◌/◌, ◌%◌, ◌^◌, min, max, Bool, true, false, ◌&&◌, Option, some, none,
  List, [], ◌∷◌, ◌++◌, map, Bytes, ltb, leb, ◌==◌, if◌then◌else◌, length, get_elem?, set, take,
  drop, replicate, is_prefix, ◌>>=◌,
}
use onpair.Core.Types.{Token, max_token_size}
use onpair.Dictionary.View.{DictionaryView}
use onpair.Common.{put}

abbrev pub block_keys : ℕ
block_keys = 8

abbrev pub prefix_slots : ℕ
prefix_slots = 0x1_0000

-- `u128::MAX`.
abbrev pub key_max : ℕ
key_max = 0xFFFF_FFFF_FFFF_FFFF_FFFF_FFFF_FFFF_FFFF

-- `u128::from_be_bytes`.
abbrev pub from_be_bytes : Bytes → ℕ
from_be_bytes [] = 0
from_be_bytes (b ∷ bytes) = b * 256 ^ length bytes + from_be_bytes bytes

-- The first `n` bytes of a string, and zeros behind it: a copy into a zeroed buffer.
abbrev pub buffer : ℕ → Bytes → Bytes
buffer zero s = []
buffer (suc n) [] = 0 ∷ buffer n []
buffer (suc n) (b ∷ s) = b ∷ buffer n s

-- The record of the prefix tokens of a token: `lens` is a `u16`, and `ids` has 15 entries.
pub record PrefixChain : Type 0 where
  pub lens : ℕ
  pub ids : List Token

-- `lens |= 1 << k`, on a `u16`; `k` is one less than `len`, and an overflow of either panics.
abbrev pub set_bit : ℕ → ℕ → Option ℕ
set_bit lens zero = none
set_bit lens (suc k) =
    if ltb k 16 then some (if lens / 2 ^ k % 2 == 1 then lens else lens + 2 ^ k) else none

-- `ids[i..].fill(value)`.
abbrev pub fill_from : List Token → ℕ → Token → Option (List Token)
fill_from ids i value =
    if leb i (length ids) then some (take i ids ++ replicate (length ids - i) value) else none

-- What the loop over the tokens builds.
pub record Building : Type 0 where
  pub keys : List ℕ
  pub chain : List Token
  pub chains : List PrefixChain
  pub singles : List Token

abbrev pub set_single : Bytes → Token → List Token → Option (List Token)
set_single token id singles =
    if length token == 1 then get_elem? token 0 >>= (λ b. put singles b id) else some singles

abbrev pub all_max : Bytes → Bool
all_max [] = true
all_max (b ∷ bytes) = (b == 0xFF) && all_max bytes

module _ (v : DictionaryView) where
  -- `PrefixChain::new`. The chain is a stack, with the longest token on top.
  unfoldable pub new_chain : List Token → Option PrefixChain
  new_chain [] = some (record { lens = 0; ids = replicate (max_token_size - 1) 0 })
  new_chain (top ∷ below) = do
    chain ← new_chain below
    len ← v.token_len top
    lens ← set_bit chain.lens len
    ids ← fill_from chain.ids (max len 2 - 2) top
    some (record { lens = lens; ids = ids })

  -- `while let Some(&top) = chain.last()`.
  unfoldable pub pop_chain : Bytes → List Token → Option (List Token)
  pop_chain token [] = some []
  pop_chain token (top ∷ below) = do
    prefix ← v.token top
    if is_prefix prefix token then some (top ∷ below) else pop_chain token below

  -- `for i in 0..n`, over the tokens that are left.
  unfoldable pub token_loop : ℕ → Token → Building → Option Building
  token_loop zero id b = some b
  token_loop (suc left) id b = do
    token ← v.token id
    below ← pop_chain token b.chain
    singles ← set_single token id b.singles
    chain ← new_chain (id ∷ below)
    token_loop left (id + 1) (record {
      keys = b.keys ++ from_be_bytes (buffer max_token_size token) ∷ [];
      chain = id ∷ below;
      chains = b.chains ++ chain ∷ [];
      singles = singles;
    })

  -- `chain.retain(|&id| dict.token(id).iter().all(|&b| b == 0xFF))`.
  unfoldable pub retain_max : List Token → Option (List Token)
  retain_max [] = some []
  retain_max (id ∷ chain) = do
    token ← v.token id
    rest ← retain_max chain
    some (if all_max token then id ∷ rest else rest)

-- `starts[(key >> 112) + 1] += 1`.
unfoldable pub count_starts : List ℕ → List ℕ → Option (List ℕ)
count_starts [] starts = some starts
count_starts (key ∷ keys) starts = do
  count ← get_elem? starts (key / 2 ^ 112 + 1)
  count_starts keys (set starts (key / 2 ^ 112 + 1) (count + 1))

-- `starts[p + 1] += starts[p]`.
unfoldable pub sum_starts : ℕ → ℕ → List ℕ → Option (List ℕ)
sum_starts zero p starts = some starts
sum_starts (suc left) p starts = do
  before ← get_elem? starts p
  count ← get_elem? starts (p + 1)
  sum_starts left (p + 1) (set starts (p + 1) (count + before))

-- The block of the last token before `start`.
abbrev pub first_block : ℕ → ℕ
first_block start = (max start 1 - 1) / block_keys % 0x1_0000

-- `keys.chunks_exact(BLOCK_KEYS)`; the first argument counts the chunks.
abbrev pub chunks : ℕ → List ℕ → List (List ℕ)
chunks zero keys = []
chunks (suc n) keys = take block_keys keys ∷ chunks n (drop block_keys keys)

unfoldable pub first_keys : List (List ℕ) → Option (List ℕ)
first_keys [] = some []
first_keys (block ∷ blocks) = do
  key ← get_elem? block 0
  keys ← first_keys blocks
  some (key ∷ keys)

pub record DictionaryMatcher : Type 0 where
  pub blocks : List (List ℕ)
  pub samples : List ℕ
  pub first_blocks : List ℕ
  pub chains : List PrefixChain
  pub singles : List Token

unfoldable pub from_dictionary : DictionaryView → Option DictionaryMatcher
from_dictionary v = do
  let n = v.num_tokens
  b ← token_loop v n 0 (record { keys = []; chain = []; chains = []; singles = replicate 256 0 })
  counts ← count_starts b.keys (replicate (prefix_slots + 1) 0)
  starts ← sum_starts prefix_slots 0 counts
  let num_blocks = n / block_keys + 1
  let keys = b.keys ++ replicate (num_blocks * block_keys - n) key_max
  chain ← retain_max v b.chain
  pad ← new_chain v chain
  let blocks = chunks num_blocks keys
  samples ← first_keys blocks
  some (record {
    blocks = blocks;
    samples = samples;
    first_blocks = map first_block starts;
    chains = b.chains ++ replicate (length keys - n) pad;
    singles = b.singles;
  })
