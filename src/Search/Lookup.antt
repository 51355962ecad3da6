-- ===== src/Search/Lookup.antt =====
-- search/lookup.rs: narrowing a run of token ids of the sorted dictionary one byte at a time.
pub mod Bisect
pub mod Narrow
pub mod Range
pub mod Longest
use onpair.Common.{
  ℕ, zero, suc, ◌+◌, ◌-◌, ◌/◌, ◌%◌, Bool, true, false, not, Option, some, none, List, [], ◌∷◌,
  Bytes, ltb, leb, ◌==◌, if◌then◌else◌, length, get_elem?, take, ◌>>=◌,
}
use onpair.Core.Types.{
  Token, token_mod, max_token_size, add16, sub16, TokenRange, empty_range, new, is_empty,
}
use onpair.Dictionary.View.{DictionaryView}

-- `while lo < hi`: to the right of `mid` where the test holds, else to its left. The fuel counts
-- the rounds, and `none` is a panic of the test or exhausted fuel.
unfoldable pub bisect : (Token → Option Bool) → ℕ → Token → Token → Option Token
bisect test zero lo hi = none
bisect test (suc fuel) lo hi = elim (ltb lo hi) [
  | false ↦ some lo
  | true ↦ elim (test (add16 lo ((hi - lo) / 2))) [
    | none ↦ none
    | some true ↦ bisect test fuel (add16 (add16 lo ((hi - lo) / 2)) 1) hi
    | some false ↦ bisect test fuel lo (add16 lo ((hi - lo) / 2))
  ]
]

module _ (dict : DictionaryView) where
  abbrev pub byte_at : ℕ → Token → Option ℕ
  byte_at k t = do w ← dict.token t; get_elem? w k

  -- `tlen(t) <= k || byte_at(t) < target`.
  unfoldable pub lower_test : ℕ → ℕ → Token → Option Bool
  lower_test k target t = do
    n ← dict.token_len t
    if leb n k then some true else do b ← byte_at k t; some (ltb b target)

  -- `tlen(t) <= k || byte_at(t) <= target`.
  unfoldable pub upper_test : ℕ → ℕ → Token → Option Bool
  upper_test k target t = do
    n ← dict.token_len t
    if leb n k then some true else do b ← byte_at k t; some (leb b target)

  -- `tlen(t) <= k || byte_at(t) != target`.
  unfoldable pub missing_test : ℕ → ℕ → Token → Option Bool
  missing_test k target t = do
    n ← dict.token_len t
    if leb n k then some true else do b ← byte_at k t; some (not (b == target))

  -- `tlen(t) > k && byte_at(t) > target`.
  unfoldable pub past_test : ℕ → ℕ → Token → Option Bool
  past_test k target t = do
    n ← dict.token_len t
    if ltb k n then (do b ← byte_at k t; some (ltb target b)) else some false

  unfoldable pub narrow : TokenRange → ℕ → ℕ → Option TokenRange
  narrow range k target = do
    first ← bisect (lower_test k target) (suc (range.last - range.begin)) range.begin range.last
    missing ← missing_test k target first
    if missing then some empty_range else do
      lo ← bisect (upper_test k target) (suc (range.last - first)) first range.last
      past ← past_test k target lo
      some (new first (if past then sub16 lo 1 else lo))

  unfoldable pub longest_loop :
      ℕ → Bytes → TokenRange → Option (Token × ℕ) → Option (Option (Token × ℕ) × TokenRange)
  longest_loop k [] range longest = some (longest, range)
  longest_loop k (byte ∷ rest) range longest = elim (narrow range k byte) [
    | none ↦ none
    | some r ↦ elim (is_empty r) [
      | true ↦ some (longest, r)
      | false ↦ elim (dict.token_len r.begin) [
        | none ↦ none
        | some n ↦
            longest_loop (k + 1) rest r (if n == k + 1 then some (r.begin, k + 1) else longest)
      ]
    ]
  ]

  unfoldable pub longest_prefix : Bytes → Option (Option (Token × ℕ) × TokenRange)
  longest_prefix bytes = if dict.num_tokens == 0 then some (none, empty_range) else do
    found ←
        longest_loop 0 (take max_token_size bytes) (new 0 ((dict.num_tokens - 1) % token_mod)) none
    some (found.0, if leb (length bytes) max_token_size then found.1 else empty_range)

  unfoldable pub prefix_loop : ℕ → Bytes → TokenRange → Option TokenRange
  prefix_loop k [] range = some range
  prefix_loop k (target ∷ rest) range = elim (narrow range k target) [
    | none ↦ none
    | some r ↦ elim (is_empty r) [ true ↦ some empty_range | false ↦ prefix_loop (k + 1) rest r ]
  ]

  unfoldable pub prefix_range : Bytes → Option TokenRange
  prefix_range needle =
      if dict.num_tokens == 0
      then some empty_range
      else prefix_loop 0 needle (new 0 ((dict.num_tokens - 1) % token_mod))
