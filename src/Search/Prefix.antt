-- ===== src/Search/Prefix.antt =====
-- search/prefix.rs: prefix search on codes.
pub mod Rows
use onpair.Common.{
  ℕ, suc, ◌+◌, Bool, true, false, Option, some, none, List, [], ◌∷◌, Bytes, ◌==◌, ltb, leb,
  if◌then◌else◌, length, get_elem?, take, drop, min, ◌>>=◌,
}
use mathlib.Core.Option
use onpair.Core.Types.{Token, TokenRange, contains}
use onpair.Dictionary.View.{DictionaryView}
use onpair.Search.Lookup.{prefix_range}
use onpair.Search.Tokenize.{tokenize}

pub record PrefixQuery : Type 0 where
  pub tokens : List Token
  pub intervals : List TokenRange

-- `&prefix[byte_off..]`: `none` is the panic.
abbrev pub slice_from : Bytes → ℕ → Option Bytes
slice_from s n = if leb n (length s) then some (drop n s) else none

-- `for &t in &tokens`.
unfoldable pub interval_loop : DictionaryView → Bytes → ℕ → List Token → Option (List TokenRange)
interval_loop dict prefix byte_off [] = some []
interval_loop dict prefix byte_off (t ∷ tokens) =
    elim (slice_from prefix byte_off >>= prefix_range dict) [
      | none ↦ none
      | some interval ↦ elim (dict.token_len t) [
        | none ↦ none
        | some n ↦
            Option.map (λ rest. interval ∷ rest) (interval_loop dict prefix (byte_off + n) tokens)
      ]
    ]

unfoldable pub new : Bytes → DictionaryView → Option PrefixQuery
new prefix dict = do
  tokens ← tokenize prefix dict
  intervals ← interval_loop dict prefix 0 tokens
  some (record { tokens = tokens; intervals = intervals })

-- `zip(codes, needle).position(|(c, t)| c != t)`.
unfoldable pub position_ne : List Token → List Token → Option ℕ
position_ne (c ∷ codes) (t ∷ needle) =
    if c == t then Option.map suc (position_ne codes needle) else some 0
position_ne _ _ = none

-- `none` is the panic of an index out of bounds.
unfoldable pub starts_with : List Token → PrefixQuery → Option Bool
unfolding position_ne
starts_with codes query =
    let min_len = min (length codes) (length query.tokens) in
    let diff =
      Option.get_or (position_ne (take min_len codes) (take min_len query.tokens)) min_len in
    if diff == length query.tokens
    then some true
    else if ltb diff (length codes)
    then (do
      interval ← get_elem? query.intervals diff
      code ← get_elem? codes diff
      some (contains interval code))
    else some false
