-- ===== src/Search/Tokenize.antt =====
-- search/tokenize.rs: greedy longest-match tokenization of a byte string.
pub mod Greedy
use onpair.Common.{
  ℕ, zero, suc, ◌+◌, Bool, true, false, Option, some, none, List, [], ◌∷◌, Bytes, ltb, length, drop,
}
use mathlib.Core.Option
use onpair.Core.Types.{Token}
use onpair.Dictionary.View.{DictionaryView}
use onpair.Search.Lookup.{longest_prefix}

-- Token 0 stands in if no token matches.
abbrev pub best_token : Option (Token × ℕ) → Token
best_token none = 0
best_token (some (token, _)) = token

-- `while pos < text.len()`. The fuel counts the rounds; `none` is a panic, or exhausted fuel.
unfoldable pub tokenize_loop : DictionaryView → Bytes → ℕ → ℕ → Option (List Token)
tokenize_loop dict text zero pos = none
tokenize_loop dict text (suc fuel) pos = elim (ltb pos (length text)) [
  | false ↦ some []
  | true ↦ elim (longest_prefix dict (drop pos text)) [
    | none ↦ none
    | some found ↦ elim (dict.token_len (best_token found.0)) [
      | none ↦ none
      | some n ↦
          Option.map (λ tokens. best_token found.0 ∷ tokens)
            (tokenize_loop dict text fuel (pos + n))
    ]
  ]
]

unfoldable pub tokenize : Bytes → DictionaryView → Option (List Token)
tokenize text dict = tokenize_loop dict text (suc (length text)) 0
