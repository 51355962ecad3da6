-- ===== src/Tests/Data.antt =====
-- A dictionary of the 256 single bytes and `ab`, small dictionaries, and a column of three rows.
use onpair.Common.{
  ℕ, subst, zero, suc, ◌+◌, ◌<◌, ◌≡◌, ◌&&◌, Bool, true, List, [], ◌∷◌, ◌++◌, arith, refl, some,
  Bytes, length, get_or, ltb, replicate,
}
use onpair.Core.Types.{u32_mod, Token}
use onpair.Core.Validate.Checked.{ok}
use onpair.Dictionary.View.{AreBytes, IsSorted, IsComplete, Tokens, Represents}
use onpair.Dictionary.Compact.{
  Offsets, from_raw, CompactDictionary, validate, validate_safety, scan_pairs, check_flags,
  check_padding, validate_conformance, scan_tokens, as_view,
}
use onpair.Dictionary.Compact.Safety.{AreU32, IsSafe}
use onpair.Dictionary.Compact.Access.{tokens_of, as_view-Represents}
use onpair.Dictionary.Compact.Conformance.{validate_iff}
use onpair.Search.Lookup.{
  bisect, narrow, prefix_range, longest_prefix, longest_loop, prefix_loop, lower_test, upper_test,
  missing_test, past_test,
}
use onpair.Search.Tokenize.{tokenize, tokenize_loop}
use onpair.Search.Tokenize.Greedy.{IsGreedy, tokenize-IsGreedy}

-- `n` numbers from `k` on.
abbrev pub iota : ℕ → ℕ → List ℕ
iota zero k = []
iota (suc n) k = k ∷ iota n (k + 1)

abbrev pub all_below : ℕ → List ℕ → Bool
all_below bound [] = true
all_below bound (x ∷ xs) = ltb x bound && all_below bound xs

pub all_below-get_or :
    (bound : ℕ) (xs : List ℕ)
    → all_below bound xs ≡ true
    → (i : ℕ) → i < length xs
    → get_or xs i 0 < bound
all_below-get_or bound [] h i l = absurd (omega (arith, l))
all_below-get_or bound (x ∷ xs) h zero l = ground arith
all_below-get_or bound (x ∷ xs) h (suc i) l =
    ground (arith, all_below-get_or bound xs _ i (omega arith))

abbrev pub alphabet_bytes : Bytes
alphabet_bytes = iota 98 0 ++ 97 ∷ 98 ∷ iota 158 98 ++ replicate 15 0

abbrev pub alphabet_offsets : Offsets
alphabet_offsets = iota 99 0 ++ iota 159 100

pub alphabet-validate :
    validate alphabet_bytes alphabet_offsets ≡ some (ok (from_raw alphabet_bytes alphabet_offsets))
unfolding validate validate_safety scan_pairs check_flags check_padding validate_conformance
    scan_tokens
alphabet-validate = refl

pub alphabet-AreU32 : AreU32 alphabet_offsets
alphabet-AreU32 = all_below-get_or u32_mod alphabet_offsets refl

pub alphabet-AreBytes : AreBytes alphabet_bytes
alphabet-AreBytes = all_below-get_or 256 alphabet_bytes refl

abbrev pub alphabet : Tokens
alphabet = tokens_of alphabet_bytes alphabet_offsets

pub alphabet-laws : IsSafe alphabet_bytes alphabet_offsets × IsSorted alphabet × IsComplete alphabet
alphabet-laws =
    (validate_iff alphabet_bytes alphabet_offsets alphabet-AreU32 alphabet-AreBytes).0
      alphabet-validate

abbrev pub alphabet_dict : CompactDictionary
alphabet_dict = from_raw alphabet_bytes alphabet_offsets

pub alphabet-Represents : Represents (as_view alphabet_dict) alphabet
alphabet-Represents =
    as_view-Represents alphabet_bytes alphabet_offsets alphabet-AreU32 alphabet-laws.0

abbrev pub abba : Bytes
abba = 97 ∷ 98 ∷ 98 ∷ 97 ∷ []

abbrev pub ab : Bytes
ab = 97 ∷ 98 ∷ []

abbrev pub abba_codes : List Token
abba_codes = 98 ∷ 99 ∷ 97 ∷ []

pub abba-AreBytes : AreBytes abba
abba-AreBytes = all_below-get_or 256 abba refl

pub ab-AreBytes : AreBytes ab
ab-AreBytes = all_below-get_or 256 ab refl

-- The codes that `tokenize` computes are greedy.
tokenized-IsGreedy :
    (text : Bytes) (codes : List Token)
    → AreBytes text
    → tokenize text (as_view alphabet_dict) ≡ some codes
    → IsGreedy alphabet text codes
tokenized-IsGreedy text codes bytes h =
    let (found, e, g, _) =
      tokenize-IsGreedy (as_view alphabet_dict) alphabet alphabet-Represents alphabet-laws.1
        alphabet-laws.2 text bytes in
    let same : found ≡ codes = cc in subst (IsGreedy alphabet text) same g

abba-tokenize : tokenize abba (as_view alphabet_dict) ≡ some abba_codes
unfolding as_view bisect narrow prefix_range longest_prefix longest_loop prefix_loop lower_test
    upper_test missing_test past_test tokenize tokenize_loop
abba-tokenize = refl

pub abba-IsGreedy : IsGreedy alphabet abba abba_codes
abba-IsGreedy = tokenized-IsGreedy abba abba_codes abba-AreBytes abba-tokenize

abbrev pub ba : Bytes
ba = 98 ∷ 97 ∷ []

pub ba-AreBytes : AreBytes ba
ba-AreBytes = all_below-get_or 256 ba refl

ba-tokenize : tokenize ba (as_view alphabet_dict) ≡ some (99 ∷ 97 ∷ [])
unfolding as_view bisect narrow prefix_range longest_prefix longest_loop prefix_loop lower_test
    upper_test missing_test past_test tokenize tokenize_loop
ba-tokenize = refl

pub ba-IsGreedy : IsGreedy alphabet ba (99 ∷ 97 ∷ [])
ba-IsGreedy = tokenized-IsGreedy ba (99 ∷ 97 ∷ []) ba-AreBytes ba-tokenize
