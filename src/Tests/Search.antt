-- ===== src/Tests/Search.antt =====
-- The search theorems, on the alphabet with `ab`.
use onpair.Common.{ℕ, ◌≡◌, ◌↔◌, ◌⊎◌, [], ◌∷◌, List, Option, refl, arith, true, some, ltb}
use onpair.Core.Types.{Token, TokenRange, new}
use onpair.Dictionary.Compact.{as_view}
use onpair.Search.Lookup.{bisect, narrow, prefix_range, longest_prefix}
use onpair.Search.Lookup.Bisect.{Cuts, bisect-Cuts}
use onpair.Search.Lookup.Narrow.{IsRun, IsMissing, narrow-IsRun}
use onpair.Search.Lookup.Range.{IsPrefixRange, prefix_range-IsPrefixRange}
use onpair.Search.Lookup.Longest.{IsStep, longest_prefix-IsStep}
use onpair.Search.Tokenize.{tokenize}
use onpair.Search.Tokenize.Greedy.{IsGreedy, decode, tokenize-IsGreedy}
use onpair.Search.Equals.{equals}
use onpair.Search.Equals.Rows.{equals_iff, equals-tokenize}
use onpair.Search.Prefix
use onpair.Search.Prefix.{PrefixQuery, starts_with}
use onpair.Search.Prefix.Rows.{starts_with-is_prefix}
use onpair.Tests.Data.{
  alphabet, alphabet_dict, alphabet-laws, alphabet-Represents, abba, ab, abba-AreBytes, ab-AreBytes,
  abba_codes, abba-IsGreedy,
}

bisect-Cuts_example :
    (r : ℕ) × (bisect (λ t. some (ltb t 3)) 9 0 8 ≡ some r) × Cuts (λ t. ltb t 3) 0 8 r
bisect-Cuts_example =
    bisect-Cuts (λ t. some (ltb t 3)) (λ t. ltb t 3) 9 0 8 (ground arith) (ground arith)
      (ground arith) (λ i l k. refl) (λ i j l m k h. ground arith)

whole-IsRun : IsRun alphabet [] (new 0 256)
whole-IsRun = record { ordered = ground arith; inside = ground arith; exact = λ t l. ground arith }

narrow-IsRun_example :
    (r : TokenRange) × (narrow (as_view alphabet_dict) (new 0 256) 0 97 ≡ some r)
    × (IsRun alphabet (97 ∷ []) r ⊎ IsMissing alphabet (97 ∷ []) r)
narrow-IsRun_example =
    narrow-IsRun (as_view alphabet_dict) alphabet [] 97 (new 0 256) alphabet-Represents
      alphabet-laws.1 whole-IsRun

prefix_range-IsPrefixRange_example :
    (r : TokenRange) × (prefix_range (as_view alphabet_dict) ab ≡ some r)
    × IsPrefixRange alphabet ab r
prefix_range-IsPrefixRange_example =
    prefix_range-IsPrefixRange (as_view alphabet_dict) alphabet alphabet-Represents alphabet-laws.1
      ab

longest_prefix-IsStep_example :
    (res : Option (Token × ℕ) × TokenRange) × (longest_prefix (as_view alphabet_dict) abba
      ≡ some res)
    × IsStep alphabet abba res
longest_prefix-IsStep_example =
    longest_prefix-IsStep (as_view alphabet_dict) alphabet alphabet-Represents alphabet-laws.1 abba

tokenize-IsGreedy_example :
    (codes : List Token) × (tokenize abba (as_view alphabet_dict) ≡ some codes)
    × IsGreedy alphabet abba codes
    × (decode alphabet codes ≡ abba)
tokenize-IsGreedy_example =
    tokenize-IsGreedy (as_view alphabet_dict) alphabet alphabet-Represents alphabet-laws.1
      alphabet-laws.2 abba abba-AreBytes

equals_iff_example : (equals abba_codes abba_codes ≡ true) ↔ (abba_codes ≡ abba_codes)
equals_iff_example = equals_iff abba_codes abba_codes

equals-tokenize_example :
    (query : List Token) × (tokenize ab (as_view alphabet_dict) ≡ some query)
    × ((equals abba_codes query ≡ true) ↔ (abba ≡ ab))
equals-tokenize_example =
    equals-tokenize (as_view alphabet_dict) alphabet abba ab abba_codes alphabet-Represents
      alphabet-laws.1 alphabet-laws.2 ab-AreBytes abba-IsGreedy

starts_with-is_prefix_example :
    (query : PrefixQuery) × (Prefix.new ab (as_view alphabet_dict) ≡ some query)
    × (starts_with abba_codes query ≡ some true)
starts_with-is_prefix_example =
    starts_with-is_prefix (as_view alphabet_dict) alphabet ab abba abba_codes alphabet-Represents
      alphabet-laws.1 alphabet-laws.2 ab-AreBytes abba-IsGreedy
