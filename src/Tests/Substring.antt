-- ===== src/Tests/Substring.antt =====
-- The theorem of the compiled pattern: the dictionary with the token `ab`, and the pattern `bb`.
use onpair.Common.{◌≤◌, ◌<◌, ◌≡◌, ◌⊎◌, [], ◌∷◌, some, true, Bytes, arith}
use onpair.Dictionary.Compact.{as_view}
use onpair.Search.Automaton.{max_pattern_len}
use onpair.Search.Substring.{ContainsDfa, row_contains}
use onpair.Search.Build.{new_dfa, prepared, refused, pattern_too_long}
use onpair.Search.Build.Exact.{new_dfa-row_contains}
use onpair.Tests.Data.{alphabet, alphabet_dict, alphabet-laws, alphabet-Represents, abba_codes}

abbrev bb : Bytes
bb = 98 ∷ 98 ∷ []

new_dfa-row_contains_example :
    ((2 ≤ max_pattern_len)
      × ((dfa : ContainsDfa) × (new_dfa bb (as_view alphabet_dict) ≡ some (prepared dfa))
          × (row_contains abba_codes dfa ≡ some true)))
    ⊎ ((max_pattern_len < 2)
        × (new_dfa bb (as_view alphabet_dict)
            ≡ some (refused (pattern_too_long 2 max_pattern_len))))
new_dfa-row_contains_example =
    new_dfa-row_contains (as_view alphabet_dict) alphabet alphabet-Represents alphabet-laws.1 bb
      abba_codes (ground arith, (ground arith, (ground arith, tt)))
