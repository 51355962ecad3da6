-- ===== src/Tests/Frozen.antt =====
-- The theorems of the frozen matcher, on the dictionary of the single bytes and `ab`.
use onpair.Common.{
  ℕ, ◌+◌, ◌<◌, ◌≡◌, ◌∙◌, sym, subst, some, List, [], ◌∷◌, Bytes, arith, length, take, drop, get_or,
  get_or-take, get_or-drop, length-take, length-drop, replicate,
}
use onpair.Core.Types.{Token, u32_mod}
use onpair.Dictionary.View.{tok, AreBytes}
use onpair.Dictionary.Compact.{Offsets, as_view}
use onpair.Dictionary.Compact.Access.{tokens_of, tok-tokens_of, length-tokens_of}
use onpair.Decoding.{done}
use onpair.Column.{Column, decompress_row_into}
use onpair.Encoding.Config.{ok}
use onpair.Encoding.DictionaryMatcher.{DictionaryMatcher, from_dictionary}
use onpair.Encoding.DictionaryMatcher.Find.{find_all}
use onpair.Encoding.DictionaryMatcher.Promise.{AreLongest, find_all-AreLongest}
use onpair.Encoding.Parser.{parse}
use onpair.Encoding.Parser.Frozen.{paired, from_dictionary-decompress_row_into}
use onpair.Tests.Data.{
  alphabet, alphabet_bytes, alphabet_offsets, alphabet-AreBytes, alphabet_dict, alphabet-laws,
  alphabet-Represents,
}
use onpair.Tests.Parser.{input, input-AreBytes, input_offsets, input-IsMonotone}

span-AreBytes : (s : Bytes) (a n : ℕ) → AreBytes s → AreBytes (take n (drop a s))
span-AreBytes s a n h i l =
    let inside : i < n = omega (arith, length-take n (drop a s)) in
    let e : get_or (take n (drop a s)) i 0 ≡ get_or s (a + i) 0 =
      get_or-take n (drop a s) i inside ∙ get_or-drop s a i 0 in
    subst (λ (x : ℕ). x < 256) (sym e)
      (h (a + i) (omega (arith, length-take n (drop a s), length-drop a s)))

tokens_of-AreBytes :
    (bytes : Bytes) (offsets : Offsets)
    → AreBytes bytes
    → (i : ℕ) → i < length (tokens_of bytes offsets)
    → AreBytes (tok (tokens_of bytes offsets) i)
tokens_of-AreBytes bytes offsets h i l =
    subst AreBytes
      (sym (tok-tokens_of bytes offsets i (omega (arith, length-tokens_of bytes offsets))))
      (span-AreBytes bytes _ _ h)

alphabet-bytes : (i : ℕ) → i < length alphabet → AreBytes (tok alphabet i)
alphabet-bytes = tokens_of-AreBytes alphabet_bytes alphabet_offsets alphabet-AreBytes

find_all-AreLongest_example :
    (m : DictionaryMatcher) × (from_dictionary (as_view alphabet_dict) ≡ some m)
    × ((found : List (Token × ℕ)) × (find_all m input (0 ∷ 3 ∷ []) (4 ∷ 2 ∷ []) ≡ some found)
        × AreLongest alphabet input (0 ∷ 3 ∷ []) (4 ∷ 2 ∷ []) found)
find_all-AreLongest_example =
    find_all-AreLongest alphabet (as_view alphabet_dict) alphabet-Represents alphabet-laws.1
      alphabet-laws.2 alphabet-bytes input (0 ∷ 3 ∷ []) (4 ∷ 2 ∷ []) input-AreBytes
      (ground arith, ground arith, (ground arith, ground arith, tt))
      (ground arith, (ground arith, tt))

from_dictionary-decompress_row_into_example :
    (m : DictionaryMatcher) × (from_dictionary (as_view alphabet_dict) ≡ some m)
    × ((column : Column) × (parse 4 u32_mod (paired alphabet_dict m) input input_offsets
          ≡ some (ok column))
        × ((r : Bytes × ℕ) × (decompress_row_into column 2 (replicate 8 0) ≡ done r)
            × (take r.1 r.0 ≡ 98 ∷ 97 ∷ [])))
from_dictionary-decompress_row_into_example =
    from_dictionary-decompress_row_into alphabet_dict alphabet alphabet-Represents alphabet-laws.1
      alphabet-laws.2 alphabet-bytes 4 (ground arith) u32_mod input input-AreBytes input_offsets
      input-IsMonotone (ground arith) (ground arith) (ground arith) 2 (replicate 8 0) (ground arith)
      (ground arith) (ground arith) (ground arith)
