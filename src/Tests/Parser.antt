-- ===== src/Tests/Parser.antt =====
-- The theorems of the parser: a matcher that looks each window up in the dictionary, and the rows
-- `abba`, the empty row and `ba`.
use onpair.Common.{
  ℕ, zero, suc, ◌+◌, ◌≤◌, ◌<◌, ◌≡◌, ◌⊎◌, ◌∙◌, refl, ap, sym, true, false≢true, Option, some, none,
  List, [], ◌∷◌, Bytes, arith, length, take, drop, length-take, length-drop, get_or, get_or-take,
  get_or-drop, is_prefix, ◌>>=◌,
}
use mathlib.Core.Option
use onpair.Core.Types.{Token, u32_mod}
use onpair.Dictionary.View.{DictionaryView, Tokens, tok, Represents, IsSorted, IsComplete, AreBytes}
use onpair.Dictionary.Compact.{Offsets, as_view}
use onpair.Dictionary.Compact.Access.{tokens_of}
use onpair.Search.Lookup.{longest_prefix}
use onpair.Search.Lookup.Longest.{IsLongest, longest_prefix-IsStep}
use onpair.Column.{Column}
use onpair.Column.Select.{Encodes}
use onpair.Encoding.Config.{ok, err, invalid_arg}
use onpair.Encoding.Rows.Arrow.{IsMonotone}
use onpair.Encoding.Lanes.Finder.{AreWindows, AreFound, IsMatcher}
use onpair.Encoding.Lanes.{Lane, step_lane}
use onpair.Encoding.Lanes.Invariant.{AreOffsets, IsLane}
use onpair.Encoding.Lanes.Code.{IsHit}
use onpair.Encoding.Lanes.Rounds.{IsStepped, step_lane-IsStepped}
use onpair.Encoding.Lanes.Bounds.{first_end, started, started-IsLane}
use onpair.Encoding.Parser.{Parser, parse}
use onpair.Encoding.Parser.Encodes.{valid-AreOffsets, parse-Encodes}
use onpair.Tests.Data.{
  all_below-get_or, alphabet, alphabet_dict, alphabet-laws, alphabet-Represents, abba-IsGreedy,
}

-- The longest token of a window; an answer for a window past the end is not used.
abbrev look_up : DictionaryView → Bytes → List ℕ → List ℕ → Option (List (Token × ℕ))
look_up v bytes (a ∷ at) (w ∷ win) = do
  best ← longest_prefix v (take w (drop a bytes))
  found ← look_up v bytes at win
  some (Option.get_or best.0 (0, 0) ∷ found)
look_up v bytes at win = some []

module _ (v : DictionaryView) (toks : Tokens) (rep : Represents v toks) (sorted : IsSorted toks)
    (complete : IsComplete toks) where
  -- A text of bytes starts with a token.
  starts :
      (s : Bytes) (x : Option (Token × ℕ))
      → 0 < length s
      → get_or s 0 0 < 256
      → IsLongest toks s x
      → IsLongest toks s (some (Option.get_or x (0, 0)))
  starts s (some f) l b h = h
  starts [] none l b h = absurd (omega arith)
  starts (b ∷ s) none l small h =
      let (t, u, e) = complete b small in
      let no_prefix = h t u in
      let here : is_prefix (tok toks t) (b ∷ s) ≡ true =
        ap (λ (w : Bytes). is_prefix w (b ∷ s)) e ∙ ground arith in
      absurd (false≢true (sym no_prefix ∙ here))

  look_up-AreFound :
      (bytes : Bytes) (at win : List ℕ)
      → AreBytes bytes
      → AreWindows at win
      → (found : List (Token × ℕ)) × (look_up v bytes at win ≡ some found)
        × AreFound toks bytes at win found
  look_up-AreFound bytes [] [] u h = ([], refl, tt)
  look_up-AreFound bytes [] (w ∷ win) u h = elim h [ ]
  look_up-AreFound bytes (a ∷ at) [] u h = elim h [ ]
  look_up-AreFound bytes (a ∷ at) (w ∷ win) u (one, most, h) =
      let (found, e, good) = look_up-AreFound bytes at win u h in
      let (res, q, step) = longest_prefix-IsStep v toks rep sorted (take w (drop a bytes)) in
      (
        Option.get_or res.0 (0, 0) ∷ found,
        rw (q, e) refl,
        (
          λ inside.
              let first : get_or (take w (drop a bytes)) 0 0 ≡ get_or bytes (a + 0) 0 =
                get_or-take w (drop a bytes) 0 (omega arith) ∙ get_or-drop bytes a 0 0 in
              starts (take w (drop a bytes)) res.0
                (omega (arith, length-take w (drop a bytes), length-drop a bytes))
                (omega (arith, u (a + 0) (omega arith))) step.longest,
          good,
        ),
      )

abbrev parser : Parser
parser = record {
  dict = alphabet_dict;
  lpm = record { find_all = look_up (as_view alphabet_dict) };
}

parser-IsMatcher : IsMatcher alphabet parser.lpm
parser-IsMatcher = record {
  find_all_lem =
      look_up-AreFound (as_view alphabet_dict) alphabet alphabet-Represents alphabet-laws.1
        alphabet-laws.2;
}

abbrev pub input : Bytes
input = 97 ∷ 98 ∷ 98 ∷ 97 ∷ 98 ∷ 97 ∷ []

abbrev pub input_offsets : Offsets
input_offsets = 0 ∷ 4 ∷ 4 ∷ 6 ∷ []

pub input-IsMonotone : IsMonotone input_offsets
input-IsMonotone zero l = ground arith
input-IsMonotone (suc zero) l = ground arith
input-IsMonotone (suc (suc zero)) l = ground arith
input-IsMonotone (suc (suc (suc i))) l = absurd (omega (arith, l))

pub input-AreBytes : AreBytes input
input-AreBytes = all_below-get_or 256 input refl

parse-Encodes_example :
    ((0 < 4)
      × (6 ≤ 6)
      × ((column : Column) × (parse 4 u32_mod parser input input_offsets ≡ some (ok column))
          × Encodes alphabet column (tokens_of input input_offsets)))
    ⊎ (((length input_offsets ≡ 0) ⊎ (6 < 6))
        × (parse 4 u32_mod parser input input_offsets ≡ some (err invalid_arg)))
parse-Encodes_example =
    parse-Encodes parser alphabet alphabet-Represents alphabet-laws.1 parser-IsMatcher 4
      (ground arith) u32_mod input input-AreBytes input_offsets input-IsMonotone (ground arith)
      (ground arith) (ground arith)

input-AreOffsets : AreOffsets input input_offsets
input-AreOffsets =
    valid-AreOffsets parser alphabet alphabet-Represents alphabet-laws.1 parser-IsMatcher 4
      (ground arith) u32_mod input input-AreBytes input_offsets input-IsMonotone (ground arith)
      (ground arith) (ground arith) (ground arith) (ground arith)

-- The lane of all three rows.
three_rows : 3 < length input_offsets
three_rows = ground arith

no_rows : 0 ≤ 3
no_rows = ground arith

abbrev lane : Lane
lane = started alphabet input input_offsets input-AreOffsets 0 3 no_rows three_rows

lane-IsLane : IsLane alphabet input input_offsets lane
lane-IsLane = started-IsLane alphabet input input_offsets input-AreOffsets 0 3 no_rows three_rows

lane-IsHit : IsHit alphabet input lane (98, 2)
unfolding started first_end
lane-IsHit = λ l. (refl, abba-IsGreedy.0)

step_lane-IsStepped_example :
    (lane' : Lane) × (step_lane input_offsets lane (98, 2) ≡ some lane')
    × IsStepped alphabet alphabet-Represents.nonempty input input_offsets input-AreOffsets lane
        lane'
step_lane-IsStepped_example =
    step_lane-IsStepped alphabet alphabet-Represents.nonempty input input_offsets input-AreOffsets
      lane lane-IsLane (98, 2) lane-IsHit
