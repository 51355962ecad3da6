-- ===== src/Encoding/Parser/Encodes.antt =====
-- encoding/parser.rs, `Parser::parse`: the column encodes the rows of the Arrow pair greedily.
use onpair.Common.{
  ℕ, zero, suc, ◌+◌, ◌-◌, ◌*◌, ◌≤◌, ◌<◌, ◌≡◌, ◌∙◌, ◌⊎◌, inl, inr, refl, sym, ap, subst, some, arith,
  List, [], ◌∷◌, ◌++◌, Bytes, length, take, drop, take-append, drop-append, get_or, get_elem?,
  get_elem?-eq-get_or, get_elem?-none, length-append, le→leb, lt→ltb, le→ltb, dec_lt,
}
use mathlib.Core.List.{append_assoc}
use native.Mathlib.Nat.{mul-le-mul_left}
use onpair.Core.Types.{Token, usize_mod}
use onpair.Dictionary.View.{Tokens, tok, Represents, IsSorted, AreBytes}
use onpair.Dictionary.Compact
use onpair.Dictionary.Compact.{Offsets}
use onpair.Dictionary.Compact.Safety.{offset}
use onpair.Dictionary.Compact.Access.{tokens_of, length-tokens_of, tok-tokens_of}
use onpair.Search.Tokenize.Greedy.{IsGreedy}
use onpair.Column.{Column, row_codes}
use onpair.Column.Select.{Encodes}
use onpair.Encoding.Config.{ok, err, invalid_arg}
use onpair.Encoding.Rows.{validate_offsets}
use onpair.Encoding.Rows.Arrow.{IsMonotone}
use onpair.Encoding.Lanes.{batch_bytes, parse_arrow}
use onpair.Encoding.Lanes.Segments.{span, AreParsed, AreParsed-le, joined, ends, length-ends}
use onpair.Encoding.Lanes.Invariant.{AreOffsets, row_of}
use onpair.Encoding.Lanes.Finder.{IsMatcher}
use onpair.Encoding.Lanes.Join.{extended}
use onpair.Encoding.Lanes.Batches.{arrow_loop-AreParsed}
use onpair.Encoding.Parser.{Parser, parse_unchecked, parse}

AreParsed-IsGreedy :
    (toks : Tokens) (row : ℕ → Bytes) (a b k : ℕ) (segs : List (List Token))
    → AreParsed toks row a b segs
    → k < length segs
    → IsGreedy toks (row (a + k)) (get_or segs k [])
AreParsed-IsGreedy toks row a b k [] h l = elim l [ ]
AreParsed-IsGreedy toks row a b zero (s ∷ segs) (first, h) l =
    let e : a ≡ a + 0 = omega arith in subst (λ (n : ℕ). IsGreedy toks (row n) s) e first
AreParsed-IsGreedy toks row a b (suc k) (s ∷ segs) (first, h) l =
    let e : a + 1 + k ≡ a + suc k = omega arith in
    subst (λ (n : ℕ). IsGreedy toks (row n) (get_or segs k [])) e
      (AreParsed-IsGreedy toks row (a + 1) b k segs h (omega arith))

-- Segment `k` stands between the offsets `k` and `k + 1`.
record IsSegment (codes : List Token) (offsets : List ℕ) (k : ℕ) (s : List Token) : Type 0 where
  begin : ℕ
  end : ℕ
  begins : get_elem? offsets k ≡ some begin
  ends_at : get_elem? offsets (k + 1) ≡ some end
  ordered : begin ≤ end
  inside : end ≤ length codes
  holds : take (end - begin) (drop begin codes) ≡ s

ends-IsSegment :
    (pre : List Token) (segs : List (List Token)) (k : ℕ)
    → k < length segs
    → IsSegment (pre ++ joined segs) (length pre ∷ ends (length pre) segs) k (get_or segs k [])
ends-IsSegment pre [] k l = elim l [ ]
ends-IsSegment pre (s ∷ segs) zero l =
    let size : length pre + length s - length pre ≡ length s = omega arith in
    record {
      begin = length pre;
      end = length pre + length s;
      begins = refl;
      ends_at = refl;
      ordered = omega arith;
      inside = omega (arith, length-append pre (s ++ joined segs), length-append s (joined segs));
      holds =
          ap (λ (n : ℕ). take n (drop (length pre) (pre ++ (s ++ joined segs)))) size
          ∙ ap (take (length s)) (drop-append pre (s ++ joined segs))
          ∙ take-append s (joined segs);
    }
ends-IsSegment pre (s ∷ segs) (suc k) l =
    let size = length-append pre s in
    let h : IsSegment (pre ++ joined (s ∷ segs))
        ((length pre + length s) ∷ ends (length pre + length s) segs) k (get_or segs k []) =
      subst (λ (n : ℕ). IsSegment (pre ++ joined (s ∷ segs)) (n ∷ ends n segs) k (get_or segs k []))
        size
        (subst
          (λ (c : List Token).
            IsSegment c (length (pre ++ s) ∷ ends (length (pre ++ s)) segs) k (get_or segs k []))
          (append_assoc pre s (joined segs)) (ends-IsSegment (pre ++ s) segs k (omega arith))) in
    let next : suc k + 1 ≡ suc (k + 1) = omega arith in
    record {
      begin = h.begin;
      end = h.end;
      begins = h.begins;
      ends_at = ap (get_elem? (length pre ∷ ends (length pre) (s ∷ segs))) next ∙ h.ends_at;
      ordered = h.ordered;
      inside = h.inside;
      holds = h.holds;
    }

row_codes-segment :
    (column : Column) (k : ℕ) (s : List Token)
    → IsSegment column.codes column.row_offsets k s
    → row_codes column k ≡ some s
unfolding row_codes
row_codes-segment column k s h =
    rw
      (
        h.begins,
        h.ends_at,
        le→leb h.begin h.end h.ordered,
        le→leb h.end (length column.codes) h.inside,
      )
      (ap some h.holds)

monotone :
    (offsets : Offsets)
    → IsMonotone offsets
    → (i d : ℕ) → i + d < length offsets
    → offset offsets i ≤ offset offsets (i + d)
monotone offsets m i zero l = omega (arith, ap (offset offsets) (zero_right i))
  where
    zero_right : (i : ℕ) → i ≡ i + 0
    zero_right i = omega arith
monotone offsets m i (suc d) l =
    let e : i + suc d ≡ suc (i + d) = omega arith in
    omega
      (arith, monotone offsets m i d (omega arith), m (i + d) (omega arith), ap (offset offsets) e)

module _ (parser : Parser) (toks : Tokens) (rep : Represents (Compact.as_view parser.dict) toks)
    (sorted : IsSorted toks) (m : IsMatcher toks parser.lpm) (num_lanes : ℕ)
    (some_lane : 0 < num_lanes) (offset_mod : ℕ) (bytes : Bytes) (are_bytes : AreBytes bytes)
    (offsets : Offsets) (ascend : IsMonotone offsets) (few : length offsets < usize_mod)
    (fits : length bytes * num_lanes < usize_mod)
    (narrow : offset offsets (length offsets - 1) < offset_mod) where
  -- The column of the segments.
  column_of : List (List Token) → Column
  column_of segs = record {
    dict = parser.dict;
    codes = [] ++ joined segs;
    row_offsets = (0 ∷ []) ++ ends 0 segs;
  }

  pub valid-AreOffsets :
      0 < length offsets
      → offset offsets (length offsets - 1) ≤ length bytes
      → AreOffsets bytes offsets
  valid-AreOffsets l u = record {
    are_bytes = are_bytes;
    some_offset = l;
    ascending = λ i j h k.
        let e : i + (j - i) ≡ j = omega arith in
        omega (arith, monotone offsets ascend i (j - i) (omega arith), ap (offset offsets) e);
    inside = u;
    small = omega (arith, mul-le-mul_left (length bytes) some_lane);
    few = few;
  }

  parse_valid :
      (segs : List (List Token))
      → 0 < length offsets
      → offset offsets (length offsets - 1) ≤ length bytes
      → parse_arrow parser.lpm num_lanes offset_mod bytes offsets
          (record { codes = []; row_offsets = 0 ∷ [] })
        ≡ some (extended (record { codes = []; row_offsets = 0 ∷ [] }) segs)
      → parse num_lanes offset_mod parser bytes offsets ≡ some (ok (column_of segs))
  unfolding parse parse_unchecked validate_offsets column_of
  parse_valid segs l u e =
      let last = get_elem?-eq-get_or offsets (length offsets - 1) 0 (omega arith) in
      rw (parse, last, le→ltb (length bytes) (offset offsets (length offsets - 1)) u, e) refl

  parse_invalid :
      (length offsets ≡ 0) ⊎ (length bytes < offset offsets (length offsets - 1))
      → parse num_lanes offset_mod parser bytes offsets ≡ some (err invalid_arg)
  unfolding parse validate_offsets
  parse_invalid (inl z) = rw (parse, get_elem?-none offsets (length offsets - 1) (omega arith)) refl
  parse_invalid (inr l) = elim (dec_lt 0 (length offsets)) [
    | yes some_offset ↦
        rw
          (
            parse,
            get_elem?-eq-get_or offsets (length offsets - 1) 0 (omega arith),
            lt→ltb (length bytes) (offset offsets (length offsets - 1)) l,
          )
          refl
    | no none_left ↦ rw (parse, get_elem?-none offsets (length offsets - 1) (omega arith)) refl
  ]

  column_of-Encodes :
      (segs : List (List Token))
      → 0 < length offsets
      → AreParsed toks (row_of bytes offsets) 0 (length offsets - 1) segs
      → Encodes toks (column_of segs) (tokens_of bytes offsets)
  unfolding column_of
  column_of-Encodes segs l parsed =
      let size = AreParsed-le toks (row_of bytes offsets) 0 (length offsets - 1) segs parsed in
      record {
        view = rep;
        count = omega (arith, length-ends 0 segs, length-tokens_of bytes offsets);
        row_lem = λ k h.
            let inside : k < length segs = omega (arith, length-tokens_of bytes offsets) in
            let next : offset offsets (suc k) ≡ offset offsets (k + 1) =
              ap (offset offsets) (omega arith) in
            let row : tok (tokens_of bytes offsets) k ≡ row_of bytes offsets (0 + k) =
              tok-tokens_of bytes offsets k (omega arith)
              ∙ ap (λ (x : ℕ). span bytes (offset offsets k) x) next
              ∙ ap (row_of bytes offsets) (omega arith) in
            (
              get_or segs k [],
              row_codes-segment
                  (record {
                    dict = parser.dict;
                    codes = [] ++ joined segs;
                    row_offsets = (0 ∷ []) ++ ends 0 segs;
                  })
                  k (get_or segs k []) (ends-IsSegment [] segs k inside),
              subst (λ (s : Bytes). IsGreedy toks s (get_or segs k [])) (sym row)
                  (AreParsed-IsGreedy toks (row_of bytes offsets) 0 (length offsets - 1) k segs
                    parsed inside),
            );
      }

  -- For a parser of a sorted dictionary whose matcher finds longest tokens, any positive number
  -- of lanes, u8 bytes, and offsets that do not decrease and whose last fits the row offsets,
  -- with the bytes times the lanes and the offsets below 2^64: parse does not panic; offsets that
  -- are not empty and end inside the bytes give a column that encodes the rows of the pair
  -- greedily, and any other give InvalidArg.
  pub parse-Encodes :
      ((0 < length offsets)
        × (offset offsets (length offsets - 1) ≤ length bytes)
        × ((column : Column) × (parse num_lanes offset_mod parser bytes offsets ≡ some (ok column))
            × Encodes toks column (tokens_of bytes offsets)))
      ⊎ (((length offsets ≡ 0) ⊎ (length bytes < offset offsets (length offsets - 1)))
          × (parse num_lanes offset_mod parser bytes offsets ≡ some (err invalid_arg)))
  parse-Encodes = elim (dec_lt 0 (length offsets)) [
    | no empty ↦
        let bad : length offsets ≡ 0 = omega arith in inr (inl bad, parse_invalid (inl bad))
    | yes l ↦ elim (dec_lt (length bytes) (offset offsets (length offsets - 1))) [
      | yes past ↦ inr (inr past, parse_invalid (inr past))
      | no inside ↦
          let u : offset offsets (length offsets - 1) ≤ length bytes = omega arith in
          let (segs, parsed, e) =
            arrow_loop-AreParsed (Compact.as_view parser.dict) toks rep sorted parser.lpm m
              num_lanes some_lane offset_mod bytes fits offsets (valid-AreOffsets l u) batch_bytes
              (length offsets) 0 (record { codes = []; row_offsets = 0 ∷ [] }) (omega arith)
              (omega arith) (omega arith) in
          inl (l, u, (column_of segs, parse_valid segs l u e, column_of-Encodes segs l parsed))
    ]
  ]
