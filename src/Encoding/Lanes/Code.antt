-- ===== src/Encoding/Lanes/Code.antt =====
-- encoding/lanes.rs, `parse_batch`: a lane takes the code that the matcher found.
use onpair.Common.{
  ℕ, ◌+◌, ◌-◌, ◌≤◌, ◌<◌, ◌≡◌, ◌∙◌, refl, sym, ap, subst, some, arith, List, [], ◌∷◌, ◌++◌, Bytes,
  length, set, take, drop, dec_lt, length-take, length-drop, length-append, length-set, lt→ltb,
  le→ltb, is_prefix-length,
}
use mathlib.Core.List.{append_assoc}
use onpair.Core.Types.{Token}
use onpair.Dictionary.View.{Tokens, tok}
use onpair.Dictionary.Compact.{Offsets}
use onpair.Search.Tokenize.Greedy.{IsBest}
use onpair.Encoding.Lanes.{Lane, take_code}
use onpair.Encoding.Lanes.Segments.{
  span, GreedyTo, GreedyTo-snoc, joined, take-set_after, take-set_end, drop-span,
}
use onpair.Encoding.Lanes.Invariant.{AreOffsets, row_of, IsLane, IsLane-at}

-- The lane after `n` more bytes and `k` more codes.
abbrev pub moved : Lane → List Token → ℕ → ℕ → Lane
moved lane codes n k = record {
  bound = lane.bound;
  at = lane.at + n;
  row_end = lane.row_end;
  row = lane.row;
  last_row = lane.last_row;
  count = lane.count + k;
  codes = codes;
  row_ends = lane.row_ends;
}

-- What the matcher is to find for a lane that has bytes left in its row.
abbrev pub IsHit : Tokens → Bytes → Lane → Token × ℕ → Type 0
IsHit toks bytes lane found =
    lane.at < lane.row_end
    → (found.1 ≡ length (tok toks found.0)) × IsBest toks (span bytes lane.at lane.row_end) found.0

module _ (lane : Lane) (found : Token × ℕ) (room : lane.count < length lane.codes) where
  take_code_active :
      lane.at < lane.row_end
      → take_code lane found ≡ some (moved lane (set lane.codes lane.count found.0) found.1 1)
  unfolding take_code
  take_code_active l =
      rw (lt→ltb lane.count (length lane.codes) room, lt→ltb lane.at lane.row_end l) refl

  take_code_idle :
      lane.row_end ≤ lane.at
      → take_code lane found ≡ some (moved lane (set lane.codes lane.count found.0) 0 0)
  unfolding take_code
  take_code_idle l =
      rw (lt→ltb lane.count (length lane.codes) room, le→ltb lane.at lane.row_end l) refl

module _ (toks : Tokens) (nonempty : (i : Token) → i < length toks → 1 ≤ length (tok toks i))
    (bytes : Bytes) (offsets : Offsets) (o : AreOffsets bytes offsets) (lane : Lane)
    (h : IsLane toks bytes offsets lane) (found : Token × ℕ) where
  code_room : lane.count < length lane.codes
  code_room = omega (arith, h.fits, h.codes_size, IsLane-at toks bytes offsets o lane h)

  idle-IsLane :
      lane.row_end ≤ lane.at
      → IsLane toks bytes offsets (moved lane (set lane.codes lane.count found.0) 0 0)
  idle-IsLane l =
      let same : lane.at + 0 ≡ lane.at = omega arith in
      let count : lane.count + 0 ≡ lane.count = omega arith in
      record {
        segs = h.segs;
        cur = h.cur;
        parsed = h.parsed;
        until = h.until;
        last = h.last;
        low = omega (arith, h.low);
        high = omega (arith, h.high);
        ending = h.ending;
        finished = λ f. let (e, u, z) = h.finished f in (same ∙ e, omega arith, z);
        partial = λ r.
            subst
              (λ (n : ℕ).
                GreedyTo toks (row_of bytes offsets lane.row) h.cur (span bytes n lane.row_end))
              (sym same) (h.partial r);
        fits = omega (arith, h.fits);
        written =
            ap (λ (n : ℕ). take n (set lane.codes lane.count found.0)) count
            ∙ take-set_after lane.codes lane.count lane.count found.0 (omega arith)
            ∙ h.written;
        counted = count ∙ h.counted;
        codes_size = length-set lane.codes lane.count found.0 ∙ h.codes_size;
        ends_size = h.ends_size;
        ended = h.ended;
      }

  module _ (l : lane.at < lane.row_end) (size : found.1 ≡ length (tok toks found.0))
      (best : IsBest toks (span bytes lane.at lane.row_end) found.0) where
    hit_fits : (1 ≤ found.1) × (lane.at + found.1 ≤ lane.row_end)
    hit_fits =
        let fit = is_prefix-length (tok toks found.0) (span bytes lane.at lane.row_end) best.2 in
        (
          omega (arith, nonempty found.0 best.0),
          omega (
            arith,
            length-take (lane.row_end - lane.at) (drop lane.at bytes),
            length-drop lane.at bytes,
          ),
        )

    still_running : lane.row < lane.last_row
    still_running = elim (dec_lt lane.row lane.last_row) [
      | yes r ↦ r
      | no over ↦ let f = h.finished (omega arith) in absurd (omega (arith, f.0))
    ]

    active-IsLane :
        IsLane toks bytes offsets (moved lane (set lane.codes lane.count found.0) found.1 1)
    active-IsLane =
        let (one, fit) = hit_fits in
        record {
          segs = h.segs;
          cur = h.cur ++ found.0 ∷ [];
          parsed = h.parsed;
          until = h.until;
          last = h.last;
          low = omega (arith, h.low);
          high = fit;
          ending = h.ending;
          finished = λ f. absurd (omega (arith, still_running));
          partial = λ r.
              subst (GreedyTo toks (row_of bytes offsets lane.row) (h.cur ++ found.0 ∷ []))
                (drop-span bytes lane.at lane.row_end (length (tok toks found.0))
                  ∙ ap (λ (n : ℕ). span bytes (lane.at + n) lane.row_end) (sym size))
                (GreedyTo-snoc toks _ _ h.cur found.0 (h.partial r) best);
          fits = omega (arith, h.fits);
          written =
              take-set_end lane.codes lane.count found.0 code_room
              ∙ ap (λ (c : List Token). c ++ found.0 ∷ []) h.written
              ∙ append_assoc (joined h.segs) h.cur (found.0 ∷ []);
          counted = omega (arith, h.counted, length-append h.cur (found.0 ∷ []));
          codes_size = length-set lane.codes lane.count found.0 ∙ h.codes_size;
          ends_size = h.ends_size;
          ended = h.ended;
        }

  -- The lane stays well formed, and one that was active has moved.
  pub take_code-IsLane :
      IsHit toks bytes lane found
      → (codes : List Token) × (n : ℕ) × (k : ℕ) × (take_code lane found
          ≡ some (moved lane codes n k))
        × IsLane toks bytes offsets (moved lane codes n k)
        × (lane.at < lane.row_end → 1 ≤ n)
  take_code-IsLane hit = elim (dec_lt lane.at lane.row_end) [
    | yes l ↦
        let (size, best) = hit l in
        (
          _,
          found.1,
          1,
          take_code_active lane found code_room l,
          active-IsLane l size best,
          λ x. (hit_fits l size best).0,
        )
    | no idle ↦ (
      _,
      0,
      0,
      take_code_idle lane found code_room (omega arith),
      idle-IsLane (omega arith),
      λ x. absurd (omega arith),
    )
  ]
