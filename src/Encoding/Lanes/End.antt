-- ===== src/Encoding/Lanes/End.antt =====
-- encoding/lanes.rs, `parse_batch`: the end of the current row is recorded, and the lane moves to the
-- next row when the bytes of the row are used up.
use onpair.Common.{
  ℕ, ◌+◌, ◌-◌, ◌≤◌, ◌<◌, ◌≡◌, ◌∙◌, refl, sym, ap, subst, Bool, true, false, ◌&&◌, some, arith, List,
  [], ◌∷◌, ◌++◌, Bytes, length, get_elem?, get_elem?-eq-get_or, set, take, drop, min, ltb, ◌==◌,
  if◌then◌else◌, dec_lt, length-append, length-set, lt→ltb, le→ltb,
}
use mathlib.Core.List.{append-nil}
use onpair.Core.Types.{Token}
use onpair.Dictionary.View.{Tokens}
use onpair.Dictionary.Compact.{Offsets}
use onpair.Dictionary.Compact.Safety.{offset}
use onpair.Decoding.{sub64}
use onpair.Common.{put}
use onpair.Encoding.Lanes.{Lane, end_row}
use onpair.Encoding.Lanes.Segments.{
  span, GreedyTo, GreedyTo-IsGreedy, AreParsed, AreParsed-append, AreParsed-le, joined, ends,
  joined-append, ends-append, take-set_after, take-set_end,
}
use onpair.Encoding.Lanes.Invariant.{AreOffsets, row_of, IsLane}

-- The lane in row `row`, which ends at `row_end`.
abbrev pub in_row : Lane → List ℕ → ℕ → ℕ → Lane
in_row lane row_ends row row_end = record {
  bound = lane.bound;
  at = lane.at;
  row_end = row_end;
  row = row;
  last_row = lane.last_row;
  count = lane.count;
  codes = lane.codes;
  row_ends = row_ends;
}

length_nil : (cur : List Token) → length cur ≡ 0 → cur ≡ []
length_nil [] e = refl
length_nil (c ∷ cur) e = absurd (omega arith)

module _ (toks : Tokens) (bytes : Bytes) (offsets : Offsets) (o : AreOffsets bytes offsets)
    (lane : Lane) (h : IsLane toks bytes offsets lane) where
  -- The slot of the current row.
  slot : sub64 lane.row lane.bound ≡ length h.segs
  slot =
      let size = AreParsed-le toks (row_of bytes offsets) lane.bound lane.row h.segs h.parsed in
      omega (arith, h.until, h.last, o.few)

  slot_room : length h.segs < length lane.row_ends
  slot_room =
      let size = AreParsed-le toks (row_of bytes offsets) lane.bound lane.row h.segs h.parsed in
      omega (arith, h.until, h.ends_size)

  pub recorded : List ℕ
  recorded = set lane.row_ends (length h.segs) lane.count

  record_ok : put lane.row_ends (sub64 lane.row lane.bound) lane.count ≡ some recorded
  unfolding recorded
  record_ok = rw (slot, lt→ltb (length h.segs) (length lane.row_ends) slot_room) refl

  next_end :
      (row : ℕ)
      → get_elem? offsets (min (row + 1) (length offsets - 1))
        ≡ some (offset offsets (min (row + 1) (length offsets - 1)))
  next_end row =
      get_elem?-eq-get_or offsets (min (row + 1) (length offsets - 1)) 0
        (omega (arith, o.some_offset))

  pub stay_eq :
      (running : Bool)
      → ((lane.at == lane.row_end) && running) ≡ false
      → end_row offsets running lane ≡ some (in_row lane recorded lane.row lane.row_end)
  unfolding end_row
  stay_eq running e = rw (record_ok, e, next_end lane.row) refl

  pub stay-IsLane : IsLane toks bytes offsets (in_row lane recorded lane.row lane.row_end)
  unfolding recorded
  stay-IsLane = record {
    segs = h.segs;
    cur = h.cur;
    parsed = h.parsed;
    until = h.until;
    last = h.last;
    low = h.low;
    high = h.high;
    ending = h.ending;
    finished = h.finished;
    partial = h.partial;
    fits = h.fits;
    written = h.written;
    counted = h.counted;
    codes_size = h.codes_size;
    ends_size = length-set lane.row_ends (length h.segs) lane.count ∙ h.ends_size;
    ended =
        take-set_after lane.row_ends (length h.segs) (length h.segs) lane.count (omega arith)
        ∙ h.ended;
  }

  module _ (running : lane.row < lane.last_row) (used_up : lane.at ≡ lane.row_end) where
    -- Where the next row ends.
    pub following : ℕ
    following =
        if ltb (lane.row + 1) lane.last_row
        then offset offsets (min (lane.row + 1 + 1) (length offsets - 1))
        else lane.at

    pub done_eq : end_row offsets true lane ≡ some (in_row lane recorded (lane.row + 1) following)
    unfolding end_row following
    done_eq =
        let e : ((lane.at == lane.row_end) && true) ≡ true = ground (arith, used_up) in
        rw (record_ok, e, next_end (lane.row + 1)) refl

    following-offset : lane.row + 1 < lane.last_row → following ≡ offset offsets (lane.row + 1 + 1)
    unfolding following
    following-offset l =
        let inner : min (lane.row + 1 + 1) (length offsets - 1) ≡ lane.row + 1 + 1 =
          omega (arith, h.last) in
        rw (lt→ltb (lane.row + 1) lane.last_row l) (ap (offset offsets) inner)

    following_last : lane.last_row ≤ lane.row + 1 → following ≡ lane.at
    unfolding following
    following_last l = rw (le→ltb (lane.row + 1) lane.last_row l) refl

    -- The finished row.
    row_parsed :
        AreParsed toks (row_of bytes offsets) lane.bound (lane.row + 1) (h.segs ++ h.cur ∷ [])
    row_parsed =
        let used : lane.row_end - lane.at ≡ 0 = omega arith in
        let rest : span bytes lane.at lane.row_end ≡ [] =
          ap (λ (n : ℕ). take n (drop lane.at bytes)) used in
        let whole =
          GreedyTo-IsGreedy toks (row_of bytes offsets lane.row) h.cur (
            subst (GreedyTo toks (row_of bytes offsets lane.row) h.cur) rest (h.partial running)) in
        AreParsed-append toks (row_of bytes offsets) lane.bound lane.row (lane.row + 1) h.segs
          (h.cur ∷ []) h.parsed (whole, refl)

    pub done-IsLane : IsLane toks bytes offsets (in_row lane recorded (lane.row + 1) following)
    unfolding recorded
    done-IsLane =
        let at_next : lane.at ≡ offset offsets (lane.row + 1) = used_up ∙ h.ending running in
        let one : joined (h.cur ∷ []) ≡ h.cur = append-nil h.cur in
        let all : joined (h.segs ++ h.cur ∷ []) ≡ joined h.segs ++ h.cur =
          joined-append h.segs (h.cur ∷ []) ∙ ap (λ (c : List Token). joined h.segs ++ c) one in
        record {
          segs = h.segs ++ h.cur ∷ [];
          cur = [];
          parsed = row_parsed;
          until = omega arith;
          last = h.last;
          low = omega (arith, at_next);
          high = elim (dec_lt (lane.row + 1) lane.last_row) [
            | yes l ↦ omega (
              arith,
              at_next,
              following-offset l,
              o.ascending (lane.row + 1) (lane.row + 1 + 1) (omega arith) (omega (arith, h.last)),
            )
            | no l ↦ omega (arith, following_last (omega arith))
          ];
          ending = following-offset;
          finished = λ f.
              let last : offset offsets (lane.row + 1) ≡ offset offsets lane.last_row =
                ap (offset offsets) (omega arith) in
              (sym (following_last f), omega (arith, at_next), refl);
          partial = λ l. at_next-span at_next (following-offset l);
          fits = h.fits;
          written = h.written ∙ sym all ∙ sym (append-nil (joined (h.segs ++ h.cur ∷ [])));
          counted = omega (arith, h.counted, ap length all, length-append (joined h.segs) h.cur);
          codes_size = h.codes_size;
          ends_size = length-set lane.row_ends (length h.segs) lane.count ∙ h.ends_size;
          ended =
              let more : length (h.segs ++ h.cur ∷ []) ≡ length h.segs + 1 =
                length-append h.segs (h.cur ∷ []) ∙ omega arith in
              let here : lane.count ≡ 0 + length (joined h.segs) + length h.cur =
                omega (arith, h.counted) in
              ap (λ (n : ℕ). take n (set lane.row_ends (length h.segs) lane.count)) more
              ∙ take-set_end lane.row_ends (length h.segs) lane.count slot_room
              ∙ ap (λ (x : List ℕ). x ++ lane.count ∷ []) h.ended
              ∙ ap (λ (n : ℕ). ends 0 h.segs ++ n ∷ []) here
              ∙ sym (ends-append 0 h.segs (h.cur ∷ []));
        }
      where
        at_next-span :
            lane.at ≡ offset offsets (lane.row + 1)
            → following ≡ offset offsets (lane.row + 1 + 1)
            → row_of bytes offsets (lane.row + 1) ≡ span bytes lane.at following
        at_next-span a b = cc
