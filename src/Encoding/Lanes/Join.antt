-- ===== src/Encoding/Lanes/Join.antt =====
-- encoding/lanes.rs, `parse_batch`: the lanes are joined in row order, and what a batch appends.
use onpair.Common.{
  ℕ, suc, ◌+◌, ◌-◌, ◌*◌, ◌%◌, ◌≤◌, ◌<◌, ◌≡◌, ◌∙◌, refl, sym, ap, subst, false, some, arith, List,
  [], ◌∷◌, ◌++◌, Bytes, length, take, get_elem?, get_elem?-eq-get_or, length-append, ltb→le, le→leb,
}
use mathlib.Core.List.{append_assoc, append-nil}
use native.Mathlib.Nat.{mul-le-mul_right, mod-eq_of_lt}
use onpair.Core.Types.{Token, usize_mod}
use onpair.Dictionary.View.{DictionaryView, Tokens, Represents, IsSorted}
use onpair.Dictionary.Compact.{Offsets}
use onpair.Dictionary.Compact.Safety.{offset}
use onpair.Decoding.{sub64}
use onpair.Encoding.Lanes.{
  Matcher, Lane, Encoded, rebase, any_running, lane_bound, start_lanes, lanes_loop, join_lanes,
  parse_batch,
}
use onpair.Encoding.Lanes.Segments.{
  AreParsed, AreParsed-append, AreParsed-le, joined, ends, joined-append, ends-append,
}
use onpair.Encoding.Lanes.Invariant.{AreOffsets, row_of, IsLane, IsLane-at}
use onpair.Encoding.Lanes.Finder.{IsMatcher, AreLanes}
use onpair.Encoding.Lanes.Loop.{lanes_loop-AreLanes}
use onpair.Encoding.Lanes.Bounds.{
  lane_bound_zero, lane_bound_last, lane_bound_le, lane_bound_mono, start_lanes-AreLanes,
}

-- `out` with the segments behind it.
abbrev pub extended : Encoded → List (List Token) → Encoded
extended out segs = record {
  codes = out.codes ++ joined segs;
  row_offsets = out.row_offsets ++ ends (length out.codes) segs;
}

pub extended-append :
    (out : Encoded) (s t : List (List Token)) → extended (extended out s) t ≡ extended out (s ++ t)
extended-append out s t =
    let codes : (out.codes ++ joined s) ++ joined t ≡ out.codes ++ joined (s ++ t) =
      append_assoc out.codes (joined s) (joined t)
      ∙ ap (λ (c : List Token). out.codes ++ c) (sym (joined-append s t)) in
    let size : length (out.codes ++ joined s) ≡ length out.codes + length (joined s) =
      length-append out.codes (joined s) in
    let offsets : (out.row_offsets ++ ends (length out.codes) s)
          ++ ends (length (out.codes ++ joined s)) t
        ≡ out.row_offsets ++ ends (length out.codes) (s ++ t) =
      append_assoc out.row_offsets (ends (length out.codes) s)
        (ends (length (out.codes ++ joined s)) t)
      ∙ ap (λ (n : ℕ). out.row_offsets ++ (ends (length out.codes) s ++ ends n t)) size
      ∙ ap (λ (x : List ℕ). out.row_offsets ++ x) (sym (ends-append (length out.codes) s t)) in
    rw (codes, offsets) refl

pub extended_nil : (out : Encoded) → extended out [] ≡ out
extended_nil out = rw (append-nil out.codes, append-nil out.row_offsets) refl

rebase-ends :
    (offset_mod base k : ℕ) (segs : List (List Token))
    → base + k + length (joined segs) < offset_mod
    → rebase offset_mod base (ends k segs) ≡ ends (base + k) segs
rebase-ends offset_mod base k [] l = refl
rebase-ends offset_mod base k (s ∷ segs) l =
    let size = length-append s (joined segs) in
    let here : (base + (k + length s)) % offset_mod ≡ base + k + length s =
      mod-eq_of_lt (omega arith) ∙ omega arith in
    let next : base + (k + length s) ≡ base + k + length s = omega arith in
    let rest = rebase-ends offset_mod base (k + length s) segs (omega arith) in
    rw (here)
      (ap (λ (x : List ℕ). (base + k + length s) ∷ x) (rest ∙ ap (λ (n : ℕ). ends n segs) next))

module _ (toks : Tokens) (bytes : Bytes) (offsets : Offsets) (o : AreOffsets bytes offsets)
    (offset_mod : ℕ) where
  -- One finished lane.
  join_lanes_cons :
      (lane : Lane) (lanes : List Lane) (out : Encoded) (h : IsLane toks bytes offsets lane)
      → lane.last_row ≤ lane.row
      → length out.codes + (offset offsets lane.last_row - offset offsets lane.bound) < offset_mod
      → (join_lanes offset_mod (lane ∷ lanes) out
          ≡ join_lanes offset_mod lanes (extended out h.segs))
        × (length (joined h.segs) + offset offsets lane.bound ≤ offset offsets lane.last_row)
  unfolding join_lanes
  join_lanes_cons lane lanes out h over small =
      let (at_end, low, empty) = h.finished over in
      let size = AreParsed-le toks (row_of bytes offsets) lane.bound lane.row h.segs h.parsed in
      let rows : sub64 lane.last_row lane.bound ≡ length h.segs =
        omega (arith, h.until, h.last, o.few) in
      let room = IsLane-at toks bytes offsets o lane h in
      let a = le→leb lane.count (length lane.codes) (omega (arith, h.fits, h.codes_size)) in
      let b = le→leb (length h.segs) (length lane.row_ends) (omega (arith, h.until, h.ends_size)) in
      let codes : take lane.count lane.codes ≡ joined h.segs =
        h.written
        ∙ ap (λ (c : List Token). joined h.segs ++ c) (nil h.cur empty)
        ∙ append-nil (joined h.segs) in
      let offs : rebase offset_mod (length out.codes) (ends 0 h.segs)
          ≡ ends (length out.codes) h.segs =
        rebase-ends offset_mod (length out.codes) 0 h.segs (omega (arith, h.counted, h.fits))
        ∙ ap (λ (n : ℕ). ends n h.segs) (omega arith) in
      (rw (rows, a, b, codes, h.ended, offs) refl, omega (arith, h.counted, h.fits))
    where
      nil : (cur : List Token) → length cur ≡ 0 → cur ≡ []
      nil [] e = refl
      nil (c ∷ cur) e = absurd (omega arith)

  AreLanes-le : (a b : ℕ) (lanes : List Lane) → AreLanes toks bytes offsets a b lanes → a ≤ b
  AreLanes-le a b [] e = omega arith
  AreLanes-le a b (lane ∷ lanes) (h, e, rest) = omega (
    arith,
    AreLanes-le lane.last_row b lanes rest,
    AreParsed-le toks (row_of bytes offsets) lane.bound lane.row h.segs h.parsed,
    h.until,
  )

  pub join_lanes-AreParsed :
      (a b : ℕ) (lanes : List Lane) (out : Encoded)
      → AreLanes toks bytes offsets a b lanes
      → any_running lanes ≡ false
      → b < length offsets
      → length out.codes + (offset offsets b - offset offsets a) < offset_mod
      → (segs : List (List Token)) × AreParsed toks (row_of bytes offsets) a b segs
        × (join_lanes offset_mod lanes out ≡ some (extended out segs))
        × (length (joined segs) + offset offsets a ≤ offset offsets b)
  unfolding join_lanes
  join_lanes-AreParsed a b [] out e idle bl small =
      ([], e, ap some (sym (extended_nil out)), omega (arith, ap (offset offsets) e))
  join_lanes-AreParsed a b (lane ∷ lanes) out (h, e, rest) idle bl small =
      let over : lane.last_row ≤ lane.row = ltb→le lane.row lane.last_row (ground (arith, idle)) in
      let le = AreLanes-le lane.last_row b lanes rest in
      let ascends = o.ascending lane.last_row b le bl in
      let start : offset offsets lane.bound ≡ offset offsets a = ap (offset offsets) e in
      let whole : AreParsed toks (row_of bytes offsets) a lane.last_row h.segs =
        subst (λ (x : ℕ). AreParsed toks (row_of bytes offsets) x lane.last_row h.segs) e
          (subst (λ (x : ℕ). AreParsed toks (row_of bytes offsets) lane.bound x h.segs)
            (omega (arith, h.until)) h.parsed) in
      let (q, fits) = join_lanes_cons lane lanes out h over (omega arith) in
      let (segs, parsed, r, fits') =
        join_lanes-AreParsed lane.last_row b lanes (extended out h.segs) rest (ground (arith, idle))
          bl (omega (arith, length-append out.codes (joined h.segs))) in
      (
        h.segs ++ segs,
        AreParsed-append toks (row_of bytes offsets) a lane.last_row b h.segs segs whole parsed,
        q ∙ r ∙ ap some (extended-append out h.segs segs),
        omega (
          arith,
          ap length (joined-append h.segs segs),
          length-append (joined h.segs) (joined segs),
        ),
      )

module _ (v : DictionaryView) (toks : Tokens) (rep : Represents v toks) (sorted : IsSorted toks)
    (matcher : Matcher) (m : IsMatcher toks matcher) (num_lanes : ℕ) (some_lane : 0 < num_lanes)
    (offset_mod : ℕ) (bytes : Bytes) (fits : length bytes * num_lanes < usize_mod) where
  parse_batch_eq :
      (offsets : Offsets) (out : Encoded) (first last : ℕ) (lanes lanes' : List Lane)
      → get_elem? offsets 0 ≡ some first
      → get_elem? offsets (length offsets - 1) ≡ some last
      → start_lanes offsets (lane_bound num_lanes offsets first (sub64 last first)) num_lanes 0
        ≡ some lanes
      → lanes_loop matcher bytes offsets (last + length offsets) lanes ≡ some lanes'
      → parse_batch matcher num_lanes offset_mod bytes offsets out
        ≡ join_lanes offset_mod lanes' out
  unfolding parse_batch
  parse_batch_eq offsets out first last lanes lanes' a b c d = rw (a, b, c, d) refl

  -- A batch appends the greedy codes of its rows, row by row.
  pub parse_batch-AreParsed :
      (offsets : Offsets) (out : Encoded)
      → AreOffsets bytes offsets
      → length out.codes + (offset offsets (length offsets - 1) - offset offsets 0) < offset_mod
      → (segs : List (List Token)) × AreParsed toks
          (row_of bytes offsets)
          0
          (length offsets - 1)
          segs
        × (parse_batch matcher num_lanes offset_mod bytes offsets out ≡ some (extended out segs))
        × (length (joined segs) + offset offsets 0 ≤ offset offsets (length offsets - 1))
  parse_batch-AreParsed offsets out o small =
      let first = offset offsets 0 in
      let last = offset offsets (length offsets - 1) in
      let total : sub64 last first ≤ length bytes = omega (
        arith,
        o.inside,
        o.small,
        o.ascending 0 (length offsets - 1) (omega arith) (omega (arith, o.some_offset)),
      ) in
      let product : sub64 last first * num_lanes < usize_mod =
        omega (arith, mul-le-mul_right num_lanes total) in
      let bounds = lane_bound num_lanes offsets first (sub64 last first) in
      let (lanes, s, good, w) =
        start_lanes-AreLanes toks bytes offsets o bounds num_lanes
          (lane_bound_mono num_lanes some_lane offsets first (sub64 last first) product)
          (lane_bound_le num_lanes some_lane offsets first (sub64 last first) product) num_lanes 0
          (omega arith) in
      let (lanes', l, done, idle) =
        lanes_loop-AreLanes v toks rep sorted matcher m bytes offsets o
          (last + (length offsets - 1)) (bounds 0) (bounds num_lanes) lanes good w in
      let fuel : last + length offsets ≡ suc (last + (length offsets - 1)) =
        omega (arith, o.some_offset) in
      let from = lane_bound_zero num_lanes some_lane offsets first (sub64 last first) product in
      let to = lane_bound_last num_lanes some_lane offsets first (sub64 last first) product in
      let done' : AreLanes toks bytes offsets 0 (length offsets - 1) lanes' =
        subst (λ (x : ℕ). AreLanes toks bytes offsets x (length offsets - 1) lanes') from
          (subst (λ (x : ℕ). AreLanes toks bytes offsets (bounds 0) x lanes') to done) in
      let (segs, parsed, j, fit) =
        join_lanes-AreParsed toks bytes offsets o offset_mod 0 (length offsets - 1) lanes' out done'
          idle (omega (arith, o.some_offset)) small in
      (
        segs,
        parsed,
        parse_batch_eq offsets out first last lanes lanes'
              (get_elem?-eq-get_or offsets 0 0 o.some_offset)
              (get_elem?-eq-get_or offsets (length offsets - 1) 0 (omega (arith, o.some_offset))) s
              (ap (λ (n : ℕ). lanes_loop matcher bytes offsets n lanes) fuel ∙ l)
            ∙ j,
        fit,
      )
