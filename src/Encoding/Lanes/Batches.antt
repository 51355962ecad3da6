-- ===== src/Encoding/Lanes/Batches.antt =====
-- encoding/lanes.rs, `parse_arrow`: batch after batch, all rows are parsed.
use onpair.Common.{
  ℕ, zero, suc, ◌+◌, ◌-◌, ◌*◌, ◌≤◌, ◌<◌, ◌≡◌, ◌∙◌, refl, sym, ap, subst, some, arith, List, [], ◌∷◌,
  ◌++◌, Bytes, length, take, drop, get_elem?-eq-get_or, get_or-drop, get_or-take, length-append,
  length-take, length-drop, max, dec_lt, lt→ltb, le→ltb,
}
use onpair.Core.Types.{Token, usize_mod}
use onpair.Dictionary.View.{DictionaryView, Tokens, Represents, IsSorted}
use onpair.Dictionary.Compact.{Offsets}
use onpair.Dictionary.Compact.Safety.{offset}
use onpair.Encoding.Lanes.{Matcher, Encoded, below_count, parse_batch, arrow_loop}
use onpair.Encoding.Lanes.Segments.{span, AreParsed, AreParsed-append, AreParsed-shift, joined}
use onpair.Encoding.Lanes.Invariant.{AreOffsets, row_of}
use onpair.Encoding.Lanes.Finder.{IsMatcher}
use onpair.Encoding.Lanes.Join.{extended, extended-append, extended_nil, parse_batch-AreParsed}

below_count-length : (offsets : Offsets) (t : ℕ) → below_count offsets t ≤ length offsets
below_count-length [] t = omega arith
below_count-length (o ∷ offsets) t = ground (arith, below_count-length offsets t)

-- The offsets of the rows from `start` to `end`.
abbrev part : Offsets → ℕ → ℕ → Offsets
part offsets start end = take (end + 1 - start) (drop start offsets)

module _ (bytes : Bytes) (offsets : Offsets) (o : AreOffsets bytes offsets) (start end : ℕ)
    (l : start < end) (u : end < length offsets) where
  part-size : length (part offsets start end) ≡ end + 1 - start
  part-size =
      omega (arith, length-take (end + 1 - start) (drop start offsets), length-drop start offsets)

  part-offset :
      (i : ℕ) → i < end + 1 - start → offset (part offsets start end) i ≡ offset offsets (start + i)
  part-offset i h =
      get_or-take (end + 1 - start) (drop start offsets) i h ∙ get_or-drop offsets start i 0

  part_first : offset (part offsets start end) 0 ≡ offset offsets start
  part_first = part-offset 0 (omega arith) ∙ ap (offset offsets) (omega arith)

  part_last :
      offset (part offsets start end) (length (part offsets start end) - 1) ≡ offset offsets end
  part_last =
      let last : length (part offsets start end) - 1 ≡ end - start = omega (arith, part-size) in
      ap (offset (part offsets start end)) last
      ∙ part-offset (end - start) (omega arith)
      ∙ ap (offset offsets) (omega arith)

  part-AreOffsets : AreOffsets bytes (part offsets start end)
  part-AreOffsets = record {
    are_bytes = o.are_bytes;
    some_offset = omega (arith, part-size);
    ascending = λ i j h k. omega (
      arith,
      part-size,
      part-offset i (omega (arith, part-size)),
      part-offset j (omega (arith, part-size)),
      o.ascending (start + i) (start + j) (omega arith) (omega (arith, part-size)),
    );
    inside = omega (
      arith,
      part_last,
      o.inside,
      o.ascending end (length offsets - 1) (omega arith) (omega arith),
    );
    small = o.small;
    few = omega (arith, part-size, o.few);
  }

  part-row :
      (k : ℕ)
      → 0 ≤ k
      → k < length (part offsets start end) - 1
      → row_of bytes (part offsets start end) k ≡ row_of bytes offsets (start + k)
  part-row k z h =
      let a = part-offset k (omega (arith, part-size)) in
      let b = part-offset (k + 1) (omega (arith, part-size)) in
      let next : start + (k + 1) ≡ start + k + 1 = omega arith in
      let c = b ∙ ap (offset offsets) next in
      ap (λ (x : ℕ). span bytes x (offset (part offsets start end) (k + 1))) a
      ∙ ap (span bytes (offset offsets (start + k))) c

module _ (v : DictionaryView) (toks : Tokens) (rep : Represents v toks) (sorted : IsSorted toks)
    (matcher : Matcher) (m : IsMatcher toks matcher) (num_lanes : ℕ) (some_lane : 0 < num_lanes)
    (offset_mod : ℕ) (bytes : Bytes) (fits : length bytes * num_lanes < usize_mod)
    (offsets : Offsets) (o : AreOffsets bytes offsets) (batch_bytes : ℕ) where
  arrow_end :
      (fuel start : ℕ) (out : Encoded)
      → length offsets - 1 ≤ start
      → arrow_loop matcher num_lanes offset_mod bytes offsets batch_bytes (suc fuel) start out
        ≡ some out
  unfolding arrow_loop
  arrow_end fuel start out l = rw (le→ltb start (length offsets - 1) l, arrow_loop) refl

  -- The end of the batch that begins at `start`.
  batch_end : ℕ → ℕ
  batch_end start =
      start
      + max (below_count (drop (start + 1) offsets) (offset offsets start + batch_bytes + 1)) 1

  arrow_batch :
      (fuel start : ℕ) (out out' : Encoded)
      → start < length offsets - 1
      → parse_batch matcher num_lanes offset_mod bytes (part offsets start (batch_end start)) out
        ≡ some out'
      → arrow_loop matcher num_lanes offset_mod bytes offsets batch_bytes (suc fuel) start out
        ≡ arrow_loop matcher num_lanes offset_mod bytes offsets batch_bytes fuel
            (batch_end start)
            out'
  unfolding arrow_loop batch_end
  arrow_batch fuel start out out' l e =
      rw
        (
          lt→ltb start (length offsets - 1) l,
          get_elem?-eq-get_or offsets start 0 (omega arith),
          e,
          arrow_loop,
        )
        refl

  arrow_extends :
      (fuel start : ℕ) (out : Encoded) (segs segs' : List (List Token))
      → start < length offsets - 1
      → parse_batch matcher num_lanes offset_mod bytes (part offsets start (batch_end start)) out
        ≡ some (extended out segs)
      → arrow_loop matcher num_lanes offset_mod bytes offsets batch_bytes fuel
          (batch_end start)
          (extended out segs)
        ≡ some (extended (extended out segs) segs')
      → arrow_loop matcher num_lanes offset_mod bytes offsets batch_bytes (suc fuel) start out
        ≡ some (extended out (segs ++ segs'))
  arrow_extends fuel start out segs segs' l e q =
      arrow_batch fuel start out (extended out segs) l e
      ∙ q
      ∙ ap some (extended-append out segs segs')

  batch_end-bounds :
      (start : ℕ)
      → start < length offsets - 1
      → (start < batch_end start) × (batch_end start < length offsets)
  unfolding batch_end
  batch_end-bounds start l =
      let count =
        below_count-length (drop (start + 1) offsets) (offset offsets start + batch_bytes + 1) in
      let size = length-drop (start + 1) offsets in (omega arith, omega arith)

  -- From a row on, all rows are parsed.
  pub arrow_loop-AreParsed :
      (fuel start : ℕ) (out : Encoded)
      → start ≤ length offsets - 1
      → length offsets - 1 < fuel + start
      → length out.codes + (offset offsets (length offsets - 1) - offset offsets start) < offset_mod
      → (segs : List (List Token)) × AreParsed toks
          (row_of bytes offsets)
          start
          (length offsets - 1)
          segs
        × (arrow_loop matcher num_lanes offset_mod bytes offsets batch_bytes fuel start out
            ≡ some (extended out segs))
  unfolding arrow_loop
  arrow_loop-AreParsed zero start out l f small = absurd (omega arith)
  arrow_loop-AreParsed (suc fuel) start out l f small = elim (dec_lt start (length offsets - 1)) [
    | no over ↦
        ([], omega arith, arrow_end fuel start out (omega arith) ∙ ap some (sym (extended_nil out)))
    | yes more ↦
        let end = batch_end start in
        let (later, inside) = batch_end-bounds start more in
        let some_later : start < end = later in
        let ascends = o.ascending start end (omega arith) inside in
        let ascends' = o.ascending end (length offsets - 1) (omega arith) (omega arith) in
        let first = part_first bytes offsets o start end later inside in
        let last = part_last bytes offsets o start end later inside in
        let size = part-size bytes offsets o start end later inside in
        let (segs, parsed, e, fit) =
          parse_batch-AreParsed v toks rep sorted matcher m num_lanes some_lane offset_mod bytes
            fits (part offsets start end) out
            (part-AreOffsets bytes offsets o start end later inside) (omega arith) in
        let from : start + 0 ≡ start = omega arith in
        let to : start + (length (part offsets start end) - 1) ≡ end = omega arith in
        let shifted =
          AreParsed-shift toks (row_of bytes (part offsets start end)) (row_of bytes offsets) start
            0 (length (part offsets start end) - 1) segs
            (part-row bytes offsets o start end later inside) parsed in
        let here : AreParsed toks (row_of bytes offsets) start end segs =
          subst (λ (x : ℕ). AreParsed toks (row_of bytes offsets) x end segs) from
            (subst (λ (x : ℕ). AreParsed toks (row_of bytes offsets) (start + 0) x segs) to
              shifted) in
        let (segs', parsed', e') =
          arrow_loop-AreParsed fuel end (extended out segs) (omega arith) (omega arith)
            (omega (arith, length-append out.codes (joined segs))) in
        (
          segs ++ segs',
          AreParsed-append toks (row_of bytes offsets) start end (length offsets - 1) segs segs'
              here parsed',
          arrow_extends fuel start out segs segs' more e e',
        )
  ]
