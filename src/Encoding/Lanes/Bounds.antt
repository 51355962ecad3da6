-- ===== src/Encoding/Lanes/Bounds.antt =====
-- encoding/lanes.rs, `parse_batch`: the split of a batch into lanes, and the lanes before the first
-- round.
use onpair.Common.{
  ℕ, zero, suc, ◌+◌, ◌-◌, ◌*◌, ◌/◌, ◌%◌, ◌≤◌, ◌<◌, ◌≡◌, ◌∙◌, refl, sym, ap, false, some, arith,
  List, [], ◌∷◌, Bytes, length, replicate, length-replicate, get_elem?-eq-get_or, ltb, ◌==◌, dec_lt,
  ℕ_discrete, lt→ltb, le→ltb, if◌then◌else◌,
}
use native.Mathlib.Nat.{mul-le-mul_left, div-mul-le_self, le-div_iff_mul-le, mod-eq_of_lt, le_trans}
use onpair.Core.Types.{usize_mod}
use onpair.Dictionary.View.{Tokens}
use onpair.Dictionary.Compact.{Offsets}
use onpair.Dictionary.Compact.Safety.{offset}
use onpair.Decoding.{sub64}
use onpair.Encoding.Lanes.{Lane, below_count, lane_bound, start_lane, start_lanes}
use onpair.Encoding.Lanes.Invariant.{AreOffsets, IsLane, to_do}
use onpair.Encoding.Lanes.Segments.{span}
use onpair.Encoding.Lanes.Finder.{AreLanes}
use onpair.Encoding.Lanes.Loop.{AreWithin}

below_count_mono :
    (offsets : Offsets) (t u : ℕ) → t ≤ u → below_count offsets t ≤ below_count offsets u
below_count_mono [] t u l = omega arith
below_count_mono (o ∷ offsets) t u l = ground (arith, below_count_mono offsets t u l)

div_mono : (k a b : ℕ) → 0 < k → a ≤ b → a / k ≤ b / k
div_mono k a b l h = (le-div_iff_mul-le l).1 (le_trans (div-mul-le_self a k) h)

module _ (num_lanes : ℕ) (some_lane : 0 < num_lanes) (offsets : Offsets) (first total : ℕ)
    (fits : total * num_lanes < usize_mod) where
  target_mono :
      (j : ℕ)
      → j < num_lanes
      → first + total * j % usize_mod / num_lanes ≤ first + total * (j + 1) % usize_mod / num_lanes
  target_mono j l =
      let this : total * j ≤ total * (j + 1) = mul-le-mul_left total (omega arith) in
      let next : total * (j + 1) ≤ total * num_lanes = mul-le-mul_left total (omega arith) in
      let e : total * j % usize_mod ≡ total * j = mod-eq_of_lt (omega arith) in
      let q : total * (j + 1) % usize_mod ≡ total * (j + 1) = mod-eq_of_lt (omega arith) in
      let h : total * j % usize_mod ≤ total * (j + 1) % usize_mod = omega arith in
      let d =
        div_mono num_lanes (total * j % usize_mod) (total * (j + 1) % usize_mod) some_lane h in
      omega arith

  pub lane_bound_zero : lane_bound num_lanes offsets first total 0 ≡ 0
  unfolding lane_bound
  lane_bound_zero = refl

  pub lane_bound_last : lane_bound num_lanes offsets first total num_lanes ≡ length offsets - 1
  unfolding lane_bound
  lane_bound_last = ground (arith, some_lane)

  pub lane_bound_le : (j : ℕ) → lane_bound num_lanes offsets first total j ≤ length offsets - 1
  unfolding lane_bound
  lane_bound_le j = ground arith

  middle :
      (j : ℕ)
      → j < num_lanes
      → ¬ (j ≡ 0)
      → ¬ (j + 1 ≡ num_lanes)
      → lane_bound num_lanes offsets first total j
        ≤ lane_bound num_lanes offsets first total (j + 1)
  unfolding lane_bound
  middle j l nz inner =
      let counts =
        below_count_mono offsets (first + total * j % usize_mod / num_lanes)
          (first + total * (j + 1) % usize_mod / num_lanes) (target_mono j l) in
      let a : (j == 0) ≡ false = ground (arith, nz) in
      let b : (j == num_lanes) ≡ false = ground (arith, l) in
      let c : (j + 1 == 0) ≡ false = ground arith in
      let d : (j + 1 == num_lanes) ≡ false = ground (arith, inner) in rw (a, b, c, d) (omega arith)

  pub lane_bound_mono :
      (j : ℕ)
      → j < num_lanes
      → lane_bound num_lanes offsets first total j
        ≤ lane_bound num_lanes offsets first total (j + 1)
  lane_bound_mono j l = elim (ℕ_discrete j 0) [
    | yes z ↦
        let e = ap (lane_bound num_lanes offsets first total) z ∙ lane_bound_zero in omega arith
    | no nz ↦ elim (ℕ_discrete (j + 1) num_lanes) [
      | yes last ↦
          let e = ap (lane_bound num_lanes offsets first total) last ∙ lane_bound_last in
          omega (arith, lane_bound_le j)
      | no inner ↦ middle j l nz inner
    ]
  ]

module _ (toks : Tokens) (bytes : Bytes) (offsets : Offsets) (o : AreOffsets bytes offsets) where
  module _ (r₀ r₁ : ℕ) (ordered : r₀ ≤ r₁) (inside : r₁ < length offsets) where
    -- Where the first row of the lane ends.
    unfoldable pub first_end : ℕ
    first_end = if ltb r₀ r₁ then offset offsets (r₀ + 1) else offset offsets r₀

    unfoldable pub started : Lane
    started = record {
      bound = r₀;
      at = offset offsets r₀;
      row_end = first_end;
      row = r₀;
      last_row = r₁;
      count = 0;
      codes = replicate (sub64 (offset offsets r₁) (offset offsets r₀) + 1) 0;
      row_ends = replicate (sub64 r₁ r₀ + 1) 0;
    }

    start_lane_eq : start_lane offsets r₀ r₁ ≡ some started
    unfolding start_lane started first_end
    start_lane_eq = elim (dec_lt r₀ r₁) [
      | yes l ↦
          rw
            (
              get_elem?-eq-get_or offsets r₀ 0 (omega arith),
              lt→ltb r₀ r₁ l,
              get_elem?-eq-get_or offsets (r₀ + 1) 0 (omega arith),
              get_elem?-eq-get_or offsets r₁ 0 inside,
            )
            refl
      | no l ↦
          rw
            (
              get_elem?-eq-get_or offsets r₀ 0 (omega arith),
              le→ltb r₀ r₁ (omega arith),
              get_elem?-eq-get_or offsets r₁ 0 inside,
            )
            refl
    ]

    first_end-offset : r₀ < r₁ → first_end ≡ offset offsets (r₀ + 1)
    unfolding first_end
    first_end-offset l = rw (lt→ltb r₀ r₁ l) refl

    first_end_empty : r₁ ≤ r₀ → first_end ≡ offset offsets r₀
    unfolding first_end
    first_end_empty l = rw (le→ltb r₀ r₁ l) refl

    pub started-IsLane : IsLane toks bytes offsets started
    unfolding started
    started-IsLane =
        let ascends = o.ascending r₀ r₁ ordered inside in
        let whole = o.ascending r₁ (length offsets - 1) (omega arith) (omega arith) in
        record {
          segs = [];
          cur = [];
          parsed = refl;
          until = ordered;
          last = inside;
          low = omega arith;
          high = elim (dec_lt r₀ r₁) [
            | yes l ↦
                omega
                  (arith, first_end-offset l, o.ascending r₀ (r₀ + 1) (omega arith) (omega arith))
            | no l ↦ omega (arith, first_end_empty (omega arith))
          ];
          ending = first_end-offset;
          finished = λ l. (sym (first_end_empty l), ascends, refl);
          partial = λ l. ap (span bytes (offset offsets r₀)) (sym (first_end-offset l));
          fits = omega arith;
          written = refl;
          counted = refl;
          codes_size =
              length-replicate (sub64 (offset offsets r₁) (offset offsets r₀) + 1) 0
              ∙ omega (arith, o.inside, o.small);
          ends_size = length-replicate (sub64 r₁ r₀ + 1) 0 ∙ omega (arith, o.few);
          ended = refl;
        }

    started-to_do :
        to_do offsets started ≤ offset offsets (length offsets - 1) + (length offsets - 1)
    unfolding started
    started-to_do =
        let whole = o.ascending r₁ (length offsets - 1) (omega arith) (omega arith) in omega arith

    started-first :
        (c : ℕ) (lanes : List Lane)
        → AreLanes toks bytes offsets r₁ c lanes
        → AreLanes toks bytes offsets r₀ c (started ∷ lanes)
    unfolding started
    started-first c lanes good = (started-IsLane, refl, good)

  module _ (bounds : ℕ → ℕ) (num_lanes : ℕ)
      (mono : (j : ℕ) → j < num_lanes → bounds j ≤ bounds (j + 1))
      (le : (j : ℕ) → bounds j ≤ length offsets - 1) where
    start_lanes_cons :
        (left j : ℕ) (lane : Lane) (lanes : List Lane)
        → start_lane offsets (bounds j) (bounds (j + 1)) ≡ some lane
        → start_lanes offsets bounds left (j + 1) ≡ some lanes
        → start_lanes offsets bounds (suc left) j ≡ some (lane ∷ lanes)
    unfolding start_lanes
    start_lanes_cons left j lane lanes e q = rw (e, q) refl

    pub start_lanes-AreLanes :
        (left j : ℕ)
        → j + left ≡ num_lanes
        → (lanes : List Lane) × (start_lanes offsets bounds left j ≡ some lanes)
          × AreLanes toks bytes offsets (bounds j) (bounds num_lanes) lanes
          × AreWithin offsets (offset offsets (length offsets - 1) + (length offsets - 1)) lanes
    unfolding start_lanes
    start_lanes-AreLanes zero j e =
        let same : j ≡ num_lanes = omega arith in ([], refl, ap bounds same, tt)
    start_lanes-AreLanes (suc left) j e =
        let ordered = mono j (omega arith) in
        let inside : bounds (j + 1) < length offsets = omega (arith, le (j + 1), o.some_offset) in
        let (lanes, q, good, w) = start_lanes-AreLanes left (j + 1) (omega arith) in
        (
          _,
          start_lanes_cons left j _ lanes (start_lane_eq (bounds j) (bounds (j + 1)) ordered inside)
              q,
          started-first (bounds j) (bounds (j + 1)) ordered inside (bounds num_lanes) lanes good,
          (started-to_do (bounds j) (bounds (j + 1)) ordered inside, w),
        )
