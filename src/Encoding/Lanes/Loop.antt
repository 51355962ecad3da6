-- ===== src/Encoding/Lanes/Loop.antt =====
-- encoding/lanes.rs, `parse_batch`: the loop ends, with every lane behind its last row.
use onpair.Common.{
  ℕ, zero, suc, ◌-◌, ◌≤◌, ◌<◌, ◌≡◌, ◌∙◌, refl, sym, ap, subst, true, false, some, arith, List, [],
  ◌∷◌, map, Bytes, length, ltb, dec_lt, le→ltb, ltb→le, Bool-cases, inl, inr,
}
use onpair.Core.Types.{Token}
use onpair.Dictionary.View.{DictionaryView, Tokens, tok, Represents, IsSorted}
use onpair.Dictionary.Compact.{Offsets}
use onpair.Dictionary.Compact.Safety.{offset}
use onpair.Encoding.Lanes.{Matcher, Lane, window, step_lane, step_lanes, any_running, lanes_loop}
use onpair.Encoding.Lanes.Invariant.{AreOffsets, IsLane, to_do}
use onpair.Encoding.Lanes.Rounds.{step_lane-IsStepped}
use onpair.Encoding.Lanes.Finder.{IsMatcher, AreHits, AreLanes, find_all-AreHits}

-- No lane has more than `bound` left.
abbrev pub AreWithin : Offsets → ℕ → List Lane → Type 0
AreWithin offsets bound [] = Unit
AreWithin offsets bound (lane ∷ lanes) =
    (to_do offsets lane ≤ bound) × AreWithin offsets bound lanes

module _ (offsets : Offsets) (lane lane' : Lane) (hit : Token × ℕ) (lanes lanes' : List Lane)
    (found : List (Token × ℕ)) where
  step_lanes_cons :
      step_lane offsets lane hit ≡ some lane'
      → step_lanes offsets lanes found ≡ some lanes'
      → step_lanes offsets (lane ∷ lanes) (hit ∷ found) ≡ some (lane' ∷ lanes')
  unfolding step_lanes
  step_lanes_cons e q = rw (e, q) refl

module _ (toks : Tokens) (nonempty : (i : Token) → i < length toks → 1 ≤ length (tok toks i))
    (bytes : Bytes) (offsets : Offsets) (o : AreOffsets bytes offsets) where
  -- A finished lane has nothing left.
  finished-to_do :
      (lane : Lane)
      → IsLane toks bytes offsets lane
      → lane.last_row ≤ lane.row
      → to_do offsets lane ≡ 0
  finished-to_do lane h over =
      let same : offset offsets lane.row ≡ offset offsets lane.last_row =
        ap (offset offsets) (omega (arith, h.until)) in
      omega (arith, h.low)

  -- A round.
  step_lanes-AreLanes :
      (a b bound : ℕ) (lanes : List Lane) (found : List (Token × ℕ))
      → AreLanes toks bytes offsets a b lanes
      → AreHits toks bytes lanes found
      → AreWithin offsets bound lanes
      → (lanes' : List Lane) × (step_lanes offsets lanes found ≡ some lanes')
        × AreLanes toks bytes offsets a b lanes'
        × AreWithin offsets (bound - 1) lanes'
        × (any_running lanes ≡ false → any_running lanes' ≡ false)
  unfolding step_lanes
  step_lanes-AreLanes a b bound [] found h hits w = ([], refl, h, tt, λ x. x)
  step_lanes-AreLanes a b bound (lane ∷ lanes) [] h hits w = elim hits [ ]
  step_lanes-AreLanes a b bound (lane ∷ lanes) (f ∷ found) (h, e, rest) (hit, hits) (here, w) =
      let (lane', q, s) = step_lane-IsStepped toks nonempty bytes offsets o lane h f hit in
      let (lanes', r, good, w', idle) =
        step_lanes-AreLanes lane.last_row b bound lanes found rest hits w in
      (
        lane' ∷ lanes',
        step_lanes_cons offsets lane lane' f lanes lanes' found q r,
        (
          s.lane_lem,
          s.same_bound ∙ e,
          subst (λ (x : ℕ). AreLanes toks bytes offsets x b lanes') (sym s.same_last) good,
        ),
        (
          elim (dec_lt lane.row lane.last_row) [
            | yes running ↦ omega (arith, s.moves running)
            | no over ↦ omega (arith, finished-to_do lane' s.lane_lem (s.stays (omega arith)))
          ],
          w',
        ),
        λ none_running.
            let over : ltb lane.row lane.last_row ≡ false = ground (arith, none_running) in
            let still = s.stays (ltb→le lane.row lane.last_row over) in
            let ended : ltb lane'.row lane'.last_row ≡ false =
              le→ltb lane'.row lane'.last_row still in
            let others = idle (ground (arith, none_running)) in rw (ended) others,
      )

  -- While a lane runs, something is left.
  running-AreWithin :
      (a b : ℕ) (lanes : List Lane) → AreWithin offsets 0 lanes → any_running lanes ≡ false
  running-AreWithin a b [] w = refl
  running-AreWithin a b (lane ∷ lanes) (here, w) =
      let over : ltb lane.row lane.last_row ≡ false = le→ltb lane.row lane.last_row (omega arith) in
      rw (over) (running-AreWithin a b lanes w)

module _ (matcher : Matcher) (bytes : Bytes) (offsets : Offsets) (fuel : ℕ)
    (lanes lanes' : List Lane) (found : List (Token × ℕ))
    (hit : matcher.find_all bytes (map (λ (lane : Lane). lane.at) lanes) (map window lanes)
      ≡ some found)
    (stepped : step_lanes offsets lanes found ≡ some lanes') where
  loop_end :
      any_running lanes ≡ false → lanes_loop matcher bytes offsets (suc fuel) lanes ≡ some lanes'
  unfolding lanes_loop
  loop_end e = rw (hit, stepped, e, lanes_loop) refl

  loop_round :
      any_running lanes ≡ true
      → lanes_loop matcher bytes offsets (suc fuel) lanes
        ≡ lanes_loop matcher bytes offsets fuel lanes'
  unfolding lanes_loop
  loop_round e = rw (hit, stepped, e, lanes_loop) refl

module _ (v : DictionaryView) (toks : Tokens) (rep : Represents v toks) (sorted : IsSorted toks)
    (matcher : Matcher) (m : IsMatcher toks matcher) (bytes : Bytes) (offsets : Offsets)
    (o : AreOffsets bytes offsets) where
  pub lanes_loop-AreLanes :
      (fuel a b : ℕ) (lanes : List Lane)
      → AreLanes toks bytes offsets a b lanes
      → AreWithin offsets fuel lanes
      → (lanes' : List Lane) × (lanes_loop matcher bytes offsets (suc fuel) lanes ≡ some lanes')
        × AreLanes toks bytes offsets a b lanes'
        × (any_running lanes' ≡ false)
  lanes_loop-AreLanes zero a b lanes h w =
      let (found, e, hits) =
        find_all-AreHits v toks rep sorted bytes offsets o matcher a b lanes m h in
      let (lanes', s, good, w', idle) =
        step_lanes-AreLanes toks rep.nonempty bytes offsets o a b 0 lanes found h hits w in
      let over = running-AreWithin toks rep.nonempty bytes offsets o a b lanes w in
      (lanes', loop_end matcher bytes offsets 0 lanes lanes' found e s over, good, idle over)
  lanes_loop-AreLanes (suc fuel) a b lanes h w =
      let (found, e, hits) =
        find_all-AreHits v toks rep sorted bytes offsets o matcher a b lanes m h in
      let (lanes', s, good, w', idle) =
        step_lanes-AreLanes toks rep.nonempty bytes offsets o a b (suc fuel) lanes found h hits w in
      elim (Bool-cases (any_running lanes)) [
        | inr over ↦ (
          lanes',
          loop_end matcher bytes offsets (suc fuel) lanes lanes' found e s over,
          good,
          idle over,
        )
        | inl running ↦
            let same : suc fuel - 1 ≡ fuel = omega arith in
            let (lanes'', r, done, over) =
              lanes_loop-AreLanes fuel a b lanes' good
                (subst (λ (n : ℕ). AreWithin offsets n lanes') same w') in
            (
              lanes'',
              loop_round matcher bytes offsets (suc fuel) lanes lanes' found e s running ∙ r,
              done,
              over,
            )
      ]
