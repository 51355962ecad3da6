-- ===== src/Encoding/Lanes/Rounds.antt =====
-- encoding/lanes.rs, `parse_batch`: the rounds of the loop, and that they end with all rows parsed.
use onpair.Common.{
  ℕ, ◌≤◌, ◌<◌, ◌≡◌, ◌∙◌, refl, ap, Bool, true, false, ◌&&◌, some, arith, Bytes, length, ◌==◌,
  dec_lt, ℕ_discrete, lt→ltb,
}
use onpair.Core.Types.{Token}
use onpair.Dictionary.View.{Tokens, tok}
use onpair.Dictionary.Compact.{Offsets}
use onpair.Encoding.Lanes.{Lane, is_running, step_lane, end_row, take_code}
use onpair.Encoding.Lanes.Invariant.{AreOffsets, IsLane, IsLane-at, to_do}
use onpair.Encoding.Lanes.Code.{moved, IsHit, take_code-IsLane}
use onpair.Encoding.Lanes.End.{stay_eq, stay-IsLane, done_eq, done-IsLane}

module _ (toks : Tokens) (nonempty : (i : Token) → i < length toks → 1 ≤ length (tok toks i))
    (bytes : Bytes) (offsets : Offsets) (o : AreOffsets bytes offsets) where
  -- What one round does to a lane.
  pub record IsStepped (lane lane' : Lane) : Type 0 where
    pub lane_lem : IsLane toks bytes offsets lane'
    pub same_bound : lane'.bound ≡ lane.bound
    pub same_last : lane'.last_row ≡ lane.last_row
    pub moves : lane.row < lane.last_row → to_do offsets lane' < to_do offsets lane
    pub stays : lane.last_row ≤ lane.row → lane'.last_row ≤ lane'.row

  module _ (lane : Lane) (h : IsLane toks bytes offsets lane) (found : Token × ℕ) where
    step_eq :
        (lane₁ lane₂ : Lane)
        → take_code lane found ≡ some lane₁
        → end_row offsets (is_running lane) lane₁ ≡ some lane₂
        → step_lane offsets lane found ≡ some lane₂
    step_eq lane₁ lane₂ e q = rw (e) q

    -- For nonempty tokens and offsets that ascend inside the u8 bytes, step_lane does not panic
    -- on a lane that keeps the lane invariant, if an active lane gets the longest token of the
    -- rest of its row: the lane keeps the invariant and its rows, a running lane has less left to
    -- do, and a lane behind its last row stays there.
    pub step_lane-IsStepped :
        IsHit toks bytes lane found
        → (lane' : Lane) × (step_lane offsets lane found ≡ some lane') × IsStepped lane lane'
    step_lane-IsStepped hit =
        let (codes, n, k, e, g, moves) =
          take_code-IsLane toks nonempty bytes offsets o lane h found hit in
        let lane₁ = moved lane codes n k in
        let inside = IsLane-at toks bytes offsets o lane₁ g in
        elim (dec_lt lane.row lane.last_row) [
          | no over ↦
              let idle : ((lane₁.at == lane₁.row_end) && is_running lane) ≡ false =
                ground (arith, over) in
              (
                _,
                step_eq _ _ e (stay_eq toks bytes offsets o lane₁ g (is_running lane) idle),
                record {
                  lane_lem = stay-IsLane toks bytes offsets o lane₁ g;
                  same_bound = refl;
                  same_last = refl;
                  moves = λ r. absurd (over r);
                  stays = λ x. x;
                },
              )
          | yes running ↦ elim (ℕ_discrete lane₁.at lane₁.row_end) [
            | no more ↦
                let idle : ((lane₁.at == lane₁.row_end) && is_running lane) ≡ false =
                  ground (arith, more) in
                (
                  _,
                  step_eq _ _ e (stay_eq toks bytes offsets o lane₁ g (is_running lane) idle),
                  record {
                    lane_lem = stay-IsLane toks bytes offsets o lane₁ g;
                    same_bound = refl;
                    same_last = refl;
                    moves = λ r. omega (arith, moves, g.high, inside);
                    stays = λ x. x;
                  },
                )
            | yes used_up ↦
                let run : is_running lane ≡ true = lt→ltb lane.row lane.last_row running in
                (
                  _,
                  step_eq _ _ e (
                      ap (λ (b : Bool). end_row offsets b lane₁) run
                      ∙ done_eq toks bytes offsets o lane₁ g running used_up),
                  record {
                    lane_lem = done-IsLane toks bytes offsets o lane₁ g running used_up;
                    same_bound = refl;
                    same_last = refl;
                    moves = λ r. omega (arith, inside);
                    stays = λ x. absurd (omega arith);
                  },
                )
          ]
        ]
