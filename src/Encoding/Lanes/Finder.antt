-- ===== src/Encoding/Lanes/Finder.antt =====
-- encoding/lanes.rs: what the lanes rely on in the matcher, and that its answers fit them.
use onpair.Common.{
  ℕ, zero, suc, ◌+◌, ◌-◌, ◌≤◌, ◌<◌, ◌≡◌, ◌∙◌, refl, sym, ap, subst, some, arith, List, [], ◌∷◌, map,
  Bytes, length, take, drop, take-take, dec_lt, length-take,
}
use onpair.Core.Types.{Token, max_token_size}
use onpair.Dictionary.View.{DictionaryView, Tokens, tok, Represents, IsSorted, AreBytes}
use onpair.Dictionary.Compact.{Offsets}
use onpair.Search.Lookup.Longest.{IsLongest, window-IsLongest}
use onpair.Encoding.Lanes.{Matcher, Lane, window}
use onpair.Encoding.Lanes.Segments.{span}
use onpair.Encoding.Lanes.Invariant.{AreOffsets, IsLane, IsLane-row_end}
use onpair.Encoding.Lanes.Code.{IsHit}

-- A window of 1 to 16 bytes for each position.
abbrev pub AreWindows : List ℕ → List ℕ → Type 0
AreWindows [] [] = Unit
AreWindows (a ∷ at) (w ∷ win) = (1 ≤ w) × (w ≤ max_token_size) × AreWindows at win
AreWindows [] (w ∷ win) = ⊥
AreWindows (a ∷ at) [] = ⊥

-- For each window inside the bytes, the longest token that is a prefix of it.
abbrev pub AreFound : Tokens → Bytes → List ℕ → List ℕ → List (Token × ℕ) → Type 0
AreFound toks bytes [] win [] = Unit
AreFound toks bytes (a ∷ at) (w ∷ win) (f ∷ found) =
    (a + w ≤ length bytes → IsLongest toks (take w (drop a bytes)) (some f))
    × AreFound toks bytes at win found
AreFound toks bytes at win found = ⊥

-- The promise of `find_all`.
pub record IsMatcher (toks : Tokens) (matcher : Matcher) : Type 0 where
  pub find_all_lem :
      (bytes : Bytes) (at win : List ℕ)
      → AreBytes bytes
      → AreWindows at win
      → (found : List (Token × ℕ)) × (matcher.find_all bytes at win ≡ some found)
        × AreFound toks bytes at win found

-- The answers that the lanes can use.
abbrev pub AreHits : Tokens → Bytes → List Lane → List (Token × ℕ) → Type 0
AreHits toks bytes [] found = Unit
AreHits toks bytes (lane ∷ lanes) [] = ⊥
AreHits toks bytes (lane ∷ lanes) (f ∷ found) =
    IsHit toks bytes lane f × AreHits toks bytes lanes found

-- Adjacent lanes that together parse the rows from `a` to `b`.
abbrev pub AreLanes : Tokens → Bytes → Offsets → ℕ → ℕ → List Lane → Type 0
AreLanes toks bytes offsets a b [] = a ≡ b
AreLanes toks bytes offsets a b (lane ∷ lanes) =
    IsLane toks bytes offsets lane
    × (lane.bound ≡ a)
    × AreLanes toks bytes offsets lane.last_row b lanes

take_all {ℓ} : {A : Type ℓ} (n : ℕ) (xs : List A) → length xs ≤ n → take n xs ≡ xs
take_all zero [] l = refl
take_all zero (x ∷ xs) l = absurd (omega arith)
take_all (suc n) [] l = refl
take_all (suc n) (x ∷ xs) l = ap (λ t. x ∷ t) (take_all n xs (omega arith))

windows : (lanes : List Lane) → AreWindows (map (λ (lane : Lane). lane.at) lanes) (map window lanes)
windows [] = tt
windows (lane ∷ lanes) = (omega arith, omega arith, windows lanes)

module _ (v : DictionaryView) (toks : Tokens) (rep : Represents v toks) (sorted : IsSorted toks)
    (bytes : Bytes) (offsets : Offsets) (o : AreOffsets bytes offsets) where
  -- A window holds all of the row that a token can reach.
  window_lem :
      (lane : Lane)
      → IsLane toks bytes offsets lane
      → lane.at < lane.row_end
      → (take (window lane) (drop lane.at bytes)
          ≡ take max_token_size (span bytes lane.at lane.row_end))
        × (lane.at + window lane ≤ length bytes)
  window_lem lane h l =
      let high = IsLane-row_end toks bytes offsets o lane h in
      let small = o.small in
      let rest = drop lane.at bytes in
      (
        elim (dec_lt (lane.row_end - lane.at) max_token_size) [
          | yes short ↦
              let w : window lane ≡ lane.row_end - lane.at = omega arith in
              ap (λ (n : ℕ). take n rest) w
              ∙ sym (
                  take_all max_token_size (take (lane.row_end - lane.at) rest)
                    (omega (arith, length-take (lane.row_end - lane.at) rest)))
          | no long ↦
              let w : window lane ≡ max_token_size = omega arith in
              ap (λ (n : ℕ). take n rest) w
              ∙ sym (take-take max_token_size (lane.row_end - lane.at) rest (omega arith))
        ],
        omega arith,
      )

  pub AreFound-AreHits :
      (a b : ℕ) (lanes : List Lane) (found : List (Token × ℕ))
      → AreLanes toks bytes offsets a b lanes
      → AreFound toks bytes (map (λ (lane : Lane). lane.at) lanes) (map window lanes) found
      → AreHits toks bytes lanes found
  AreFound-AreHits a b [] found h f = tt
  AreFound-AreHits a b (lane ∷ lanes) [] h f = f
  AreFound-AreHits a b (lane ∷ lanes) (hit ∷ found) (h, e, rest) (best, f) = (
    λ l.
        let (same, inside) = window_lem lane h l in
        let longest =
          window-IsLongest v toks rep sorted (span bytes lane.at lane.row_end) (some hit)
            (subst (λ (s : Bytes). IsLongest toks s (some hit)) same (best inside)) in
        (
          longest.1,
          (
            longest.0,
            refl,
            longest.2,
            λ u k p. subst (λ (n : ℕ). length (tok toks u) ≤ n) longest.1 (longest.3 u k p),
          ),
        ),
    AreFound-AreHits lane.last_row b lanes found rest f,
  )

  pub find_all-AreHits :
      (matcher : Matcher) (a b : ℕ) (lanes : List Lane)
      → IsMatcher toks matcher
      → AreLanes toks bytes offsets a b lanes
      → (found : List (Token × ℕ)) × (matcher.find_all bytes
            (map (λ (lane : Lane). lane.at) lanes)
            (map window lanes)
          ≡ some found)
        × AreHits toks bytes lanes found
  find_all-AreHits matcher a b lanes m h =
      let (found, e, f) =
        m.find_all_lem bytes (map (λ (lane : Lane). lane.at) lanes) (map window lanes) o.are_bytes
          (windows lanes) in
      (found, e, AreFound-AreHits a b lanes found h f)
