-- ===== src/Search/Build/Relevant.antt =====
-- search/substring/dfa.rs, `sparse_pass`: a state moves by a byte off its failure chain like state 0.
use onpair.Common.{
  ℕ, zero, suc, ◌+◌, ◌-◌, ◌<◌, ◌≡◌, ◌∙◌, ap, refl, false, some, arith, List, [], ◌∷◌, Bytes, length,
  get_or, get_elem?, get_elem?-eq-get_or, ltb, ◌==◌, lt→ltb, le→ltb, dec_lt,
}
use onpair.Search.Automaton.{State, fall_back, step_byte, step_bytes}
use onpair.Search.Automaton.Fallback.{AreFallbacks}
use onpair.Search.Automaton.Fall.{fall_back_zero, fall_back_step}
use onpair.Search.Build.{chain, has_byte}

module _ (p : Bytes) (fail : List State) (fallbacks : AreFallbacks p (length p) fail) where
  -- The chain does not panic, and a byte off it falls back to state 0.
  pub chain_lem :
      (fuel : ℕ) (s : State)
      → s < fuel
      → s < length p
      → (bytes : Bytes) × (chain p fail fuel s ≡ some bytes)
        × ((b : ℕ) → has_byte b bytes ≡ false → fall_back p fail fuel s b ≡ some 0)
  unfolding chain
  chain_lem zero s f l = absurd (omega arith)
  chain_lem (suc fuel) s f l = elim (dec_lt 0 s) [
    | no z ↦
        let e : s ≡ 0 = omega arith in
        let at_zero : ltb 0 s ≡ false = le→ltb 0 s (omega arith) in
        (
          [],
          rw (at_zero, chain) refl,
          λ b h. fall_back_zero p fail fallbacks fuel s b e ∙ ap some e,
        )
    | yes some_left ↦
        let entry : get_elem? fail (s - 1) ≡ some (get_or fail (s - 1) 0) =
          get_elem?-eq-get_or fail (s - 1) 0 (omega (arith, fallbacks.size)) in
        let smaller = (fallbacks.entry (s - 1) (omega arith)).shorter in
        let (bytes, e, h) = chain_lem fuel (get_or fail (s - 1) 0) (omega arith) (omega arith) in
        (
          get_or p s 0 ∷ bytes,
          rw (lt→ltb 0 s some_left, get_elem?-eq-get_or p s 0 l, entry, e, chain) refl,
          λ b off.
              fall_back_step p fail fallbacks fuel s b some_left l (λ q. ground (arith, off, q))
              ∙ h b (ground (arith, off)),
        )
  ]

  module _ (j : State) (inside : j < length p) (b : ℕ)
      (falls : fall_back p fail (j + 1) j b ≡ some 0) where
    step_byte_falls : step_byte p fail j b ≡ step_byte p fail 0 b
    unfolding step_byte
    step_byte_falls =
        let e : suc j ≡ j + 1 = omega arith in
        let from : fall_back p fail (suc j) j b ≡ some 0 =
          ap (λ (n : ℕ). fall_back p fail n j b) e ∙ falls in
        let zero_falls : fall_back p fail 1 0 b ≡ some 0 =
          fall_back_zero p fail fallbacks 0 0 b refl in
        rw (from, zero_falls) refl

    pub step_bytes_falls : (w : Bytes) → step_bytes p fail j (b ∷ w) ≡ step_bytes p fail 0 (b ∷ w)
    unfolding step_bytes
    step_bytes_falls w =
        let from : (j == length p) ≡ false = ground arith in
        let start : (0 == length p) ≡ false = ground arith in
        rw (from, start, step_byte_falls, step_bytes) refl
