-- ===== src/Search/Automaton/Fall.antt =====
-- search/substring/dfa.rs, the inner loop of `Build::step_bytes`: falling back to shorter matches.
use onpair.Common.{
  ℕ, zero, suc, ◌+◌, ◌-◌, ◌<◌, ◌≡◌, ◌≢◌, ◌∙◌, ◌⊎◌, inl, inr, refl, subst, arith, true, false, some,
  List, Bytes, length, get_or, get_elem?, get_elem?-eq-get_or, ltb, ◌==◌, lt→ltb, le→ltb,
  ℕ_discrete, dec_lt,
}
use onpair.Search.Automaton.{State, fall_back}
use onpair.Search.Automaton.Matches.{IsMatch, IsMatch-outward}
use onpair.Search.Automaton.Fallback.{IsFallback, AreFallbacks, IsRefused, IsFallback-IsRefused}

module _ (p : Bytes) (fail : List State) (fallbacks : AreFallbacks p (length p) fail) where
  -- Falling back ends at the longest match that the byte extends, or at zero.
  pub record FallsTo (t : Bytes) (b s : ℕ) : Type 0 where
    pub inside : s < length p
    pub match : IsMatch p t s
    pub refused : IsRefused p t (length p) b s
    pub stopped : (s ≡ 0) ⊎ (get_or p s 0 ≡ b)

  module _ (fuel s b : ℕ) where
    pub fall_back_zero : s ≡ 0 → fall_back p fail (suc fuel) s b ≡ some s
    unfolding fall_back
    fall_back_zero z = let e : ltb 0 s ≡ false = le→ltb 0 s (omega arith) in rw (e, fall_back) refl

    fall_back_stop :
        0 < s → s < length p → get_or p s 0 ≡ b → fall_back p fail (suc fuel) s b ≡ some s
    unfolding fall_back
    fall_back_stop l k e =
        let eq : (get_or p s 0 == b) ≡ true = ground (arith, e) in
        rw (lt→ltb 0 s l, get_elem?-eq-get_or p s 0 k, eq, fall_back) refl

    pub fall_back_step :
        0 < s
        → s < length p
        → get_or p s 0 ≢ b
        → fall_back p fail (suc fuel) s b ≡ fall_back p fail fuel (get_or fail (s - 1) 0) b
    unfolding fall_back
    fall_back_step l k ne =
        let ne' : (get_or p s 0 == b) ≡ false = ground (arith, ne) in
        let entry : get_elem? fail (s - 1) ≡ some (get_or fail (s - 1) 0) =
          get_elem?-eq-get_or fail (s - 1) 0 (omega (arith, fallbacks.size)) in
        rw (lt→ltb 0 s l, get_elem?-eq-get_or p s 0 k, ne', entry, fall_back) refl

  pub fall_back-FallsTo :
      (fuel s b : ℕ) (t : Bytes)
      → s < fuel
      → s < length p
      → IsMatch p t s
      → IsRefused p t (length p) b s
      → (s' : State) × (fall_back p fail fuel s b ≡ some s') × FallsTo t b s'
  unfolding fall_back
  fall_back-FallsTo zero s b t f l m r = elim f [ ]
  fall_back-FallsTo (suc fuel) s b t f l m r = elim (dec_lt 0 s) [
    | no none_left ↦
        let z : s ≡ 0 = omega arith in
        (
          s,
          fall_back_zero fuel s b z,
          record { inside = l; match = m; refused = r; stopped = inl z },
        )
    | yes some_left ↦ elim (ℕ_discrete (get_or p s 0) b) [
      | yes e ↦ (
        s,
        fall_back_stop fuel s b some_left l e,
        record { inside = l; match = m; refused = r; stopped = inr e },
      )
      | no ne ↦
          let back : s - 1 + 1 ≡ s = omega arith in
          let fb : IsFallback p s (get_or fail (s - 1) 0) =
            subst (λ (n : ℕ). IsFallback p n (get_or fail (s - 1) 0)) back
              (fallbacks.entry (s - 1) (omega arith)) in
          let (s', e, g) =
            fall_back-FallsTo fuel (get_or fail (s - 1) 0) b t (omega (arith, fb.shorter))
              (omega (arith, fb.shorter))
              (IsMatch-outward p t s (get_or fail (s - 1) 0) m (omega (arith, fb.shorter)) fb.match)
              (IsFallback-IsRefused p t (length p) b s (get_or fail (s - 1) 0) m fb ne r) in
          (s', fall_back_step fuel s b some_left l ne ∙ e, g)
    ]
  ]
