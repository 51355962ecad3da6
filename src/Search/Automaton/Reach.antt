-- ===== src/Search/Automaton/Reach.antt =====
-- search/substring/dfa.rs, `Build::step_bytes` from any state: that it is total, and how it reads
-- texts in parts.
use onpair.Common.{
  ℕ, ◌-◌, ◌≤◌, ◌<◌, ◌≡◌, ◌∙◌, inl, inr, refl, sym, ap, arith, false, Option, some, [], ◌∷◌, ◌++◌,
  List, Bytes, length, take, drop, length-take, ◌==◌, ==_refl, ◌>>=◌, dec_lt, Bool-cases,
  Option-cases, is_prefix, is_prefix-length,
}
use mathlib.Core.Option
use onpair.Search.Automaton.{State, max_pattern_len, step_byte, step_bytes}
use onpair.Search.Automaton.Fallback.{AreFallbacks}
use onpair.Search.Automaton.Occurs.{occurs}
use onpair.Search.Automaton.Steps.{IsState, step_bytes-IsState}

occurs_shorter : (p t : Bytes) → length t < length p → occurs p t ≡ false
occurs_shorter [] t l = absurd (omega arith)
occurs_shorter (a ∷ p) [] l = refl
occurs_shorter (a ∷ p) (b ∷ t) l = elim (Bool-cases (is_prefix (a ∷ p) (b ∷ t))) [
  | inl h ↦ absurd (omega (arith, is_prefix-length (a ∷ p) (b ∷ t) h))
  | inr h ↦ ground (arith, h, occurs_shorter (a ∷ p) t (omega arith))
]

module _ (p : Bytes) (fail : List State) where
  -- Acceptance is final.
  step_bytes_stays : (w : Bytes) → step_bytes p fail (length p) w ≡ some (length p)
  unfolding step_bytes
  step_bytes_stays [] = refl
  step_bytes_stays (b ∷ w) = rw (==_refl (length p), step_bytes) refl

  step_bytes-append :
      (s : State) (a b : Bytes)
      → step_bytes p fail s (a ++ b) ≡ (step_bytes p fail s a >>= (λ k. step_bytes p fail k b))
  unfolding step_bytes
  step_bytes-append s [] b = refl
  step_bytes-append s (x ∷ a) b = elim (Bool-cases (s == length p)) [
    | inl e ↦ rw (e, step_bytes) (sym (step_bytes_stays b))
    | inr e ↦ elim (Option-cases (step_byte p fail s x)) [
      | inl q ↦ rw (e, q, step_bytes) refl
      | inr (k, q) ↦ rw (e, q, step_bytes) (step_bytes-append k a b)
    ]
  ]

  -- The state after a text.
  abbrev pub reached : State → Bytes → State
  reached s w = Option.get_or (step_bytes p fail s w) 0

  pub reached_accept : (w : Bytes) → reached (length p) w ≡ length p
  reached_accept w = ap (λ (o : Option ℕ). Option.get_or o 0) (step_bytes_stays w)

  module _ (some_pattern : 0 < length p) (short : length p ≤ max_pattern_len)
      (fallbacks : AreFallbacks p (length p) fail) where
    prefix-IsState : (s : State) → s < length p → IsState p (take s p) s
    prefix-IsState s l =
        let size : length (take s p) ≡ s = omega (arith, length-take s p) in
        let from : length (take s p) - s ≡ 0 = omega arith in
        inr (
          l,
          occurs_shorter p (take s p) (omega arith),
          record {
            match = record {
              inside = omega arith;
              fits = omega arith;
              same = ap (λ (n : ℕ). drop n (take s p)) from;
            };
            longest = λ j m. omega (arith, m.fits);
          },
        )

    reaches :
        (s : State) (w : Bytes)
        → s ≤ length p
        → (k : State) × (step_bytes p fail s w ≡ some k) × (k ≤ length p)
    reaches s w l = elim (dec_lt s (length p)) [
      | yes h ↦
          let (k, e, i) =
            step_bytes-IsState p some_pattern short fail fallbacks (take s p) w s
              (prefix-IsState s h) in
          (k, e, elim i [ inl (q, there) ↦ omega arith | inr (b, absent, m) ↦ omega arith ])
      | no h ↦
          let q : s ≡ length p = omega arith in
          (length p, ap (λ (n : ℕ). step_bytes p fail n w) q ∙ step_bytes_stays w, omega arith)
    ]

    -- From any state step_bytes does not panic.
    pub step_bytes-reached :
        (s : State) (w : Bytes) → s ≤ length p → step_bytes p fail s w ≡ some (reached s w)
    step_bytes-reached s w l = let (k, e, u) = reaches s w l in rw (e) refl

    pub reached_le : (s : State) (w : Bytes) → s ≤ length p → reached s w ≤ length p
    reached_le s w l = let (k, e, u) = reaches s w l in rw (e) u

    pub reached-append :
        (s : State) (a b : Bytes) → s ≤ length p → reached s (a ++ b) ≡ reached (reached s a) b
    reached-append s a b l =
        let (k, e, u) = reaches s a l in
        ap (λ (o : Option ℕ). Option.get_or o 0) (step_bytes-append s a b) ∙ rw (e) refl
