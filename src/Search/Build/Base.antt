-- ===== src/Search/Build/Base.antt =====
-- search/substring/dfa.rs, `Build::base_pass`: the state that each token leads to from state 0.
use onpair.Common.{
  ℕ, zero, suc, ◌+◌, ◌≤◌, ◌<◌, ◌≡◌, ◌∙◌, ap, sym, refl, false, some, arith, List, [], ◌∷◌, Bytes,
  length, get_or, get_elem?-eq-get_or, set, length-set, get_or-set_self, get_or-set_ne, ◌==◌,
  dec_lt, Bool-cases, inl, inr,
}
use onpair.Core.Types.{Token}
use onpair.Dictionary.View.{DictionaryView, Tokens, tok, Represents}
use onpair.Search.Automaton.{State, max_pattern_len, fall_back, step_byte, step_bytes}
use onpair.Search.Automaton.Fallback.{AreFallbacks}
use onpair.Search.Automaton.Fall.{fall_back_zero}
use onpair.Search.Automaton.Reach.{reached, step_bytes-reached}
use onpair.Search.Build.{has_byte, base_loop}

-- What the passes work from: a pattern that is not refused, its failure table, and the transitions
-- of the tokens from state 0.
pub record IsPrepared (p : Bytes) (fail : List State) (toks : Tokens) (base : List State)
    : Type 0 where
  pub some_pattern : 0 < length p
  pub short : length p ≤ max_pattern_len
  pub fallbacks : AreFallbacks p (length p) fail
  pub size : length base ≡ length toks
  pub entry : (t : Token) → t < length toks → get_or base t 0 ≡ reached p fail 0 (tok toks t)

module _ (p : Bytes) (fail : List State) (fallbacks : AreFallbacks p (length p) fail)
    (some_pattern : 0 < length p) where
  step_byte_zero : (b : ℕ) → (b == get_or p 0 0) ≡ false → step_byte p fail 0 b ≡ some 0
  unfolding step_byte
  step_byte_zero b ne =
      let zero_falls : fall_back p fail 1 0 b ≡ some 0 =
        fall_back_zero p fail fallbacks 0 0 b refl in
      let ne' : (get_or p 0 0 == b) ≡ false = ground (arith, ne) in
      rw (zero_falls, get_elem?-eq-get_or p 0 0 some_pattern, ne') refl

  -- A token without the first byte of the pattern cannot leave state 0.
  step_bytes_zero : (w : Bytes) → has_byte (get_or p 0 0) w ≡ false → step_bytes p fail 0 w ≡ some 0
  unfolding step_bytes
  step_bytes_zero [] h = refl
  step_bytes_zero (b ∷ w) h =
      let start : (0 == length p) ≡ false = ground arith in
      rw (start, step_byte_zero b (ground (arith, h)), step_bytes)
        (step_bytes_zero w (ground (arith, h)))

module _ (v : DictionaryView) (toks : Tokens) (rep : Represents v toks) (p : Bytes)
    (fail : List State) (fallbacks : AreFallbacks p (length p) fail) (some_pattern : 0 < length p)
    (short : length p ≤ max_pattern_len) where
  base_loop_step :
      (left : ℕ) (t : Token) (base : List State)
      → t < length toks
      → base_loop v p fail (suc left) t base
        ≡ base_loop v p fail left (t + 1) (set base t (reached p fail 0 (tok toks t)))
  unfolding base_loop
  base_loop_step left t base l = elim (Bool-cases (has_byte (get_or p 0 0) (tok toks t))) [
    | inl h ↦
        rw
          (
            get_elem?-eq-get_or p 0 0 some_pattern,
            rep.token_lem t l,
            h,
            step_bytes-reached p fail some_pattern short fallbacks 0 (tok toks t) (omega arith),
            base_loop,
          )
          refl
    | inr h ↦
        rw
          (
            get_elem?-eq-get_or p 0 0 some_pattern,
            rep.token_lem t l,
            h,
            step_bytes_zero p fail fallbacks some_pattern (tok toks t) h,
            base_loop,
          )
          refl
  ]

  -- The tokens from `t` on get their transition.
  pub base_loop_lem :
      (left : ℕ) (t : Token) (base : List State)
      → t + left ≡ length toks
      → length base ≡ length toks
      → (base' : List State) × (base_loop v p fail left t base ≡ some base')
        × (length base' ≡ length toks)
        × ((i : Token) → i < t → get_or base' i 0 ≡ get_or base i 0)
        × ((i : Token) → t ≤ i → i < length toks → get_or base' i 0 ≡ reached p fail 0 (tok toks i))
  unfolding base_loop
  base_loop_lem zero t base e size = (base, refl, size, λ i l. refl, λ i l k. absurd (omega arith))
  base_loop_lem (suc left) t base e size =
      let s = reached p fail 0 (tok toks t) in
      let (base', q, size', old, fresh) =
        base_loop_lem left (t + 1) (set base t s) (omega arith) (length-set base t s ∙ size) in
      (
        base',
        base_loop_step left t base (omega arith) ∙ q,
        size',
        λ i l. old i (omega arith) ∙ get_or-set_ne base t i s 0 (λ q. omega arith),
        λ i l k. elim (dec_lt t i) [
          | yes later ↦ fresh i (omega arith) k
          | no now ↦
              let here : i ≡ t = omega arith in
              ap (λ (n : ℕ). get_or base' n 0) here
              ∙ old t (omega arith)
              ∙ get_or-set_self base t s 0 (omega arith)
              ∙ ap (λ (n : ℕ). reached p fail 0 (tok toks n)) (sym here)
        ],
      )
