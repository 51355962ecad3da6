-- ===== src/Search/Automaton/Occurs.antt =====
-- search/substring/dfa.rs: occurrences of a pattern in a text, and how they end.
use onpair.Common.{
  ℕ, suc, ◌-◌, ◌≤◌, ◌<◌, ◌≡◌, ◌∙◌, ◌⊎◌, inl, inr, refl, sym, ap, subst, arith, Bool, true, ◌||◌, [],
  ◌∷◌, ◌++◌, Bytes, length, drop, is_prefix, is_prefix-length, is_prefix-same_length,
  is_prefix_refl, is_prefix-append, is_prefix_trans, is_prefix-linear, length-append, take-length,
  Bool-cases, dec_lt,
}
use onpair.Search.Automaton.Matches.{IsMatch}

-- The text contains the pattern.
abbrev pub occurs : Bytes → Bytes → Bool
occurs p [] = is_prefix p []
occurs p (b ∷ s) = is_prefix p (b ∷ s) || occurs p s

pub occurs-append : (p s t : Bytes) → occurs p s ≡ true → occurs p (s ++ t) ≡ true
occurs-append [] [] [] h = refl
occurs-append [] [] (b ∷ t) h = refl
occurs-append (a ∷ p) [] t h = ground arith
occurs-append p (b ∷ s) t h = elim (Bool-cases (is_prefix p (b ∷ s))) [
  | inl here ↦
      let longer : is_prefix p (b ∷ s ++ t) ≡ true =
        is_prefix_trans p (b ∷ s) (b ∷ s ++ t) here (is_prefix-append (b ∷ s) t) in
      ground (arith, longer)
  | inr absent ↦
      let later : occurs p s ≡ true = ground (arith, h, absent) in
      let longer = occurs-append p s t later in ground (arith, longer)
]

-- A whole match is an occurrence.
pub IsMatch-occurs : (p s : Bytes) → 0 < length p → IsMatch p s (length p) → occurs p s ≡ true
IsMatch-occurs p [] l m = absurd (omega (arith, m.fits))
IsMatch-occurs p (b ∷ s) l m = elim (dec_lt (length s) (length p)) [
  | yes whole ↦
      let e : length (b ∷ s) - length p ≡ 0 = omega (arith, m.fits) in
      let same : b ∷ s ≡ p = ap (λ (n : ℕ). drop n (b ∷ s)) (sym e) ∙ m.same ∙ take-length p in
      let here : is_prefix p (b ∷ s) ≡ true =
        subst (λ (w : Bytes). is_prefix p w ≡ true) (sym same) (is_prefix_refl p) in
      ground (arith, here)
  | no rest ↦
      let e : length (b ∷ s) - length p ≡ suc (length s - length p) = omega arith in
      let later : occurs p s ≡ true = IsMatch-occurs p s l (record {
        inside = m.inside;
        fits = omega arith;
        same = ap (λ (n : ℕ). drop n (b ∷ s)) (sym e) ∙ m.same;
      }) in
      ground (arith, later)
]

IsMatch-cons : (p s : Bytes) (a : ℕ) → IsMatch p s (length p) → IsMatch p (a ∷ s) (length p)
IsMatch-cons p s a m =
    let e : length (a ∷ s) - length p ≡ suc (length s - length p) = omega (arith, m.fits) in
    record {
      inside = m.inside;
      fits = omega (arith, m.fits);
      same = ap (λ (n : ℕ). drop n (a ∷ s)) e ∙ m.same;
    }

whole-IsMatch : (p s : Bytes) → is_prefix p s ≡ true → length s ≤ length p → IsMatch p s (length p)
whole-IsMatch p s h l =
    let same : p ≡ s = is_prefix-same_length p s h l in
    let e : length s - length p ≡ 0 = omega arith in
    record {
      inside = omega arith;
      fits = is_prefix-length p s h;
      same = ap (λ (n : ℕ). drop n s) e ∙ sym same ∙ sym (take-length p);
    }

-- An occurrence in a longer text was there before, or ends at its last byte.
pub occurs_snoc :
    (p s : Bytes) (b : ℕ)
    → 0 < length p
    → occurs p (s ++ b ∷ []) ≡ true
    → (occurs p s ≡ true) ⊎ IsMatch p (s ++ b ∷ []) (length p)
occurs_snoc [] s b l h = absurd (omega arith)
occurs_snoc (c ∷ p) [] b l h =
    let here : is_prefix (c ∷ p) (b ∷ []) ≡ true = ground (arith, h) in
    inr (whole-IsMatch (c ∷ p) (b ∷ []) here (omega arith))
occurs_snoc (c ∷ p) (a ∷ s) b l h = elim (Bool-cases (is_prefix (c ∷ p) (a ∷ s ++ b ∷ []))) [
  | inl here ↦ elim (dec_lt (length (a ∷ s)) (length (c ∷ p))) [
    | yes whole ↦
        inr (whole-IsMatch (c ∷ p) (a ∷ s ++ b ∷ []) here (omega (arith, length-append s (b ∷ []))))
    | no inner ↦
        let before : is_prefix (c ∷ p) (a ∷ s) ≡ true =
          is_prefix-linear (c ∷ p) (a ∷ s) (a ∷ s ++ b ∷ []) here
            (is_prefix-append (a ∷ s) (b ∷ [])) (omega arith) in
        inl (ground (arith, before))
  ]
  | inr absent ↦
      let later : occurs (c ∷ p) (s ++ b ∷ []) ≡ true = ground (arith, h, absent) in
      elim (occurs_snoc (c ∷ p) s b l later) [
        | inl old ↦ inl (ground (arith, old))
        | inr m ↦ inr (IsMatch-cons (c ∷ p) (s ++ b ∷ []) a m)
      ]
]
