-- ===== src/Search/Frequency/Query.antt =====
-- search/index/frequency.rs: what the queries of a view count, and which prefix sums its check
-- accepts.
use onpair.Common.{
  ℕ, zero, suc, ◌+◌, ◌-◌, ◌≤◌, ◌<◌, ◌≡◌, ◌∙◌, ◌⊎◌, ◌↔◌, inl, inr, false, some, List, [], ◌∷◌, arith,
  refl, ap, sym, subst, dec_lt, ltb, leb, ◌==◌, ◌&&◌, length, get_elem?, get_or,
  get_elem?-eq-get_or, lt→ltb, le→ltb,
}
use onpair.Core.Types.{Token, token_mod, u32_mod, TokenRange, contains}
use onpair.Search.Frequency.{
  ok, build, decreases, check_cumulative, from_cumulative, frequency, range_frequency,
}
use onpair.Search.Frequency.Counts.{occurs, below, IsIndex, occurs-length, below_suc, below_zero}
use onpair.Search.Frequency.Index.{build_total}

below-range :
    (codes : List Token) (b l : ℕ)
    → b ≤ l
    → below codes (l + 1) ≡ below codes b + occurs (λ c. leb b c && leb c l) codes
below-range [] b l h = refl
below-range (c ∷ codes) b l h = ground (arith, below-range codes b l h)

occurs_none : (codes : List Token) (b l : ℕ) → l < b → occurs (λ c. leb b c && leb c l) codes ≡ 0
occurs_none [] b l h = refl
occurs_none (c ∷ codes) b l h = ground (arith, occurs_none codes b l h)

module _ (codes : List Token) (n : ℕ) (cumulative : List ℕ) (i : IsIndex codes n cumulative)
    (small : length codes < u32_mod) where
  read : (t : ℕ) → t ≤ n → get_elem? cumulative t ≡ some (below codes t)
  read t l = get_elem?-eq-get_or cumulative t 0 (omega (arith, i.size)) ∙ ap some (i.sums t l)

  below_small : (t : ℕ) → below codes t < u32_mod
  below_small t = omega (arith, small, occurs-length (λ c. ltb c t) codes)

  -- On the prefix sums of fewer than 2^32 codes, the frequency of a counted token is the number
  -- of its codes.
  pub frequency-occurs :
      (t : Token) → t < n → frequency cumulative t ≡ some (occurs (λ c. c == t) codes)
  unfolding frequency
  frequency-occurs t l =
      rw
        (
          lt→ltb t (length cumulative - 1) (omega (arith, i.size)),
          read (t + 1) (omega arith),
          read t (omega arith),
        )
        (ap some (omega (arith, below_suc codes t, below_small (t + 1), below_small t)))

  -- On the prefix sums of fewer than 2^32 codes, range_frequency of a range that is empty or
  -- inside the index is the number of the codes in the range.
  pub range_frequency-occurs :
      (r : TokenRange)
      → (r.last < r.begin) ⊎ (r.last < n)
      → range_frequency cumulative r ≡ some (occurs (contains r) codes)
  unfolding range_frequency
  range_frequency-occurs r inside = elim (dec_lt r.last r.begin) [
    | yes void ↦
        rw (lt→ltb r.last r.begin void) (ap some (sym (occurs_none codes r.begin r.last void)))
    | no some_tokens ↦
        let l : r.last < n = elim inside [ inl h ↦ absurd (omega arith) | inr h ↦ h ] in
        rw
          (
            le→ltb r.last r.begin (omega arith),
            lt→ltb r.last (length cumulative - 1) (omega (arith, i.size)),
            read (r.last + 1) (omega arith),
            read r.begin (omega arith),
          )
          (ap some (
            omega (
              arith,
              below-range codes r.begin r.last (omega arith),
              below_small (r.last + 1),
              below_small r.begin,
            )))
  ]

-- Prefix sums over at most `token_mod` tokens.
pub record IsCumulative (cumulative : List ℕ) : Type 0 where
  pub nonempty : 1 ≤ length cumulative
  pub addressable : length cumulative ≤ token_mod + 1
  pub first : get_or cumulative 0 0 ≡ 0
  pub ascending :
      (i : ℕ) → suc i < length cumulative → get_or cumulative i 0 ≤ get_or cumulative (suc i) 0

abbrev Ascends : List ℕ → Type 0
Ascends xs = (i : ℕ) → suc i < length xs → get_or xs i 0 ≤ get_or xs (suc i) 0

Ascends-cons : (a b : ℕ) (rest : List ℕ) → a ≤ b → Ascends (b ∷ rest) → Ascends (a ∷ b ∷ rest)
Ascends-cons a b rest p h zero l = p
Ascends-cons a b rest p h (suc i) l = h i (omega arith)

decreases-Ascends : (xs : List ℕ) → decreases xs ≡ false → Ascends xs
unfolding decreases
decreases-Ascends [] h = λ i l. elim l [ ]
decreases-Ascends (a ∷ []) h = λ i l. absurd (omega arith)
decreases-Ascends (a ∷ b ∷ rest) h =
    Ascends-cons a b rest (ground (arith, h)) (decreases-Ascends (b ∷ rest) (ground (arith, h)))

Ascends-decreases : (xs : List ℕ) → Ascends xs → decreases xs ≡ false
unfolding decreases
Ascends-decreases [] h = refl
Ascends-decreases (a ∷ []) h = refl
Ascends-decreases (a ∷ b ∷ rest) h =
    let here : ltb b a ≡ false = le→ltb b a (h 0 (omega arith)) in
    let there : decreases (b ∷ rest) ≡ false =
      Ascends-decreases (b ∷ rest) (λ i l. h (suc i) (omega arith)) in
    rw (here, there) refl

-- From_cumulative adopts exactly the ascending prefix sums that start at zero and count at most
-- 2^16 tokens.
pub from_cumulative_iff :
    (cumulative : List ℕ) → (from_cumulative cumulative ≡ ok cumulative) ↔ IsCumulative cumulative
unfolding from_cumulative check_cumulative
from_cumulative_iff [] = (λ h. cc, λ c. absurd (omega (arith, c.nonempty)))
from_cumulative_iff (first ∷ rest) = (
  λ h.
      let d : decreases (first ∷ rest) ≡ false = ground (arith, h) in
      record {
        nonempty = omega arith;
        addressable = ground (arith, h);
        first = ground (arith, h);
        ascending = decreases-Ascends (first ∷ rest) d;
      },
  λ c.
      let d = Ascends-decreases (first ∷ rest) c.ascending in
      ground (arith, c.addressable, c.first, d),
)

IsIndex-IsCumulative :
    (codes : List Token) (n : ℕ) (cumulative : List ℕ)
    → n ≤ token_mod
    → IsIndex codes n cumulative
    → IsCumulative cumulative
IsIndex-IsCumulative codes n cumulative few i = record {
  nonempty = omega (arith, i.size);
  addressable = omega (arith, i.size);
  first = i.sums 0 (omega arith) ∙ below_zero codes;
  ascending = λ t l.
      let e : t + 1 ≡ suc t = omega arith in
      omega (
        arith,
        i.sums t (omega (arith, i.size)),
        i.sums (suc t) (omega (arith, i.size)),
        below_suc codes t,
        ap (below codes) e,
      );
}

-- Prefix sums that build returned are accepted by from_cumulative, unchanged.
pub build-from_cumulative :
    (codes : List Token) (n : ℕ) (cumulative : List ℕ)
    → build codes n ≡ some (ok cumulative)
    → from_cumulative cumulative ≡ ok cumulative
build-from_cumulative codes n cumulative h = elim (build_total codes n) [
  | inl (few, _, _, (found, e, i)) ↦
      let same : found ≡ cumulative = cc in
      (from_cumulative_iff cumulative).1
        (IsIndex-IsCumulative codes n cumulative few (subst (IsIndex codes n) same i))
  | inr (e, f, _) ↦ absurd (cc)
]
