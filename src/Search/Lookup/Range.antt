-- ===== src/Search/Lookup/Range.antt =====
-- search/lookup.rs, `prefix_range`: the tokens that start with a needle.
use onpair.Common.{
  ℕ, ◌+◌, ◌-◌, ◌%◌, ◌<◌, ◌≡◌, ◌⊎◌, ◌∙◌, true, false, some, [], ◌∷◌, ◌++◌, arith, refl, ap, sym,
  subst, inl, inr, Bool-cases, dec_lt, false≢true, Bytes, length, length-append, is_prefix,
  is_prefix_trans, is_prefix-append,
}
use mathlib.Core.List.{append_assoc, append-nil}
use onpair.Core.Types.{Token, token_mod, TokenRange, empty_range, new, contains, is_empty}
use onpair.Dictionary.View.{DictionaryView, Tokens, tok, Represents, IsSorted}
use onpair.Search.Lookup.{narrow, prefix_loop, prefix_range}
use onpair.Search.Lookup.Narrow.{IsRun, IsMissing, narrow-IsRun}

-- The run of the tokens that start with `p`, or the empty range if there are none.
abbrev pub IsPrefixRange : Tokens → Bytes → TokenRange → Type 0
IsPrefixRange toks p r = IsRun toks p r ⊎ IsMissing toks p r

pub snoc-append : (p : Bytes) (b : ℕ) (rest : Bytes) → (p ++ b ∷ []) ++ rest ≡ p ++ b ∷ rest
snoc-append p b rest = append_assoc p (b ∷ []) rest

pub length-snoc : (p : Bytes) (b : ℕ) → length (p ++ b ∷ []) ≡ length p + 1
length-snoc p b = length-append p (b ∷ [])

pub IsRun-not_empty :
    {toks : Tokens} {p : Bytes} {r : TokenRange} → IsRun toks p r → is_empty r ≡ false
IsRun-not_empty run = ground (arith, run.ordered)

pub IsMissing-is_empty :
    {toks : Tokens} {p : Bytes} {r : TokenRange} → IsMissing toks p r → is_empty r ≡ true
IsMissing-is_empty m = ap is_empty m.canonical

-- No token starts with a longer string either.
pub absent-append :
    (toks : Tokens) (p rest : Bytes) (t : ℕ)
    → is_prefix p (tok toks t) ≡ false
    → is_prefix (p ++ rest) (tok toks t) ≡ false
absent-append toks p rest t h = elim (Bool-cases (is_prefix (p ++ rest) (tok toks t))) [
  | inr e ↦ e
  | inl e ↦
      absurd (
        false≢true (sym h ∙ is_prefix_trans p (p ++ rest) (tok toks t) (is_prefix-append p rest) e))
]

-- The whole dictionary is the run of the empty prefix.
pub whole-IsRun :
    (v : DictionaryView) (toks : Tokens)
    → Represents v toks
    → 0 < length toks
    → IsRun toks [] (new 0 ((v.num_tokens - 1) % token_mod))
whole-IsRun v toks rep h = record {
  ordered = omega arith;
  inside = omega (arith, rep.counted, rep.addressable);
  exact = λ t l. ground (arith, rep.counted, rep.addressable);
}

module _ (v : DictionaryView) (r : TokenRange) (k b : ℕ) (rest : Bytes) (r' : TokenRange)
    (e : narrow v r k b ≡ some r') where
  prefix_loop_end : is_empty r' ≡ true → prefix_loop v k (b ∷ rest) r ≡ some empty_range
  unfolding prefix_loop
  prefix_loop_end h = ground arith

  prefix_loop_step :
      is_empty r' ≡ false → prefix_loop v k (b ∷ rest) r ≡ prefix_loop v (k + 1) rest r'
  unfolding prefix_loop
  prefix_loop_step h = ground arith

module _ (v : DictionaryView) (toks : Tokens) (rep : Represents v toks)
    (sorted : IsSorted toks) where
  prefix_loop-IsPrefixRange :
      (rest p : Bytes) (r : TokenRange)
      → IsRun toks p r
      → (r' : TokenRange) × (prefix_loop v (length p) rest r ≡ some r')
        × IsPrefixRange toks (p ++ rest) r'
  unfolding prefix_loop
  prefix_loop-IsPrefixRange [] p r run =
      (r, refl, inl (subst (λ q. IsRun toks q r) (sym (append-nil p)) run))
  prefix_loop-IsPrefixRange (b ∷ rest) p r run =
      let (r', e, found) = narrow-IsRun v toks p b r rep sorted run in
      elim found [
        | inr m ↦ (
          empty_range,
          prefix_loop_end v r (length p) b rest r' e (IsMissing-is_empty m),
          inr (record {
            canonical = refl;
            absent = λ t l.
                subst (λ q. is_prefix q (tok toks t) ≡ false) (snoc-append p b rest)
                  (absent-append toks (p ++ b ∷ []) rest t (m.absent t l));
          }),
        )
        | inl run' ↦
            let (q, e', good) = prefix_loop-IsPrefixRange rest (p ++ b ∷ []) r' run' in
            (
              q,
              prefix_loop_step v r (length p) b rest r' e (IsRun-not_empty run')
                  ∙ ap (λ (n : ℕ). prefix_loop v n rest r') (sym (length-snoc p b))
                  ∙ e',
              subst (λ s. IsPrefixRange toks s q) (snoc-append p b rest) good,
            )
      ]

  prefix_range_empty : (needle : Bytes) → length toks ≡ 0 → prefix_range v needle ≡ some empty_range
  unfolding prefix_range
  prefix_range_empty needle h = rw (rep.counted, h)

  prefix_range_loop :
      (needle : Bytes)
      → 0 < length toks
      → prefix_range v needle ≡ prefix_loop v 0 needle (new 0 ((v.num_tokens - 1) % token_mod))
  unfolding prefix_range
  prefix_range_loop needle h = ground (arith, rep.counted)

  -- On a sorted dictionary prefix_range does not panic, and returns exactly the run of the tokens
  -- that start with the needle, or the canonical empty range.
  pub prefix_range-IsPrefixRange :
      (needle : Bytes)
      → (r : TokenRange) × (prefix_range v needle ≡ some r) × IsPrefixRange toks needle r
  prefix_range-IsPrefixRange needle = elim (dec_lt 0 (length toks)) [
    | yes h ↦
        let (r, e, good) = prefix_loop-IsPrefixRange needle [] _ (whole-IsRun v toks rep h) in
        (r, prefix_range_loop needle h ∙ e, good)
    | no h ↦ (
      empty_range,
      prefix_range_empty needle (omega arith),
      inr (record { canonical = refl; absent = λ t l. absurd (omega arith) }),
    )
  ]

-- Membership in a prefix range is the prefix test of the token.
pub contains-IsPrefixRange :
    (toks : Tokens) (p : Bytes) (r : TokenRange)
    → IsPrefixRange toks p r
    → (t : Token) → t < length toks
    → contains r t ≡ is_prefix p (tok toks t)
contains-IsPrefixRange toks p r (inl run) t l = run.exact t l
contains-IsPrefixRange toks p r (inr m) t l =
    ap (λ (q : TokenRange). contains q t) m.canonical ∙ ground (arith, m.absent t l)
