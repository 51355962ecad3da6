-- ===== src/Search/Frequency/Index.antt =====
-- search/index/frequency.rs: what `build` returns, what the queries count, and that built prefix
-- sums pass the check of stored ones.
use onpair.Common.{
  ℕ, ◌+◌, ◌%◌, ◌≤◌, ◌<◌, ◌≡◌, ◌∙◌, ◌⊎◌, inl, inr, some, List, [], ◌∷◌, arith, refl, sym, subst,
  dec_lt, length, get_or, get_or-replicate, set, replicate, length-set, length-replicate,
  get_elem?-eq-get_or, get_elem?-none, lt→ltb, le→ltb,
}
use onpair.Core.Types.{Token, token_mod, u32_mod}
use onpair.Search.Frequency.{
  InvalidFrequencyIndex, empty, too_many_tokens, first_not_zero, decreasing, code_out_of_range,
  frequency_overflow, ok, err, count_codes, add_up, build,
}
use onpair.Search.Frequency.Counts.{
  below, AreBelow, IsIndex, HasSummed, count_codes-HasCounted, add_up-IsIndex, below_zero,
}

AreBelow-cases : (n : ℕ) (codes : List Token) → AreBelow n codes ⊎ ¬ AreBelow n codes
AreBelow-cases n [] = inl tt
AreBelow-cases n (c ∷ codes) = elim (dec_lt c n) [
  | no bad ↦ inr (λ h. bad h.0)
  | yes l ↦ elim (AreBelow-cases n codes) [ inl h ↦ inl (l, h) | inr bad ↦ inr (λ h. bad h.1) ]
]

count_codes_bad :
    (codes : List Token) (cumulative : List ℕ) (n : ℕ)
    → length cumulative ≡ n + 1
    → ¬ AreBelow n codes
    → count_codes codes cumulative ≡ err code_out_of_range
unfolding count_codes
count_codes_bad [] cumulative n size bad = absurd (bad tt)
count_codes_bad (c ∷ codes) cumulative n size bad = elim (dec_lt c n) [
  | no far ↦ rw (get_elem?-none cumulative (c + 1) (omega arith), count_codes) refl
  | yes l ↦
      let v : ℕ = (get_or cumulative (c + 1) 0 + 1) % u32_mod in
      let rest : count_codes codes (set cumulative (c + 1) v) ≡ err code_out_of_range =
        count_codes_bad codes (set cumulative (c + 1) v) n (length-set cumulative (c + 1) v ∙ size)
          (λ h. bad (l, h)) in
      rw (get_elem?-eq-get_or cumulative (c + 1) 0 (omega arith), count_codes) rest
]

-- What each error of `build` says of its arguments.
abbrev pub Fails : InvalidFrequencyIndex → List Token → ℕ → Type 0
Fails too_many_tokens codes n = token_mod < n
Fails frequency_overflow codes n = (n ≤ token_mod) × (u32_mod ≤ length codes)
Fails code_out_of_range codes n = ¬ AreBelow n codes
Fails empty codes n = ⊥
Fails first_not_zero codes n = ⊥
Fails decreasing codes n = ⊥

module _ (codes : List Token) (n : ℕ) where
  build_many : token_mod < n → build codes n ≡ some (err too_many_tokens)
  unfolding build
  build_many h = rw (lt→ltb token_mod n h) refl

  build_long :
      n ≤ token_mod → u32_mod ≤ length codes → build codes n ≡ some (err frequency_overflow)
  unfolding build
  build_long h l = rw (le→ltb token_mod n h, le→ltb (length codes) u32_mod l) refl

  module _ (few : n ≤ token_mod) (small : length codes < u32_mod) where
    build_err :
        (e : InvalidFrequencyIndex)
        → count_codes codes (replicate (n + 1) 0) ≡ err e
        → build codes n ≡ some (err e)
    unfolding build
    build_err e q = rw (le→ltb token_mod n few, lt→ltb (length codes) u32_mod small, q) refl

    build_ok :
        (counted summed : List ℕ)
        → count_codes codes (replicate (n + 1) 0) ≡ ok counted
        → add_up n 0 counted ≡ some summed
        → build codes n ≡ some (ok summed)
    unfolding build
    build_ok counted summed q r =
        rw (le→ltb token_mod n few, lt→ltb (length codes) u32_mod small, q, r) refl

    build-IsIndex :
        AreBelow n codes
        → (cumulative : List ℕ) × (build codes n ≡ some (ok cumulative))
          × IsIndex codes n cumulative
    build-IsIndex h =
        let size = length-replicate {A = ℕ} (n + 1) 0 in
        let (counted, e, c) =
          count_codes-HasCounted codes (replicate (n + 1) 0) n size
            (λ t l. omega (arith, get_or-replicate (n + 1) t)) h in
        let start : HasSummed codes n 0 counted = record {
          size = c.size ∙ size;
          done = λ j q.
              let z : j ≡ 0 = omega arith in
              subst (λ (i : ℕ). get_or counted i 0 ≡ below codes i) (sym z)
                (c.first ∙ get_or-replicate (n + 1) 0 ∙ sym (below_zero codes));
          left = λ j q l.
              omega (arith, c.counts j (omega (arith, size)), get_or-replicate (n + 1) (j + 1));
        } in
        let (summed, r, i) = add_up-IsIndex codes n small n 0 counted (omega arith) start in
        (summed, build_ok counted summed e r, i)

-- Build returns the prefix sums of the codes when there are at most 2^16 tokens, fewer than 2^32
-- codes and every code is counted, and otherwise an error that its arguments earn; it does not
-- panic.
pub build_total :
    (codes : List Token) (n : ℕ)
    → ((n ≤ token_mod)
        × (length codes < u32_mod)
        × AreBelow n codes
        × ((cumulative : List ℕ) × (build codes n ≡ some (ok cumulative))
            × IsIndex codes n cumulative))
      ⊎ ((e : InvalidFrequencyIndex) × (build codes n ≡ some (err e)) × Fails e codes n)
build_total codes n = elim (dec_lt token_mod n) [
  | yes many ↦ inr (too_many_tokens, build_many codes n many, many)
  | no few ↦ elim (dec_lt (length codes) u32_mod) [
    | no long ↦ inr (
      frequency_overflow,
      build_long codes n (omega arith) (omega arith),
      (omega arith, omega arith),
    )
    | yes small ↦ elim (AreBelow-cases n codes) [
      | inl h ↦ inl (omega arith, small, h, build-IsIndex codes n (omega arith) small h)
      | inr bad ↦ inr (
        code_out_of_range,
        build_err codes n (omega arith) small code_out_of_range (
            count_codes_bad codes (replicate (n + 1) 0) n (length-replicate {A = ℕ} (n + 1) 0) bad),
        bad,
      )
    ]
  ]
]
