-- ===== src/Search/Automaton/Failure.antt =====
-- search/substring/dfa.rs, `kmp_failure`: entry `i` is the length of the longest proper prefix of
-- the first `i + 1` bytes that they end with.
use onpair.Common.{
  ℕ, zero, suc, ◌+◌, ◌-◌, ◌%◌, ◌≤◌, ◌<◌, ◌≡◌, ◌≢◌, ◌∙◌, ◌⊎◌, inl, inr, refl, sym, ap, subst, arith,
  true, false, some, [], ◌∷◌, ◌++◌, List, Bytes, length, take, get_or, get_or-replicate, get_elem?,
  set, replicate, get_elem?-eq-get_or, get_or-set_self, get_or-set_ne, length-set, length-replicate,
  ltb, ◌==◌, lt→ltb, le→ltb, ℕ_discrete, dec_lt,
}
use onpair.Search.Automaton.{State, state_mod, max_pattern_len, failure_loop, kmp_failure}
use onpair.Search.Automaton.Matches.{
  IsMatch, zero-IsMatch, IsMatch-outward, IsMatch-grow, IsMatch-shrink, take_snoc,
}
use onpair.Search.Automaton.Fallback.{IsFallback, AreFallbacks, IsRefused, IsFallback-IsRefused}

module _ (p : Bytes) (short : length p ≤ max_pattern_len) where
  -- What holds at the head of the loop.
  record IsScanned (i len : ℕ) (fail : List State) : Type 0 where
    started : 1 ≤ i
    inside : i ≤ length p
    proper : len < i
    match : IsMatch p (take i p) len
    fallbacks : AreFallbacks p i fail
    refused : IsRefused p (take i p) i (get_or p i 0) len

  module _ (i len : ℕ) (fail : List State) (l : i < length p) (h : IsScanned i len fail) where
    -- Entry `i` is found.
    found-AreFallbacks : (f : ℕ) → IsFallback p (i + 1) f → AreFallbacks p (i + 1) (set fail i f)
    found-AreFallbacks f fb = record {
      size = length-set fail i f ∙ h.fallbacks.size;
      entry = λ k q. elim (ℕ_discrete i k) [
        | yes e ↦
            let v : get_or (set fail i f) k 0 ≡ f =
              ap (λ (n : ℕ). get_or (set fail i f) n 0) (sym e)
              ∙ get_or-set_self fail i f 0 (omega (arith, h.fallbacks.size)) in
            subst (λ (n : ℕ). IsFallback p (n + 1) (get_or (set fail i f) k 0)) e
              (subst (IsFallback p (i + 1)) (sym v) fb)
        | no ne ↦
            subst (IsFallback p (k + 1)) (sym (get_or-set_ne fail i k f 0 ne))
              (h.fallbacks.entry k (omega arith))
      ];
    }

    found-IsScanned : (f : ℕ) → IsFallback p (i + 1) f → IsScanned (i + 1) f (set fail i f)
    found-IsScanned f fb = record {
      started = omega arith;
      inside = omega arith;
      proper = fb.shorter;
      match = fb.match;
      fallbacks = found-AreFallbacks f fb;
      refused = λ j q k m e. let c = fb.longest j q m in absurd (omega arith);
    }

    extended : take (i + 1) p ≡ take i p ++ get_or p i 0 ∷ []
    extended = take_snoc p i l

    -- What the next prefix ends with grew out of a match of at most `len` bytes.
    origin :
        (j : ℕ)
        → j < i + 1
        → IsMatch p (take (i + 1) p) j
        → (j ≡ 0) ⊎ ((j' : ℕ) × (j ≡ j' + 1) × (j' ≤ len) × (get_or p j' 0 ≡ get_or p i 0))
    origin zero q m = inl refl
    origin (suc j) q m =
        let e : suc j ≡ j + 1 = omega arith in
        let (shrunk, k, c) = IsMatch-shrink p (take i p) (get_or p i 0) j (
          subst (λ (t : Bytes). IsMatch p t (j + 1)) extended
            (subst (IsMatch p (take (i + 1) p)) e m)) in
        elim (dec_lt len j) [
          | yes longer ↦ absurd (h.refused j (omega arith) longer shrunk c)
          | no le ↦ inr (j, e, omega arith, c)
        ]

    grown-IsFallback : get_or p len 0 ≡ get_or p i 0 → IsFallback p (i + 1) (len + 1)
    grown-IsFallback e = record {
      shorter = omega (arith, h.proper);
      match =
          subst (λ (t : Bytes). IsMatch p t (len + 1)) (sym extended)
            (IsMatch-grow p (take i p) (get_or p i 0) len h.match (omega (arith, h.proper)) e);
      longest =
          λ j q m. elim (origin j q m) [ inl z ↦ omega arith | inr (j', z, le, c) ↦ omega arith ];
    }

    restart-IsFallback : len ≡ 0 → get_or p len 0 ≢ get_or p i 0 → IsFallback p (i + 1) 0
    restart-IsFallback z ne = record {
      shorter = omega arith;
      match = zero-IsMatch p (take (i + 1) p);
      longest = λ j q m. elim (origin j q m) [
        | inl e ↦ omega arith
        | inr (j', e, le, c) ↦
            let same : len ≡ j' = omega arith in absurd (ne (ap (λ (n : ℕ). get_or p n 0) same ∙ c))
      ];
    }

    -- The loop goes on with a shorter prefix.
    shorter-IsScanned :
        (len' : ℕ) → IsFallback p len len' → get_or p len 0 ≢ get_or p i 0 → IsScanned i len' fail
    shorter-IsScanned len' fb ne = record {
      started = h.started;
      inside = h.inside;
      proper = omega (arith, h.proper, fb.shorter);
      match = IsMatch-outward p (take i p) len len' h.match (omega (arith, fb.shorter)) fb.match;
      fallbacks = h.fallbacks;
      refused = IsFallback-IsRefused p (take i p) i (get_or p i 0) len len' h.match fb ne h.refused;
    }

    module _ (fuel : ℕ) where
      read_byte : get_elem? p i ≡ some (get_or p i 0)
      read_byte = get_elem?-eq-get_or p i 0 l

      read_len : get_elem? p len ≡ some (get_or p len 0)
      read_len = get_elem?-eq-get_or p len 0 (omega (arith, h.proper))

      failure_loop_grow :
          get_or p len 0 ≡ get_or p i 0
          → failure_loop p (suc fuel) i len fail
            ≡ failure_loop p fuel (i + 1) (len + 1) (set fail i (len + 1))
      unfolding failure_loop
      failure_loop_grow e =
          let small : (len + 1) % state_mod ≡ len + 1 = omega (arith, h.proper) in
          let eq : (get_or p i 0 == get_or p len 0) ≡ true = ground (arith, e) in
          rw (lt→ltb i (length p) l, read_byte, read_len, eq, small, failure_loop) refl

      failure_loop_fall :
          get_or p len 0 ≢ get_or p i 0
          → 0 < len
          → failure_loop p (suc fuel) i len fail
            ≡ failure_loop p fuel i (get_or fail (len - 1) 0) fail
      unfolding failure_loop
      failure_loop_fall ne some_len =
          let ne' : (get_or p i 0 == get_or p len 0) ≡ false = ground (arith, ne) in
          let entry : get_elem? fail (len - 1) ≡ some (get_or fail (len - 1) 0) =
            get_elem?-eq-get_or fail (len - 1) 0 (omega (arith, h.proper, h.fallbacks.size)) in
          rw
            (
              lt→ltb i (length p) l,
              read_byte,
              read_len,
              ne',
              lt→ltb 0 len some_len,
              entry,
              failure_loop,
            )
            refl

      failure_loop_restart :
          get_or p len 0 ≢ get_or p i 0
          → len ≡ 0
          → failure_loop p (suc fuel) i len fail ≡ failure_loop p fuel (i + 1) len (set fail i 0)
      unfolding failure_loop
      failure_loop_restart ne z =
          let ne' : (get_or p i 0 == get_or p len 0) ≡ false = ground (arith, ne) in
          let done : ltb 0 len ≡ false = le→ltb 0 len (omega arith) in
          rw (lt→ltb i (length p) l, read_byte, read_len, ne', done, failure_loop) refl

  failure_loop_end :
      (fuel i len : ℕ) (fail : List State)
      → length p ≤ i
      → failure_loop p (suc fuel) i len fail ≡ some fail
  unfolding failure_loop
  failure_loop_end fuel i len fail h = rw (le→ltb i (length p) h, failure_loop) refl

  failure_loop-AreFallbacks :
      (fuel i len : ℕ) (fail : List State)
      → (length p - i) + (length p - i) + len < fuel
      → IsScanned i len fail
      → (fail' : List State) × (failure_loop p fuel i len fail ≡ some fail')
        × AreFallbacks p (length p) fail'
  unfolding failure_loop
  failure_loop-AreFallbacks zero i len fail f h = elim f [ ]
  failure_loop-AreFallbacks (suc fuel) i len fail f h = elim (dec_lt i (length p)) [
    | no stop ↦
        let e : i ≡ length p = omega (arith, h.inside) in
        (
          fail,
          failure_loop_end fuel i len fail (omega arith),
          subst (λ (n : ℕ). AreFallbacks p n fail) e h.fallbacks,
        )
    | yes l ↦ elim (ℕ_discrete (get_or p len 0) (get_or p i 0)) [
      | yes e ↦
          let (r, q, a) =
            failure_loop-AreFallbacks fuel (i + 1) (len + 1) (set fail i (len + 1)) (omega arith)
              (found-IsScanned i len fail l h (len + 1) (grown-IsFallback i len fail l h e)) in
          (r, failure_loop_grow i len fail l h fuel e ∙ q, a)
      | no ne ↦ elim (dec_lt 0 len) [
        | yes some_len ↦
            let back : len - 1 + 1 ≡ len = omega arith in
            let fb : IsFallback p len (get_or fail (len - 1) 0) =
              subst (λ (n : ℕ). IsFallback p n (get_or fail (len - 1) 0)) back
                (h.fallbacks.entry (len - 1) (omega (arith, h.proper))) in
            let (r, q, a) =
              failure_loop-AreFallbacks fuel i (get_or fail (len - 1) 0) fail
                (omega (arith, fb.shorter))
                (shorter-IsScanned i len fail l h (get_or fail (len - 1) 0) fb ne) in
            (r, failure_loop_fall i len fail l h fuel ne some_len ∙ q, a)
        | no none_left ↦
            let z : len ≡ 0 = omega arith in
            let (r, q, a) =
              failure_loop-AreFallbacks fuel (i + 1) len (set fail i 0) (omega arith) (
                subst (λ (n : ℕ). IsScanned (i + 1) n (set fail i 0)) (sym z)
                  (found-IsScanned i len fail l h 0 (restart-IsFallback i len fail l h z ne))) in
            (r, failure_loop_restart i len fail l h fuel ne z ∙ q, a)
      ]
    ]
  ]

  start-IsScanned : 0 < length p → IsScanned 1 0 (replicate (length p) 0)
  start-IsScanned l = record {
    started = omega arith;
    inside = omega arith;
    proper = omega arith;
    match = zero-IsMatch p (take 1 p);
    fallbacks = record {
      size = length-replicate {A = ℕ} (length p) 0;
      entry = λ i q.
          let e : 1 ≡ i + 1 = omega arith in
          subst (IsFallback p (i + 1)) (sym (get_or-replicate (length p) i)) (
            subst (λ (n : ℕ). IsFallback p n 0) e
              (record {
                shorter = omega arith;
                match = zero-IsMatch p (take 1 p);
                longest = λ j k m. omega arith;
              }));
    };
    refused = λ j q k m e. absurd (omega arith);
  }

-- On a nonempty pattern of at most 255 bytes, kmp_failure ends without a panic, and each entry is
-- the length of the longest proper prefix of its part of the pattern that this part ends with.
pub kmp_failure-AreFallbacks :
    (p : Bytes)
    → 0 < length p
    → length p ≤ max_pattern_len
    → (fail : List State) × (kmp_failure p ≡ some fail) × AreFallbacks p (length p) fail
unfolding kmp_failure
kmp_failure-AreFallbacks p l short =
    failure_loop-AreFallbacks p short (length p + length p + 1) 1 0 (replicate (length p) 0)
      (omega arith) (start-IsScanned p short l)
