-- ===== src/Search/Build/Traverse.antt =====
-- search/substring/dfa.rs, `Build::traverse`: the exceptions among the tokens of a run that share a
-- prefix.
use onpair.Common.{
  ℕ, zero, suc, ◌+◌, ◌-◌, ◌≤◌, ◌<◌, ◌≡◌, ◌≢◌, ◌∙◌, ap, sym, subst, refl, true, false, some, arith,
  List, [], ◌∷◌, ◌++◌, Bytes, length, drop, ltb, ◌==◌, dec_lt, lt→ltb, le→ltb, if◌then◌else◌,
  is_prefix-length, ℕ_discrete, length-append,
}
use onpair.Core.Types.{Token, new, max_token_size}
use onpair.Dictionary.View.{DictionaryView, Tokens, tok, Represents, IsSorted}
use onpair.Search.Automaton.{State}
use onpair.Search.Automaton.Reach.{reached, reached_accept, reached-append, reached_le}
use onpair.Search.Substring.{SparseTransition}
use onpair.Search.Build.{emit, advance, ends_at, accept_loop, subtree_loop, traverse}
use onpair.Search.Build.Grown.{base_of, Grown, Grown-skip, Grown-emit}
use onpair.Search.Build.Advance.{Stops, advance-Stops}
use onpair.Search.Build.Base.{IsPrepared}
use onpair.Search.Build.Accept.{accept_loop-Grown}
use onpair.Search.Build.Subtree.{subtree_loop-Grown}
use onpair.Search.Build.Depth.{
  AreUnder, reached_by, reached_rest, end_test, ends_at-end_test, end_test_over, end_test-same,
  end-AreLonger,
}

module _ (v : DictionaryView) (p : Bytes) (fail base : List State) (range_start fuel : ℕ)
    (i last : Token) (depth : ℕ) (kj k0 : State) (sparse : List SparseTransition) where
  traverse_agrees :
      kj ≡ k0
      → traverse v p fail base range_start (suc fuel) (new i last) depth kj k0 sparse ≡ some sparse
  unfolding traverse
  traverse_agrees e = let eq : (kj == k0) ≡ true = ground (arith, e) in rw (eq, traverse) refl

  module _ (differ : kj ≢ k0) (l : i ≤ last) where
    traverse_accepts :
        kj ≡ length p
        → traverse v p fail base range_start (suc fuel) (new i last) depth kj k0 sparse
          ≡ accept_loop base range_start (last + 2 - i) last (length p) i sparse
    unfolding traverse
    traverse_accepts e =
        let ne : (kj == k0) ≡ false = ground (arith, differ) in
        let eq : (kj == length p) ≡ true = ground (arith, e) in
        rw (ne, le→ltb last i l, eq, traverse) refl

    traverse_splits :
        (cur : ℕ)
        → kj ≢ length p
        → advance (ends_at v depth last) (last + 2 - i) i ≡ some cur
        → traverse v p fail base range_start (suc fuel) (new i last) depth kj k0 sparse
          ≡ subtree_loop v p fail base range_start
              (traverse v p fail base range_start fuel)
              (last + 2 - cur)
              depth
              last
              kj
              k0
              cur
              (if ltb i cur then emit range_start sparse (new i (cur - 1)) kj else sparse)
    unfolding traverse
    traverse_splits cur ne_p e =
        let ne : (kj == k0) ≡ false = ground (arith, differ) in
        let ne' : (kj == length p) ≡ false = ground (arith, ne_p) in
        rw (ne, le→ltb last i l, ne', e, traverse) refl

module _ (v : DictionaryView) (toks : Tokens) (rep : Represents v toks) (sorted : IsSorted toks)
    (p : Bytes) (fail base : List State) (prep : IsPrepared p fail toks base) (j : State)
    (j_le : j ≤ length p) (pre : List SparseTransition) where
  abbrev want : Token → State
  want t = reached_by p fail toks j t

  -- What a visit of a run is to do: without a panic, it records the exceptions among its tokens.
  abbrev pub Visits : ℕ → Bytes → ℕ → Token → List SparseTransition → Type 0
  Visits fuel q i last sparse =
      (s : List SparseTransition) × (traverse v p fail base (length pre) fuel (new i last)
          (length q) (reached p fail j q) (reached p fail 0 q) sparse
        ≡ some s)
      × Grown (base_of base) (reached_by p fail toks j) pre (last + 1) s

  module _ (q : Bytes) (i last : Token) (l : i ≤ last) (inside : last < length toks)
      (under : AreUnder toks q i last) (fuel : ℕ) (sparse : List SparseTransition)
      (g : Grown (base_of base) (reached_by p fail toks j) pre i sparse) where
    -- Once the states agree, all tokens of the run do.
    agree-Visits : reached p fail j q ≡ reached p fail 0 q → Visits (suc fuel) q i last sparse
    agree-Visits e = (
      sparse,
      traverse_agrees v p fail base (length pre) fuel i last (length q) _ _ sparse e,
      Grown-skip (base_of base) (reached_by p fail toks j) pre sparse i g (last + 1) (omega arith)
          (λ t a b.
            prep.entry t (omega arith)
            ∙ reached_rest v toks rep sorted p fail base prep j j_le pre 0 q t (omega arith)
                (under t a (omega arith))
            ∙ ap (λ (s : State). reached p fail s (drop (length q) (tok toks t))) (sym e)
            ∙ sym (
                reached_rest v toks rep sorted p fail base prep j j_le pre j q t j_le
                  (under t a (omega arith)))),
    )

    accept-Visits :
        reached p fail j q ≢ reached p fail 0 q
        → reached p fail j q ≡ length p
        → Visits (suc fuel) q i last sparse
    accept-Visits ne e =
        let (s, r, done) =
          accept_loop-Grown base (reached_by p fail toks j) pre last (length p)
            (omega (arith, prep.size)) (last + 2 - i) i sparse (omega arith) (omega arith)
            (λ t a b. sym (
              reached_rest v toks rep sorted p fail base prep j j_le pre j q t j_le (under t a b)
              ∙ ap (λ (s : State). reached p fail s (drop (length q) (tok toks t))) e
              ∙ reached_accept p fail (drop (length q) (tok toks t))))
            g in
        (
          s,
          traverse_accepts v p fail base (length pre) fuel i last (length q) _ _ sparse ne l e ∙ r,
          done,
        )

    -- The tokens that end at the depth.
    ended-Grown :
        (cur : ℕ)
        → cur ≤ last + 1
        → Stops (end_test v toks rep sorted p fail base prep j j_le pre q last inside) i cur
        → Grown (base_of base) (reached_by p fail toks j) pre cur (
            if ltb i cur
            then emit (length pre) sparse (new i (cur - 1)) (reached p fail j q)
            else sparse)
    ended-Grown cur u stops = elim (dec_lt i cur) [
      | yes some_end ↦
          let g' =
            Grown-emit (base_of base) (reached_by p fail toks j) pre sparse i g (new i (cur - 1))
              (reached p fail j q) refl (omega arith)
              (λ t a b. ap (reached p fail j) (
                end_test-same v toks rep sorted p fail base prep j j_le pre q last inside t
                  (under t a (omega arith)) (stops.passed t a (omega arith)))) in
          rw (lt→ltb i cur some_end) (
            subst
              (λ (n : ℕ).
                Grown (base_of base) (reached_by p fail toks j) pre n
                  (emit (length pre) sparse (new i (cur - 1)) (reached p fail j q)))
              (omega arith) g')
      | no none_end ↦
          let e : i ≡ cur = omega (arith, stops.from) in
          rw (le→ltb i cur (omega arith))
            (subst (λ (n : ℕ). Grown (base_of base) (reached_by p fail toks j) pre n sparse) e g)
    ]

  -- A visit of the subtree of one more byte.
  child-Visits :
      (fuel : ℕ) (q : Bytes) (c : ℕ) (i last : Token) (sparse : List SparseTransition)
      → Visits fuel (q ++ c ∷ []) i last sparse
      → (s : List SparseTransition) × (traverse v p fail base
            (length pre)
            fuel
            (new i last)
            (length q + 1)
            (reached p fail (reached p fail j q) (c ∷ []))
            (reached p fail (reached p fail 0 q) (c ∷ []))
            sparse
          ≡ some s)
        × Grown (base_of base) (reached_by p fail toks j) pre (last + 1) s
  child-Visits fuel q c i last sparse (s, e, g) =
      let deeper : length (q ++ c ∷ []) ≡ length q + 1 = omega (arith, length-append q (c ∷ [])) in
      let to_j =
        reached-append p fail prep.some_pattern prep.short prep.fallbacks j q (c ∷ []) j_le in
      let to_0 =
        reached-append p fail prep.some_pattern prep.short prep.fallbacks 0 q (c ∷ [])
          (omega arith) in
      (s, cc, g)

  -- On the run of the tokens that start with `q`, with fuel for the longest token.
  pub traverse-Visits :
      (fuel : ℕ) (q : Bytes) (i last : Token) (sparse : List SparseTransition)
      → max_token_size < fuel + length q
      → i ≤ last
      → last < length toks
      → AreUnder toks q i last
      → Grown (base_of base) (reached_by p fail toks j) pre i sparse
      → Visits fuel q i last sparse
  traverse-Visits zero q i last sparse f l inside under g = absurd (
      omega (
        arith,
        is_prefix-length q (tok toks i) (under i (omega arith) l),
        rep.bounded i (omega arith),
      ))
  traverse-Visits (suc fuel) q i last sparse f l inside under g =
      elim (ℕ_discrete (reached p fail j q) (reached p fail 0 q)) [
        | yes e ↦ agree-Visits q i last l inside under fuel sparse g e
        | no ne ↦ elim (ℕ_discrete (reached p fail j q) (length p)) [
          | yes e ↦ accept-Visits q i last l inside under fuel sparse g ne e
          | no ne' ↦
              let test = end_test v toks rep sorted p fail base prep j j_le pre q last inside in
              let (cur, a, u, stops) =
                advance-Stops (ends_at v (length q) last) test 0 (last + 1)
                  (λ k b.
                    ends_at-end_test v toks rep sorted p fail base prep j j_le pre q last inside k)
                  (end_test_over v toks rep sorted p fail base prep j j_le pre q last inside)
                  (last + 2 - i) i (omega arith) (omega arith) (omega arith) in
              let le : (s : State) → s ≤ length p → reached p fail s q ≤ length p =
                λ s b. reached_le p fail prep.some_pattern prep.short prep.fallbacks s q b in
              let (s, r, done) =
                subtree_loop-Grown v toks rep p fail base prep (reached_by p fail toks j) pre q last
                  inside (reached p fail j q) (reached p fail 0 q) (le j j_le) (le 0 (omega arith))
                  (traverse v p fail base (length pre) fuel)
                  (λ i' hi c s a b under' g'. child-Visits fuel q c i' hi s (
                    traverse-Visits fuel (q ++ c ∷ []) i' hi s
                      (omega (arith, length-append q (c ∷ []))) a (omega arith) under' g'))
                  (last + 2 - cur) cur _ (omega arith) u
                  (end-AreLonger v toks rep sorted p fail base prep j j_le pre q last inside i cur
                    under stops)
                  (ended-Grown q i last l inside under fuel sparse g cur u stops) in
              (
                s,
                traverse_splits v p fail base (length pre) fuel i last (length q) _ _ sparse ne l
                      cur ne' a
                    ∙ r,
                done,
              )
        ]
      ]
