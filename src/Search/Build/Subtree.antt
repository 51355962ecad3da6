-- ===== src/Search/Build/Subtree.antt =====
-- search/substring/dfa.rs, `Build::traverse`: the partition of the tokens by their byte at `depth`.
use onpair.Common.{
  ℕ, zero, suc, ◌+◌, ◌-◌, ◌≤◌, ◌<◌, ◌≡◌, ◌∙◌, ap, subst, refl, Bool, true, false, Option, some,
  arith, List, [], ◌∷◌, ◌++◌, Bytes, length, get_or, ltb, ◌==◌, dec_lt, le→leb, lt→leb, lt→ltb,
  le→ltb, if◌then◌else◌, is_prefix, is_prefix-snoc, ℕ_discrete,
}
use onpair.Core.Types.{Token, TokenRange, new}
use onpair.Dictionary.View.{DictionaryView, Tokens, tok, Represents}
use onpair.Search.Lookup.{byte_at}
use onpair.Search.Lookup.Narrow.{read_byte}
use onpair.Search.Automaton.{State}
use onpair.Search.Automaton.Reach.{reached, step_bytes-reached}
use onpair.Search.Substring.{SparseTransition}
use onpair.Search.Build.{advance, continues, subtree_loop}
use onpair.Search.Build.Grown.{base_of, Grown}
use onpair.Search.Build.Advance.{Stops, advance-Stops}
use onpair.Search.Build.Base.{IsPrepared}

-- The tokens from `i` to `last` start with `q` and have at least one byte more.
abbrev pub AreLonger : Tokens → Bytes → ℕ → Token → Type 0
AreLonger toks q i last =
    (t : Token)
    → i ≤ t
    → t ≤ last
    → (is_prefix q (tok toks t) ≡ true) × (length q < length (tok toks t))

is_prefix-longer :
    (q : Bytes) (c : ℕ) (w : Bytes)
    → is_prefix q w ≡ true
    → length q < length w
    → get_or w (length q) 0 ≡ c
    → is_prefix (q ++ c ∷ []) w ≡ true
is_prefix-longer q c w h l e = is_prefix-snoc q c w ∙ ground (arith, h, e)

module _ (v : DictionaryView) (toks : Tokens) (rep : Represents v toks) (p : Bytes)
    (fail base : List State) (prep : IsPrepared p fail toks base) (want : Token → State)
    (pre : List SparseTransition) (q : Bytes) (last : Token) (inside : last < length toks)
    (kj k0 : State) (kj_le : kj ≤ length p) (k0_le : k0 ≤ length p) where
  -- The byte of a token at `depth`.
  abbrev next_byte : Token → ℕ
  next_byte t = get_or (tok toks t) (length q) 0

  same_test : ℕ → ℕ → Bool
  same_test c k = if ltb k last then next_byte (k + 1) == c else false

  module _ (i : ℕ) (longer : AreLonger toks q i last) where
    reads_byte : (t : Token) → i ≤ t → t ≤ last → byte_at v (length q) t ≡ some (next_byte t)
    reads_byte t l u = read_byte v toks rep (length q) 0 t (omega arith) (longer t l u).1

    continues-same_test :
        (c k : ℕ) → i ≤ k → k ≤ last → continues v (length q) last c k ≡ some (same_test c k)
    unfolding same_test
    continues-same_test c k l u = elim (dec_lt k last) [
      | yes h ↦ rw (lt→ltb k last h, reads_byte (k + 1) (omega arith) (omega arith)) refl
      | no h ↦ rw (le→ltb k last (omega arith)) refl
    ]

  same_test_over : (c : ℕ) → same_test c last ≡ false
  unfolding same_test
  same_test_over c = rw (le→ltb last last (omega arith)) refl

  same_test-next : (c k : ℕ) → same_test c k ≡ true → next_byte (k + 1) ≡ c
  unfolding same_test
  same_test-next c k h = ground (arith, h)

  -- The tokens that the loop passes over have the byte of the first.
  shares :
      (i end : ℕ)
      → Stops (same_test (next_byte i)) i end
      → (t : Token) → i ≤ t
      → t ≤ end
      → next_byte t ≡ next_byte i
  shares i end s t l u = elim (ℕ_discrete t i) [
    | yes e ↦ ap next_byte e
    | no ne ↦
        let e : t ≡ t - 1 + 1 = omega arith in
        ap next_byte e
        ∙ same_test-next (next_byte i) (t - 1) (s.passed (t - 1) (omega arith) (omega arith))
  ]

  -- What a visit of a subtree is to do.
  abbrev pub VisitsSubtrees :
      (TokenRange → ℕ → State → State → List SparseTransition → Option (List SparseTransition))
      → Type 0
  VisitsSubtrees subtree =
      (i hi c : ℕ) (sparse : List SparseTransition)
      → i ≤ hi
      → hi ≤ last
      → ((t : Token) → i ≤ t → t ≤ hi → is_prefix (q ++ c ∷ []) (tok toks t) ≡ true)
      → Grown (base_of base) want pre i sparse
      → (s : List SparseTransition) × (subtree (new i hi) (length q + 1)
            (reached p fail kj (c ∷ [])) (reached p fail k0 (c ∷ [])) sparse
          ≡ some s)
        × Grown (base_of base) want pre (hi + 1) s

  module _
      (subtree : TokenRange
        → ℕ
        → State
        → State
        → List SparseTransition
        → Option (List SparseTransition))
      (visits : VisitsSubtrees subtree) where
    subtree_end :
        (fuel i : ℕ) (sparse : List SparseTransition)
        → last < i
        → subtree_loop v p fail base (length pre) subtree (suc fuel) (length q) last kj k0 i sparse
          ≡ some sparse
    unfolding subtree_loop
    subtree_end fuel i sparse l = rw (lt→leb i last l, subtree_loop) refl

    subtree_next :
        (fuel i hi : ℕ) (sparse s : List SparseTransition)
        → i ≤ last
        → byte_at v (length q) i ≡ some (next_byte i)
        → advance (continues v (length q) last (next_byte i)) (last + 1 - i) i ≡ some hi
        → subtree
            (new i hi)
            (length q + 1)
            (reached p fail kj (next_byte i ∷ []))
            (reached p fail k0 (next_byte i ∷ []))
            sparse
          ≡ some s
        → subtree_loop v p fail base (length pre) subtree (suc fuel) (length q) last kj k0 i sparse
          ≡ subtree_loop v p fail base (length pre) subtree fuel (length q) last kj k0 (hi + 1) s
    unfolding subtree_loop
    subtree_next fuel i hi sparse s l c a e =
        let to_j =
          step_bytes-reached p fail prep.some_pattern prep.short prep.fallbacks kj
            (next_byte i ∷ []) kj_le in
        let to_0 =
          step_bytes-reached p fail prep.some_pattern prep.short prep.fallbacks k0
            (next_byte i ∷ []) k0_le in
        rw (le→leb i last l, c, a, to_j, to_0, e, subtree_loop) refl

    pub subtree_loop-Grown :
        (fuel i : ℕ) (sparse : List SparseTransition)
        → last + 1 < fuel + i
        → i ≤ last + 1
        → AreLonger toks q i last
        → Grown (base_of base) want pre i sparse
        → (s : List SparseTransition) × (subtree_loop v p fail base
              (length pre)
              subtree
              fuel
              (length q)
              last
              kj
              k0
              i
              sparse
            ≡ some s)
          × Grown (base_of base) want pre (last + 1) s
    subtree_loop-Grown zero i sparse f l longer g = absurd (omega arith)
    subtree_loop-Grown (suc fuel) i sparse f l longer g = elim (dec_lt last i) [
      | yes over ↦ (
        sparse,
        subtree_end fuel i sparse over,
        subst (λ (n : ℕ). Grown (base_of base) want pre n sparse) (omega arith) g,
      )
      | no le ↦
          let c = next_byte i in
          let (hi, a, u, stops) =
            advance-Stops (continues v (length q) last c) (same_test c) i last
              (continues-same_test i longer c) (same_test_over c) (last + 1 - i) i (omega arith)
              (omega arith) (omega arith) in
          let (s, e, g') =
            visits i hi c sparse stops.from u
              (λ t b d.
                let h = longer t b (omega arith) in
                is_prefix-longer q c (tok toks t) h.0 h.1 (shares i hi stops t b d))
              g in
          let (s', e', done) =
            subtree_loop-Grown fuel (hi + 1) s (omega (arith, stops.from)) (omega arith)
              (λ t b d. longer t (omega (arith, stops.from)) d) g' in
          (
            s',
            subtree_next fuel i hi sparse s (omega arith)
                  (reads_byte i longer i (omega arith) (omega arith)) a e
                ∙ e',
            done,
          )
    ]
