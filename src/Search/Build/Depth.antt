-- ===== src/Search/Build/Depth.antt =====
-- search/substring/dfa.rs, `Build::traverse`: the tokens of a run that end at its depth come before
-- the longer ones.
use onpair.Common.{
  ℕ, ◌+◌, ◌≤◌, ◌<◌, ◌≡◌, ◌≢◌, ◌∙◌, ap, sym, subst, refl, Bool, true, false, some, arith, List,
  Bytes, length, drop, leb, ◌==◌, dec_lt, le→leb, lt→leb, if◌then◌else◌, is_prefix, is_prefix_iff,
  is_prefix-length, is_prefix-same_length, lex_lt-is_prefix, ℕ_discrete, false≢true,
}
use onpair.Core.Types.{Token}
use onpair.Dictionary.View.{DictionaryView, Tokens, tok, Represents, IsSorted}
use onpair.Search.Automaton.{State}
use onpair.Search.Automaton.Reach.{reached, reached-append}
use onpair.Search.Substring.{SparseTransition}
use onpair.Search.Build.{ends_at}
use onpair.Search.Build.Advance.{Stops}
use onpair.Search.Build.Base.{IsPrepared}
use onpair.Search.Build.Subtree.{AreLonger}

-- The tokens from `i` to `last` start with `q`.
abbrev pub AreUnder : Tokens → Bytes → ℕ → Token → Type 0
AreUnder toks q i last = (t : Token) → i ≤ t → t ≤ last → is_prefix q (tok toks t) ≡ true

-- The state a token leads to from the state `j`.
abbrev pub reached_by : Bytes → List State → Tokens → State → Token → State
reached_by p fail toks j t = reached p fail j (tok toks t)

-- Behind the one that is `q` itself, the tokens that start with `q` are longer.
sorted-longer :
    (toks : Tokens) (q : Bytes) (i t : Token)
    → IsSorted toks
    → i < t
    → t < length toks
    → is_prefix q (tok toks i) ≡ true
    → is_prefix q (tok toks t) ≡ true
    → length q < length (tok toks t)
sorted-longer toks q i t sorted l u h k = elim (dec_lt (length q) (length (tok toks t))) [
  | yes longer ↦ longer
  | no short ↦
      let same : q ≡ tok toks t = is_prefix-same_length q (tok toks t) k (omega arith) in
      let before = sorted i t l u in
      let not_before = lex_lt-is_prefix q (tok toks i) h in absurd (false≢true (cc))
]

module _ (v : DictionaryView) (toks : Tokens) (rep : Represents v toks) (sorted : IsSorted toks)
    (p : Bytes) (fail base : List State) (prep : IsPrepared p fail toks base) (j : State)
    (j_le : j ≤ length p) (pre : List SparseTransition) where
  -- A token that starts with `q`, read in two parts.
  pub reached_rest :
      (s : State) (q : Bytes) (t : Token)
      → s ≤ length p
      → is_prefix q (tok toks t) ≡ true
      → reached p fail s (tok toks t)
        ≡ reached p fail (reached p fail s q) (drop (length q) (tok toks t))
  reached_rest s q t l h =
      ap (λ (w : Bytes). reached p fail s w) (sym (is_prefix_iff q (tok toks t) h))
      ∙ reached-append p fail prep.some_pattern prep.short prep.fallbacks s q
          (drop (length q) (tok toks t)) l

  module _ (q : Bytes) (last : Token) (inside : last < length toks) where
    pub end_test : ℕ → Bool
    end_test k = if leb k last then length (tok toks k) == length q else false

    pub ends_at-end_test : (k : ℕ) → k ≤ last + 1 → ends_at v (length q) last k ≡ some (end_test k)
    unfolding end_test
    ends_at-end_test k l = elim (dec_lt last k) [
      | yes h ↦ rw (lt→leb k last h) refl
      | no h ↦ rw (le→leb k last (omega arith), rep.token_len_lem k (omega arith)) refl
    ]

    pub end_test_over : end_test (last + 1) ≡ false
    unfolding end_test
    end_test_over = rw (lt→leb (last + 1) last (omega arith)) refl

    -- The tokens that end at the depth are `q`.
    pub end_test-same :
        (k : ℕ) → is_prefix q (tok toks k) ≡ true → end_test k ≡ true → q ≡ tok toks k
    unfolding end_test
    end_test-same k h e =
        let size : length (tok toks k) ≡ length q = ground (arith, e) in
        is_prefix-same_length q (tok toks k) h (omega arith)

    end_test-longer :
        (k : ℕ)
        → k ≤ last
        → is_prefix q (tok toks k) ≡ true
        → end_test k ≡ false
        → length q < length (tok toks k)
    unfolding end_test
    end_test-longer k l h e =
        let ne : length (tok toks k) ≢ length q = ground (arith, e, l) in
        omega (arith, is_prefix-length q (tok toks k) h, ne)

    -- Behind the tokens that end at the depth, all are longer.
    pub end-AreLonger :
        (i end : ℕ) → AreUnder toks q i last → Stops end_test i end → AreLonger toks q end last
    end-AreLonger i end under s t l u = (
      under t (omega (arith, s.from)) u,
      elim (ℕ_discrete t end) [
        | yes e ↦
            subst (λ (n : ℕ). length q < length (tok toks n)) (sym e)
              (end_test-longer end (omega arith) (under end s.from (omega arith)) s.stopped)
        | no ne ↦
            sorted-longer toks q end t sorted (omega arith) (omega arith)
              (under end s.from (omega arith)) (under t (omega (arith, s.from)) u)
      ],
    )
