-- ===== src/Encoding/DictionaryMatcher/Chains.antt =====
-- encoding/dictionary_matcher.rs, `from_dictionary`: the stack of the prefix tokens of a token.
use onpair.Common.{
  ℕ, zero, suc, ◌≤◌, ◌<◌, ◌≡◌, ◌∙◌, ◌⊎◌, inl, inr, refl, sym, ap, subst, true, false, false≢true,
  some, arith, List, [], ◌∷◌, Bytes, length, is_prefix, is_prefix_refl, is_prefix_trans,
  is_prefix-same_length, lex_lt, lex_lt_irrefl, lex_lt-asymm, Bool-cases, ℕ_discrete, dec_lt,
}
use onpair.Core.Types.{Token, max_token_size}
use onpair.Dictionary.View.{DictionaryView, Tokens, tok, Represents, IsSorted}
use onpair.Encoding.DictionaryMatcher.{buffer, pop_chain}
use onpair.Encoding.DictionaryMatcher.Keys.{buffer-LexLe, between-is_prefix}

-- A stack of proper prefixes of `w`, the longest on top, each a proper prefix of the one above.
abbrev pub IsNested : Tokens → Bytes → List Token → Type 0
IsNested toks w [] = Unit
IsNested toks w (t ∷ below) =
    (t < length toks)
    × (is_prefix (tok toks t) w ≡ true)
    × (length (tok toks t) < length w)
    × IsNested toks (tok toks t) below

-- `u` is in the stack.
abbrev pub Holds : Token → List Token → Type 0
Holds u [] = ⊥
Holds u (t ∷ below) = (u ≡ t) ⊎ Holds u below

-- A token of the stack, and a proper prefix of `w`.
pub Holds-IsNested :
    (toks : Tokens) (w : Bytes) (stack : List Token) (u : Token)
    → IsNested toks w stack
    → Holds u stack
    → (u < length toks) × (is_prefix (tok toks u) w ≡ true) × (length (tok toks u) < length w)
Holds-IsNested toks w [] u n h = absurd h
Holds-IsNested toks w (t ∷ below) u (l, p, s, n) (inl e) = (
  subst (λ (x : ℕ). x < length toks) (sym e) l,
  ap (λ (x : ℕ). is_prefix (tok toks x) w) e ∙ p,
  subst (λ (x : ℕ). length (tok toks x) < length w) (sym e) s,
)
Holds-IsNested toks w (t ∷ below) u (l, p, s, n) (inr h) =
    let (lu, pu, su) = Holds-IsNested toks (tok toks t) below u n h in
    (lu, is_prefix_trans (tok toks u) (tok toks t) w pu p, omega arith)

-- A stack of tokens, each a proper prefix of the one above.
abbrev pub IsStack : Tokens → List Token → Type 0
IsStack toks [] = Unit
IsStack toks (t ∷ below) = (t < length toks) × IsNested toks (tok toks t) below

pub IsNested-IsStack :
    (toks : Tokens) (w : Bytes) (stack : List Token) → IsNested toks w stack → IsStack toks stack
IsNested-IsStack toks w [] n = tt
IsNested-IsStack toks w (u ∷ below) (l, p, s, n) = (l, n)

-- The stack after the first `i` tokens: it holds the prefixes of the last of them among them.
pub record IsPrefixStack (toks : Tokens) (i : ℕ) (stack : List Token) : Type 0 where
  pub nested : IsStack toks stack
  pub seen : (u : Token) → Holds u stack → u < i
  pub complete :
      (j u : ℕ) → suc j ≡ i → u ≤ j → is_prefix (tok toks u) (tok toks j) ≡ true → Holds u stack

module _ (toks : Tokens) (v : DictionaryView) (r : Represents v toks) where
  -- The loop leaves a nested stack, drops no prefix of the new token, and adds nothing.
  pop_chain-IsNested :
      (x : Bytes) (stack : List Token)
      → IsStack toks stack
      → ((u : Token) → Holds u stack → lex_lt (tok toks u) x ≡ true)
      → (below : List Token) × (pop_chain v x stack ≡ some below)
        × IsNested toks x below
        × ((u : Token) → Holds u below → Holds u stack)
        × ((u : Token) → Holds u stack → is_prefix (tok toks u) x ≡ true → Holds u below)
  unfolding pop_chain
  pop_chain-IsNested x [] n lt = ([], refl, tt, (λ u h. h), λ u h p. h)
  pop_chain-IsNested x (t ∷ below) (l, n) lt = elim (Bool-cases (is_prefix (tok toks t) x)) [
    | inl p ↦ (
      t ∷ below,
      rw (pop_chain, r.token_lem t l, p),
      (l, p, shorter t x p (lt t (inl refl)), n),
      (λ u h. h),
      λ u h q. h,
    )
    | inr p ↦
        let (kept, e, n', old, all) =
          pop_chain-IsNested x below (IsNested-IsStack toks (tok toks t) below n)
            (λ u h. lt u (inr h)) in
        (
          kept,
          rw (pop_chain, r.token_lem t l, p, e),
          n',
          (λ u h. inr (old u h)),
          λ u h q. dropped below t x p u kept (all u) h q,
        )
  ]
    where
      shorter :
          (t : Token) (x : Bytes)
          → is_prefix (tok toks t) x ≡ true
          → lex_lt (tok toks t) x ≡ true
          → length (tok toks t) < length x
      shorter t x p l = elim (dec_lt (length (tok toks t)) (length x)) [
        | yes less ↦ less
        | no ge ↦
            let e = is_prefix-same_length (tok toks t) x p (omega arith) in
            absurd (false≢true (sym (lex_lt_irrefl x) ∙ ap (λ (y : Bytes). lex_lt y x) (sym e) ∙ l))
      ]

      dropped :
          (below : List Token) (t : Token) (x : Bytes)
          → is_prefix (tok toks t) x ≡ false
          → (u : Token) (kept : List Token)
          → (Holds u below → is_prefix (tok toks u) x ≡ true → Holds u kept)
          → Holds u (t ∷ below)
          → is_prefix (tok toks u) x ≡ true
          → Holds u kept
      dropped below t x f u kept all (inl e) q =
          absurd (false≢true (sym f ∙ ap (λ (y : ℕ). is_prefix (tok toks y) x) (sym e) ∙ q))
      dropped below t x f u kept all (inr h) q = all h q

  -- In a sorted dictionary, a prefix of the token `i + 1` that comes before it is a prefix of the token `i`.
  prefix_of_last :
      IsSorted toks
      → (i u : ℕ) → suc i < length toks
      → u ≤ i
      → is_prefix (tok toks u) (tok toks (suc i)) ≡ true
      → is_prefix (tok toks u) (tok toks i) ≡ true
  prefix_of_last sorted i u l le p = elim (ℕ_discrete u i) [
    | yes e ↦
        subst (λ (x : ℕ). is_prefix (tok toks u) (tok toks x) ≡ true) e
          (is_prefix_refl (tok toks u))
    | no ne ↦
        between-is_prefix max_token_size (tok toks u) (tok toks i) (tok toks (suc i))
          (r.bounded u (omega arith))
          (lex_lt-asymm (tok toks u) (tok toks i) (sorted u i (omega arith) (omega arith))) p
          (elim (buffer-LexLe max_token_size (tok toks i) (tok toks (suc i))
            (r.bounded i (omega arith)) (sorted i (suc i) (omega arith) l)) [
              | inl e ↦
                  ap (λ (x : Bytes). lex_lt x (buffer max_token_size (tok toks i))) (sym e)
                  ∙ lex_lt_irrefl (buffer max_token_size (tok toks i))
              | inr h ↦
                  lex_lt-asymm (buffer max_token_size (tok toks i))
                    (buffer max_token_size (tok toks (suc i))) h
            ])
  ]

  -- Each round of the loop over the tokens keeps the stack.
  pub pop_chain-IsPrefixStack :
      IsSorted toks
      → (i : ℕ) (stack : List Token) → i < length toks
      → IsPrefixStack toks i stack
      → (below : List Token) × (pop_chain v (tok toks i) stack ≡ some below)
        × IsPrefixStack toks (suc i) (i ∷ below)
  pop_chain-IsPrefixStack sorted i stack l s =
      let (below, e, n, old, all) =
        pop_chain-IsNested (tok toks i) stack s.nested (λ u h. sorted u i (s.seen u h) l) in
      (
        below,
        e,
        record {
          nested = (l, n);
          seen = λ u h. seen_next i below u (λ k. s.seen u (old u k)) h;
          complete = λ j u q le p.
              keeps i u stack below l s (all u) (omega arith)
                (subst (λ (x : ℕ). is_prefix (tok toks u) (tok toks x) ≡ true) (suc_inj q) p);
        },
      )
    where
      suc_inj : {a b : ℕ} → suc a ≡ suc b → a ≡ b
      suc_inj q = omega arith

      seen_next :
          (i : ℕ) (below : List Token) (u : Token)
          → (Holds u below → u < i)
          → Holds u (i ∷ below)
          → u < suc i
      seen_next i below u h (inl e) = omega arith
      seen_next i below u h (inr k) = let c = h k in omega arith

      keeps :
          (i u : ℕ) (stack below : List Token)
          → i < length toks
          → IsPrefixStack toks i stack
          → (Holds u stack → is_prefix (tok toks u) (tok toks i) ≡ true → Holds u below)
          → u ≤ i
          → is_prefix (tok toks u) (tok toks i) ≡ true
          → Holds u (i ∷ below)
      keeps zero u stack below l s all le p = inl (omega arith)
      keeps (suc i) u stack below l s all le p = elim (ℕ_discrete u (suc i)) [
        | yes e ↦ inl e
        | no ne ↦ inr (
            all (s.complete i u refl (omega arith) (prefix_of_last sorted i u l (omega arith) p)) p)
      ]
