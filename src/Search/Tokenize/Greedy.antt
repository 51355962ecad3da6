-- ===== src/Search/Tokenize/Greedy.antt =====
-- search/tokenize.rs: `tokenize` ends, and yields the greedy segmentation, which is unique.
use onpair.Common.{
  ℕ, zero, suc, ◌+◌, ◌-◌, ◌≤◌, ◌<◌, ◌≡◌, ◌∙◌, true, Option, some, none, List, [], ◌∷◌, ◌++◌, arith,
  refl, ap, sym, subst, dec_lt, false≢true, Bytes, length, drop, length-drop, drop-drop, is_prefix,
  is_prefix_iff, is_prefix-length, is_prefix-linear, is_prefix-same_length, lex_lt, lex_lt_irrefl,
  get_or-drop,
}
use onpair.Core.Types.{Token, TokenRange}
use onpair.Dictionary.View.{DictionaryView, Tokens, tok, Represents, IsSorted, IsComplete, AreBytes}
use onpair.Search.Lookup.{longest_prefix}
use onpair.Search.Lookup.Longest.{IsLongest, longest_prefix-IsStep}
use onpair.Search.Tokenize.{best_token, tokenize_loop, tokenize}

-- The bytes that a code sequence stands for.
abbrev pub decode : Tokens → List Token → Bytes
decode toks [] = []
decode toks (c ∷ codes) = tok toks c ++ decode toks codes

-- `t` is the longest token that is a prefix of `s`.
abbrev pub IsBest : Tokens → Bytes → Token → Type 0
IsBest toks s t = IsLongest toks s (some (t, length (tok toks t)))

-- Every code is the longest token that is a prefix of the rest of the string.
abbrev pub IsGreedy : Tokens → Bytes → List Token → Type 0
IsGreedy toks s [] = s ≡ []
IsGreedy toks s (c ∷ codes) = IsBest toks s c × IsGreedy toks (drop (length (tok toks c)) s) codes

-- Greedy codes stand for their string.
pub IsGreedy-decode :
    (toks : Tokens) (s : Bytes) (codes : List Token) → IsGreedy toks s codes → decode toks codes ≡ s
IsGreedy-decode toks s [] g = sym g
IsGreedy-decode toks s (c ∷ codes) g =
    ap (λ r. tok toks c ++ r) (IsGreedy-decode toks _ codes g.1)
    ∙ is_prefix_iff (tok toks c) s g.0.2

-- Two tokens with the same bytes are one token.
pub tok-injective :
    (toks : Tokens)
    → IsSorted toks
    → (t u : Token) → t < length toks
    → u < length toks
    → tok toks t ≡ tok toks u
    → t ≡ u
tok-injective toks sorted t u l k e = elim (dec_lt t u) [
  | yes lt ↦ absurd (same t u e (sorted t u lt k))
  | no le ↦ elim (dec_lt u t) [
    | yes lt ↦ absurd (same u t (sym e) (sorted u t lt l))
    | no ge ↦ omega arith
  ]
]
  where
    same : (i j : Token) → tok toks i ≡ tok toks j → ¬ (lex_lt (tok toks i) (tok toks j) ≡ true)
    same i j q h =
        false≢true
          (sym (lex_lt_irrefl (tok toks j)) ∙ subst (λ w. lex_lt w (tok toks j) ≡ true) q h)

-- The best token is unique.
pub IsBest-unique :
    (toks : Tokens)
    → IsSorted toks
    → (s : Bytes) (t u : Token) → IsBest toks s t
    → IsBest toks s u
    → t ≡ u
IsBest-unique toks sorted s t u (l, _, p, most) (k, _, q, most') =
    tok-injective toks sorted t u l k (
      is_prefix-same_length (tok toks t) (tok toks u)
        (is_prefix-linear (tok toks t) (tok toks u) s p q (most' t l p)) (most u k q))

module _ (v : DictionaryView) (toks : Tokens) (rep : Represents v toks)
    (sorted : IsSorted toks) where
  -- A best token exists only for a nonempty string.
  pub IsBest-nonempty : (s : Bytes) (t : Token) → IsBest toks s t → 1 ≤ length s
  IsBest-nonempty s t (l, _, p, _) =
      omega (arith, rep.nonempty t l, is_prefix-length (tok toks t) s p)

  -- The greedy codes of a string are unique: its segmentation is canonical.
  pub IsGreedy-unique :
      (s : Bytes) (cs ds : List Token) → IsGreedy toks s cs → IsGreedy toks s ds → cs ≡ ds
  IsGreedy-unique s [] [] g h = refl
  IsGreedy-unique s [] (d ∷ ds) g h = absurd (omega (arith, IsBest-nonempty s d h.0, ap length g))
  IsGreedy-unique s (c ∷ cs) [] g h = absurd (omega (arith, IsBest-nonempty s c g.0, ap length h))
  IsGreedy-unique s (c ∷ cs) (d ∷ ds) g h =
      let e : c ≡ d = IsBest-unique toks sorted s c d g.0 h.0 in
      let rest : cs ≡ ds =
        IsGreedy-unique (drop (length (tok toks c)) s) cs ds g.1
          (subst (λ t. IsGreedy toks (drop (length (tok toks t)) s) ds) (sym e) h.1) in
      cc

module _ (v : DictionaryView) (toks : Tokens) (rep : Represents v toks) (sorted : IsSorted toks)
    (complete : IsComplete toks) where
  -- A nonempty byte string has a prefix token.
  some_prefix : (s : Bytes) → AreBytes s → 1 ≤ length s → ¬ (IsLongest toks s none)
  some_prefix [] a l h = absurd (omega arith)
  some_prefix (b ∷ s) a l h =
      let (t, k, e) = complete b (a 0 (omega arith)) in
      let p : is_prefix (b ∷ []) (b ∷ s) ≡ true = ground arith in
      false≢true (sym (h t k) ∙ subst (λ w. is_prefix w (b ∷ s) ≡ true) (sym e) p)

  best :
      (s : Bytes) (x : Option (Token × ℕ))
      → AreBytes s
      → 1 ≤ length s
      → IsLongest toks s x
      → IsBest toks s (best_token x)
  best s none a l h = absurd (some_prefix s a l h)
  best s (some (t, n)) a l h = (h.0, refl, h.2, λ u k p. omega (arith, h.3 u k p, h.1))

  drop-AreBytes : (s : Bytes) (n : ℕ) → AreBytes s → AreBytes (drop n s)
  drop-AreBytes s n a i l =
      subst (λ b. b < 256) (sym (get_or-drop s n i 0)) (a (n + i) (omega (arith, length-drop n s)))

module _ (v : DictionaryView) (text : Bytes) (fuel pos : ℕ) where
  tokenize_loop_end : length text ≤ pos → tokenize_loop v text (suc fuel) pos ≡ some []
  unfolding tokenize_loop
  tokenize_loop_end h = ground arith

  tokenize_loop_step :
      (found : Option (Token × ℕ) × TokenRange) (n : ℕ) (rest : List Token)
      → pos < length text
      → longest_prefix v (drop pos text) ≡ some found
      → v.token_len (best_token found.0) ≡ some n
      → tokenize_loop v text fuel (pos + n) ≡ some rest
      → tokenize_loop v text (suc fuel) pos ≡ some (best_token found.0 ∷ rest)
  unfolding tokenize_loop
  tokenize_loop_step found n rest h e l r = ground arith

module _ (v : DictionaryView) (toks : Tokens) (rep : Represents v toks) (sorted : IsSorted toks)
    (complete : IsComplete toks) (text : Bytes) (bytes : AreBytes text) where
  tokenize_loop-IsGreedy :
      (fuel pos : ℕ)
      → length text - pos < fuel
      → (codes : List Token) × (tokenize_loop v text fuel pos ≡ some codes)
        × IsGreedy toks (drop pos text) codes
  tokenize_loop-IsGreedy zero pos f = elim f [ ]
  tokenize_loop-IsGreedy (suc fuel) pos f = elim (dec_lt pos (length text)) [
    | no k ↦ (
      [],
      tokenize_loop_end v text fuel pos (omega arith),
      nil (drop pos text) (omega (arith, length-drop pos text)),
    )
    | yes k ↦
        let (found, e, step) = longest_prefix-IsStep v toks rep sorted (drop pos text) in
        let t = best_token found.0 in
        let b : IsBest toks (drop pos text) t =
          best v toks rep sorted complete (drop pos text) found.0
            (drop-AreBytes v toks rep sorted complete text pos bytes)
            (omega (arith, length-drop pos text)) step.longest in
        let n : ℕ = length (tok toks t) in
        let (rest, r, g) =
          tokenize_loop-IsGreedy fuel (pos + n) (omega (arith, rep.nonempty t b.0)) in
        (
          t ∷ rest,
          tokenize_loop_step v text fuel pos found n rest k e (rep.token_len_lem t b.0) r,
          (b, subst (λ w. IsGreedy toks w rest) (sym (drop-drop n pos text)) g),
        )
  ]
    where
      nil : (s : Bytes) → length s ≡ 0 → s ≡ []
      nil [] h = refl
      nil (b ∷ s) h = absurd (omega arith)

  -- On a sorted and complete dictionary, tokenize of u8 values ends without a panic; its codes
  -- are the greedy ones, and decode to the text.
  pub tokenize-IsGreedy :
      (codes : List Token) × (tokenize text v ≡ some codes)
      × IsGreedy toks text codes
      × (decode toks codes ≡ text)
  unfolding tokenize
  tokenize-IsGreedy =
      let (codes, e, g) = tokenize_loop-IsGreedy (suc (length text)) 0 (omega arith) in
      (codes, e, g, IsGreedy-decode toks text codes g)
