-- ===== src/Search/Build/Exact.antt =====
-- search/substring/dfa.rs, `ContainsDfa::new`: the compiled automaton has the transitions of the byte
-- automaton, so row containment is exact.
use onpair.Common.{
  ℕ, zero, suc, ◌+◌, ◌-◌, ◌≤◌, ◌<◌, ◌≡◌, ◌∙◌, ◌⊎◌, inl, inr, ap, sym, refl, true, false, some,
  arith, List, [], ◌∷◌, Bytes, length, take, drop, get_or, get_elem?-eq-get_or, replicate,
  length-replicate, length-set, get_or-set_self, ltb, ◌==◌, dec_lt, le→leb, lt→ltb, le→ltb,
}
use onpair.Core.Types.{Token}
use onpair.Dictionary.View.{DictionaryView, Tokens, tok, Represents, IsSorted}
use onpair.Decoding.Loops.{InRange}
use onpair.Search.Tokenize.Greedy.{decode}
use onpair.Search.Automaton.{State, max_pattern_len, kmp_failure}
use onpair.Search.Automaton.Fallback.{AreFallbacks}
use onpair.Search.Automaton.Failure.{kmp_failure-AreFallbacks}
use onpair.Search.Automaton.Occurs.{occurs}
use onpair.Search.Automaton.Reach.{reached, step_bytes-reached}
use onpair.Search.Substring.{ContainsDfa, transitions, next, row_loop, row_contains}
use onpair.Search.Substring.Contains.{IsTable, row_contains-occurs}
use onpair.Search.Build.{
  pattern_too_long, prepared, refused, Exceptions, base_pass, sparse_pass, new_dfa,
}
use onpair.Search.Build.Base.{IsPrepared, base_loop_lem}
use onpair.Search.Build.Table.{IsTabled, state_loop-IsTabled}

module _ (toks : Tokens) (p : Bytes) (fail base : List State) (prep : IsPrepared p fail toks base)
    (e : Exceptions) (h : IsTabled p fail toks base (length p) e.sparse e.offsets) where
  abbrev compiled : ContainsDfa
  compiled = record { accept = length p; base = base; sparse = e.sparse; offsets = e.offsets }

  transitions-slice :
      (s : State)
      → 0 < s
      → s < length p
      → transitions compiled s
        ≡ some (
            take
              (get_or e.offsets (s + 1) 0 - get_or e.offsets s 0)
              (drop (get_or e.offsets s 0) e.sparse))
  transitions-slice s l u =
      let sl = h.slices s l u in
      rw
        (
          get_elem?-eq-get_or e.offsets s 0 (omega (arith, h.size)),
          get_elem?-eq-get_or e.offsets (s + 1) 0 (omega (arith, h.size)),
          le→leb _ _ sl.ordered,
          le→leb _ _ sl.inside,
        )
        refl

  compiled-next :
      (s : State) (t : Token)
      → s < length p
      → t < length toks
      → next compiled s t ≡ some (reached p fail s (tok toks t))
  unfolding next
  compiled-next zero t u l =
      rw (get_elem?-eq-get_or base t 0 (omega (arith, prep.size))) (ap some (prep.entry t l))
  compiled-next (suc s) t u l =
      let here : ltb 0 (suc s) ≡ true = ground arith in
      let sl = h.slices (suc s) (omega arith) u in
      rw
        (
          next,
          here,
          transitions-slice (suc s) (omega arith) u,
          get_elem?-eq-get_or base t 0 (omega (arith, prep.size)),
        )
        (ap some (sl.upto.agrees t l))

  compiled-IsTable : IsTable p fail toks compiled
  compiled-IsTable = record {
    accepts = refl;
    step = λ s t u l.
        compiled-next s t u l
        ∙ sym (
            step_bytes-reached p fail prep.some_pattern prep.short prep.fallbacks s (tok toks t)
              (omega arith));
  }

module _ (p : Bytes) (v : DictionaryView) where
  new_dfa_long :
      max_pattern_len < length p
      → new_dfa p v ≡ some (refused (pattern_too_long (length p) max_pattern_len))
  unfolding new_dfa
  new_dfa_long l = rw (lt→ltb max_pattern_len (length p) l, new_dfa) refl

  new_dfa_compiles :
      (fail base : List State) (e : Exceptions)
      → 0 < length p
      → length p ≤ max_pattern_len
      → kmp_failure p ≡ some fail
      → base_pass v p fail (replicate v.num_tokens 0) ≡ some base
      → sparse_pass v p fail base [] (replicate (length p + 1) 0) ≡ some e
      → new_dfa p v
        ≡ some (
            prepared
              (record { accept = length p; base = base; sparse = e.sparse; offsets = e.offsets }))
  unfolding new_dfa
  new_dfa_compiles fail base e l short q r s =
      let fits : ltb max_pattern_len (length p) ≡ false = le→ltb max_pattern_len (length p) short in
      let some_pattern : (length p == 0) ≡ false = ground arith in
      rw (new_dfa, fits, some_pattern, q, r, s) refl

module _ (p : Bytes) (v : DictionaryView) (toks : Tokens) (rep : Represents v toks)
    (sorted : IsSorted toks) (some_pattern : 0 < length p)
    (short : length p ≤ max_pattern_len) where
  pub new_dfa-IsTable :
      (fail : List State) × (dfa : ContainsDfa) × AreFallbacks p (length p) fail
      × (new_dfa p v ≡ some (prepared dfa))
      × IsTable p fail toks dfa
  new_dfa-IsTable =
      let (fail, q, fallbacks) = kmp_failure-AreFallbacks p some_pattern short in
      let size : length (replicate {A = ℕ} v.num_tokens 0) ≡ length toks =
        length-replicate v.num_tokens 0 ∙ rep.counted in
      let (base, r, size', old, fresh) =
        base_loop_lem v toks rep p fail fallbacks some_pattern short
          (length (replicate {A = ℕ} v.num_tokens 0)) 0 (replicate v.num_tokens 0) (omega arith)
          size in
      let prep : IsPrepared p fail toks base = record {
        some_pattern = some_pattern;
        short = short;
        fallbacks = fallbacks;
        size = size';
        entry = λ t l. fresh t (omega arith) l;
      } in
      let zeros : length (replicate {A = ℕ} (length p + 1) 0) ≡ length p + 1 =
        length-replicate (length p + 1) 0 in
      let (e, s, h) =
        state_loop-IsTabled v toks rep sorted p fail base prep (length p - 1) 1 []
          (replicate (length p + 1) 0) (omega arith) (omega arith)
          (record {
            size = length-set (replicate {A = ℕ} (length p + 1) 0) 1 0 ∙ zeros;
            bound = omega arith;
            here = get_or-set_self (replicate {A = ℕ} (length p + 1) 0) 1 0 0 (omega arith);
            slices = λ s a b. absurd (omega arith);
          }) in
      (
        fail,
        _,
        fallbacks,
        new_dfa_compiles p v fail base e some_pattern short q r s,
        compiled-IsTable toks p fail base prep e h,
      )

-- An empty pattern is in every row.
empty_row :
    (codes : List Token) (dfa : ContainsDfa) → dfa.accept ≡ 0 → row_contains codes dfa ≡ some true
unfolding row_contains row_loop
empty_row [] dfa e = rw (e) refl
empty_row (c ∷ codes) dfa e = rw (row_loop, e) refl

occurs_empty : (s : Bytes) → occurs [] s ≡ true
occurs_empty [] = refl
occurs_empty (b ∷ s) = refl

module _ (v : DictionaryView) (toks : Tokens) where
  -- What compiling a pattern gives: an automaton that is exact, or the refusal of a long pattern.
  abbrev pub Compiles : Bytes → Type 0
  Compiles p =
      ((length p ≤ max_pattern_len)
        × ((dfa : ContainsDfa) × (new_dfa p v ≡ some (prepared dfa))
            × ((codes : List Token)
                → InRange toks codes
                → row_contains codes dfa ≡ some (occurs p (decode toks codes)))))
      ⊎ ((max_pattern_len < length p)
          × (new_dfa p v ≡ some (refused (pattern_too_long (length p) max_pattern_len))))

module _ (v : DictionaryView) (toks : Tokens) (rep : Represents v toks)
    (sorted : IsSorted toks) where
  pub new_dfa-Compiles : (p : Bytes) → Compiles v toks p
  unfolding new_dfa
  new_dfa-Compiles [] = inl (
    ground arith,
    (_, refl, λ codes i. empty_row codes _ refl ∙ ap some (sym (occurs_empty (decode toks codes)))),
  )
  new_dfa-Compiles (b ∷ p) = elim (dec_lt max_pattern_len (length (b ∷ p))) [
    | yes long ↦ inr (long, new_dfa_long (b ∷ p) v long)
    | no fits ↦
        let short : length (b ∷ p) ≤ max_pattern_len = omega arith in
        let some_pattern : 0 < length (b ∷ p) = omega arith in
        let (fail, dfa, fallbacks, e, table) =
          new_dfa-IsTable (b ∷ p) v toks rep sorted some_pattern short in
        inl (
          short,
          (
            dfa,
            e,
            λ codes i.
                row_contains-occurs (b ∷ p) some_pattern short fail fallbacks toks dfa table codes
                  i,
          ),
        )
  ]

  -- For a view of a sorted dictionary and any pattern, new_dfa does not panic: a pattern of more
  -- than 255 bytes is refused with its length, and for any other the compiled automaton answers
  -- row_contains on codes in range, of any tokenization, without a panic and exactly by whether
  -- the decoded row contains the pattern.
  pub new_dfa-row_contains :
      (p : Bytes) (codes : List Token)
      → InRange toks codes
      → ((length p ≤ max_pattern_len)
          × ((dfa : ContainsDfa) × (new_dfa p v ≡ some (prepared dfa))
              × (row_contains codes dfa ≡ some (occurs p (decode toks codes)))))
        ⊎ ((max_pattern_len < length p)
            × (new_dfa p v ≡ some (refused (pattern_too_long (length p) max_pattern_len))))
  new_dfa-row_contains p codes i = elim (new_dfa-Compiles p) [
    | inl (short, (dfa, e, exact)) ↦ inl (short, (dfa, e, exact codes i))
    | inr long ↦ inr long
  ]
