-- ===== src/Search/Build/Visit.antt =====
-- search/substring/dfa.rs, `Build::sparse_pass`: the visits of the relevant bytes of one state.
use onpair.Common.{
  ℕ, ◌+◌, ◌≤◌, ◌<◌, ◌≡◌, ◌∙◌, ap, sym, refl, true, false, Option, some, arith, List, [], ◌∷◌, Bytes,
  length, get_or, le→ltb, Bool-cases, inl, inr,
}
use mathlib.Core.Option
use onpair.Core.Types.{Token, TokenRange, max_token_size, is_empty}
use onpair.Dictionary.View.{DictionaryView, Tokens, tok, Represents, IsSorted}
use onpair.Search.Lookup.{prefix_range}
use onpair.Search.Lookup.Range.{prefix_range-IsPrefixRange}
use onpair.Search.Automaton.{State, fall_back}
use onpair.Search.Automaton.Reach.{reached, step_bytes-reached}
use onpair.Search.Substring.{SparseTransition}
use onpair.Search.Build.{chain, has_byte, sort, dedup, traverse, relevant_loop}
use onpair.Search.Build.Sorting.{IsAscending, has_byte-dedup, dedup-IsAscending}
use onpair.Search.Build.Relevant.{chain_lem, step_bytes_falls}
use onpair.Search.Build.Grown.{base_of, Grown, Grown-skip, start-Grown}
use onpair.Search.Build.Base.{IsPrepared}
use onpair.Search.Build.Depth.{reached_by}
use onpair.Search.Build.Traverse.{traverse-Visits}
use onpair.Search.Build.Pending.{
  first, IsPending, run_after, before_run, visited-IsPending, missing-IsPending,
}

module _ (v : DictionaryView) (toks : Tokens) (rep : Represents v toks) (sorted : IsSorted toks)
    (p : Bytes) (fail base : List State) (prep : IsPrepared p fail toks base) (j : State)
    (j_lt : j < length p) (pre : List SparseTransition) where
  abbrev want : Token → State
  want t = reached_by p fail toks j t

  module _ (b : ℕ) (rest : Bytes) (sparse : List SparseTransition) (r : TokenRange)
      (e : prefix_range v (b ∷ []) ≡ some r) where
    relevant_empty :
        is_empty r ≡ true
        → relevant_loop v p fail base (length pre) j (b ∷ rest) sparse
          ≡ relevant_loop v p fail base (length pre) j rest sparse
    unfolding relevant_loop
    relevant_empty h = rw (e, h, relevant_loop) refl

    relevant_visit :
        (s : List SparseTransition)
        → is_empty r ≡ false
        → traverse v p fail base
            (length pre)
            max_token_size
            r
            1
            (reached p fail j (b ∷ []))
            (reached p fail 0 (b ∷ []))
            sparse
          ≡ some s
        → relevant_loop v p fail base (length pre) j (b ∷ rest) sparse
          ≡ relevant_loop v p fail base (length pre) j rest s
    unfolding relevant_loop
    relevant_visit s h t =
        let to_j =
          step_bytes-reached p fail prep.some_pattern prep.short prep.fallbacks j (b ∷ [])
            (omega arith) in
        let to_0 =
          step_bytes-reached p fail prep.some_pattern prep.short prep.fallbacks 0 (b ∷ [])
            (omega arith) in
        rw (e, h, to_j, to_0, t, relevant_loop) refl

  -- All relevant bytes visited, the exceptions of the state are complete.
  relevant_loop-Grown :
      (bytes : Bytes) (c : Token) (sparse : List SparseTransition)
      → IsAscending bytes
      → IsPending toks base (reached_by p fail toks j) bytes c
      → c ≤ length toks
      → Grown (base_of base) (reached_by p fail toks j) pre c sparse
      → (s : List SparseTransition) × (relevant_loop v p fail base (length pre) j bytes sparse
          ≡ some s)
        × Grown (base_of base) (reached_by p fail toks j) pre (length toks) s
  unfolding relevant_loop
  relevant_loop-Grown [] c sparse asc todo l g = (
    sparse,
    refl,
    Grown-skip (base_of base) (reached_by p fail toks j) pre sparse c g (length toks) l
        (λ t a u. elim (todo.pending t a u) [ inl h ↦ absurd (ground arith) | inr e ↦ e ]),
  )
  relevant_loop-Grown (b ∷ rest) c sparse asc todo l g =
      let (r, e, found) = prefix_range-IsPrefixRange v toks rep sorted (b ∷ []) in
      elim found [
        | inr m ↦
            let none_left : is_empty r ≡ true = ap (λ (x : TokenRange). is_empty x) m.canonical in
            let (s, q, done) =
              relevant_loop-Grown rest c sparse asc.1
                (missing-IsPending v toks rep sorted base (reached_by p fail toks j) b rest asc c
                  todo r m)
                l g in
            (s, relevant_empty b rest sparse r e none_left ∙ q, done)
        | inl run ↦
            let some_left : is_empty r ≡ false = le→ltb r.last r.begin run.ordered in
            let g' =
              Grown-skip (base_of base) (reached_by p fail toks j) pre sparse c g r.begin
                (run_after v toks rep sorted base (reached_by p fail toks j) b rest asc c todo r
                  run)
                (before_run v toks rep sorted base (reached_by p fail toks j) b rest asc c todo r
                  run) in
            let (s, q, g'') =
              traverse-Visits v toks rep sorted p fail base prep j (omega arith) pre max_token_size
                (b ∷ []) r.begin r.last sparse (omega arith) run.ordered run.inside
                (λ t a u. sym (run.exact t (omega (arith, run.inside))) ∙ ground arith) g' in
            let (s', q', done) =
              relevant_loop-Grown rest (r.last + 1) s asc.1
                (visited-IsPending v toks rep sorted base (reached_by p fail toks j) b rest asc c
                  todo r run)
                (omega (arith, run.inside)) g'' in
            (s', relevant_visit b rest sparse r e s some_left q ∙ q', done)
      ]

  -- The visits of the bytes on the failure chain find all exceptions.
  pub relevant-Grown :
      0 < j
      → (bytes : Bytes) × (chain p fail (j + 1) j ≡ some bytes)
        × ((s : List SparseTransition) × (relevant_loop v p fail base
                (length pre)
                j
                (dedup (sort bytes))
                pre
              ≡ some s)
            × Grown (base_of base) (reached_by p fail toks j) pre (length toks) s)
  relevant-Grown l =
      let (bytes, e, off) = chain_lem p fail prep.fallbacks (j + 1) j (omega arith) j_lt in
      (
        bytes,
        e,
        relevant_loop-Grown (dedup (sort bytes)) 0 pre (dedup-IsAscending bytes)
            (record {
              pending = λ t a u. elim (Bool-cases (has_byte (first toks t) (dedup (sort bytes)))) [
                | inl h ↦ inl h
                | inr h ↦ inr (
                    prep.entry t u
                    ∙ regular bytes off t (tok toks t) refl (omega (arith, rep.nonempty t u))
                        (sym (has_byte-dedup (first toks t) bytes) ∙ h))
              ];
              visited = λ t b a u h. absurd (omega arith);
            })
            (omega arith) (start-Grown (base_of base) (reached_by p fail toks j) pre),
      )
    where
      regular :
          (bytes : Bytes)
          → ((b : ℕ) → has_byte b bytes ≡ false → fall_back p fail (j + 1) j b ≡ some 0)
          → (t : Token) (w : Bytes) → tok toks t ≡ w
          → 0 < length w
          → has_byte (get_or w 0 0) bytes ≡ false
          → reached p fail 0 w ≡ reached p fail j w
      regular bytes off t [] e l h = absurd (omega arith)
      regular bytes off t (b ∷ w) e l h =
          ap (λ (o : Option ℕ). Option.get_or o 0)
            (sym (step_bytes_falls p fail prep.fallbacks j j_lt b (off b h) w))
