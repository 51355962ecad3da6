-- ===== src/Search/Build/Pending.antt =====
-- search/substring/dfa.rs, `Build::sparse_pass`: which tokens the visits of the relevant bytes leave.
use onpair.Common.{
  ℕ, ◌+◌, ◌≤◌, ◌<◌, ◌≡◌, ◌∙◌, ◌⊎◌, ap, true, arith, List, [], ◌∷◌, Bytes, length, get_or, ◌==◌,
  dec_lt, inl, inr, is_prefix, lex_lt, ℕ_discrete,
}
use onpair.Core.Types.{Token, TokenRange, contains}
use onpair.Dictionary.View.{DictionaryView, Tokens, tok, Represents, IsSorted}
use onpair.Search.Lookup.Narrow.{IsRun, IsMissing}
use onpair.Search.Automaton.{State}
use onpair.Search.Build.{has_byte}
use onpair.Search.Build.Sorting.{IsAscending}
use onpair.Search.Build.Grown.{base_of}

-- The first byte of a token.
abbrev pub first : Tokens → Token → ℕ
first toks t = get_or (tok toks t) 0 0

is_prefix_single : (b : ℕ) (w : Bytes) → 0 < length w → is_prefix (b ∷ []) w ≡ (get_or w 0 0 == b)
is_prefix_single b [] l = absurd (omega arith)
is_prefix_single b (x ∷ w) l = ground arith

first_byte_mono : (u w : Bytes) → 0 < length u → lex_lt u w ≡ true → get_or u 0 0 ≤ get_or w 0 0
first_byte_mono [] w l h = absurd (omega arith)
first_byte_mono (a ∷ u) [] l h = ground arith
first_byte_mono (a ∷ u) (b ∷ w) l h = ground arith

module _ (v : DictionaryView) (toks : Tokens) (rep : Represents v toks)
    (sorted : IsSorted toks) where
  first_mono : (i t : Token) → i ≤ t → t < length toks → first toks i ≤ first toks t
  first_mono i t l u = elim (ℕ_discrete i t) [
    | yes e ↦ let same : first toks i ≡ first toks t = ap (first toks) e in omega arith
    | no ne ↦
        first_byte_mono (tok toks i) (tok toks t) (omega (arith, rep.nonempty i (omega arith)))
          (sorted i t (omega arith) u)
  ]

  -- The tokens of a run with one byte are those whose first byte it is.
  run_first :
      (b : ℕ) (r : TokenRange)
      → IsRun toks (b ∷ []) r
      → (t : Token) → t < length toks
      → contains r t ≡ (first toks t == b)
  run_first b r run t l =
      run.exact t l ∙ is_prefix_single b (tok toks t) (omega (arith, rep.nonempty t l))

module _ (toks : Tokens) (base : List State) (want : Token → State) where
  -- The tokens from `c` on are regular, or one of the bytes is still to visit them; and the bytes
  -- are above the first bytes of the tokens before `c`.
  pub record IsPending (bytes : Bytes) (c : Token) : Type 0 where
    pub pending :
        (t : Token)
        → c ≤ t
        → t < length toks
        → (has_byte (first toks t) bytes ≡ true) ⊎ (base_of base t ≡ want t)
    pub visited :
        (t : Token) (b : ℕ) → t < c → t < length toks → has_byte b bytes ≡ true → first toks t < b

module _ (v : DictionaryView) (toks : Tokens) (rep : Represents v toks) (sorted : IsSorted toks)
    (base : List State) (want : Token → State) (b : ℕ) (rest : Bytes)
    (ascends : IsAscending (b ∷ rest)) (c : Token)
    (todo : IsPending toks base want (b ∷ rest) c) where
  module _ (r : TokenRange) (run : IsRun toks (b ∷ []) r) where
    first_begin : first toks r.begin ≡ b
    first_begin =
        let h =
          run_first v toks rep sorted b r run r.begin (omega (arith, run.ordered, run.inside)) in
        ground (arith, run.ordered)

    first_last : first toks r.last ≡ b
    first_last =
        let h = run_first v toks rep sorted b r run r.last run.inside in ground (arith, run.ordered)

    pub run_after : c ≤ r.begin
    run_after = elim (dec_lt r.begin c) [
      | yes l ↦
          let low =
            todo.visited r.begin b l (omega (arith, run.ordered, run.inside)) (ground arith) in
          let e = first_begin in absurd (omega arith)
      | no l ↦ omega arith
    ]

    -- The tokens before the run are regular.
    pub before_run : (t : Token) → c ≤ t → t < r.begin → base_of base t ≡ want t
    before_run t l u =
        let inside : t < length toks = omega (arith, run.ordered, run.inside) in
        elim (todo.pending t l inside) [
          | inr e ↦ e
          | inl h ↦
              let out = run_first v toks rep sorted b r run t inside in
              let low =
                first_mono v toks rep sorted t r.begin (omega arith)
                  (omega (arith, run.ordered, run.inside)) in
              let e = first_begin in let above = ascends.0 (first toks t) in absurd (ground arith)
        ]

    pub visited-IsPending : IsPending toks base want rest (r.last + 1)
    visited-IsPending = record {
      pending = λ t l u. elim (todo.pending t (omega (arith, run_after, run.ordered)) u) [
        | inr e ↦ inr e
        | inl h ↦ let out = run_first v toks rep sorted b r run t u in inl (ground arith)
      ];
      visited = λ t x l u h.
          let low = first_mono v toks rep sorted t r.last (omega arith) run.inside in
          let e = first_last in let above = ascends.0 x h in omega arith;
    }

  pub missing-IsPending :
      (r : TokenRange) → IsMissing toks (b ∷ []) r → IsPending toks base want rest c
  missing-IsPending r m = record {
    pending = λ t l u. elim (todo.pending t l u) [
      | inr e ↦ inr e
      | inl h ↦
          let out = m.absent t u in
          let single = is_prefix_single b (tok toks t) (omega (arith, rep.nonempty t u)) in
          inl (ground arith)
    ];
    visited = λ t x l u h. todo.visited t x l u (ground arith);
  }
