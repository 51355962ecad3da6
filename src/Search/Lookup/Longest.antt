-- ===== src/Search/Lookup/Longest.antt =====
-- search/lookup.rs, `longest_prefix`: the longest token that starts a byte string.
use onpair.Common.{
  ℕ, ◌+◌, ◌-◌, ◌%◌, ◌≤◌, ◌<◌, ◌≡◌, ◌∙◌, true, false, Option, some, none, [], ◌∷◌, ◌++◌, arith, refl,
  ap, sym, subst, inl, inr, Bool-cases, dec_lt, false≢true, Bytes, length, take, drop, length-take,
  take-append-drop, is_prefix, is_prefix_trans, is_prefix-append, is_prefix-linear, is_prefix_refl,
  is_prefix-length, is_prefix-same_length, lex_lt-is_prefix, lex_lt, leb, ◌==◌, if◌then◌else◌,
  lt→leb, le→leb,
}
use mathlib.Core.List.{append-nil}
use onpair.Core.Types.{
  Token, token_mod, max_token_size, TokenRange, empty_range, new, contains, is_empty,
}
use onpair.Dictionary.View.{DictionaryView, Tokens, tok, Represents, IsSorted}
use onpair.Search.Lookup.{narrow, longest_loop, longest_prefix}
use onpair.Search.Lookup.Narrow.{IsRun, IsMissing, narrow-IsRun}
use onpair.Search.Lookup.Range.{
  IsPrefixRange, snoc-append, length-snoc, IsRun-not_empty, IsMissing-is_empty, absent-append,
  whole-IsRun,
}

-- The longest token that is a prefix of `s`, with its length; `none` if no token is.
abbrev pub IsLongest : Tokens → Bytes → Option (Token × ℕ) → Type 0
IsLongest toks s none = (u : Token) → u < length toks → is_prefix (tok toks u) s ≡ false
IsLongest toks s (some (t, n)) =
    (t < length toks)
    × (n ≡ length (tok toks t))
    × (is_prefix (tok toks t) s ≡ true)
    × ((u : Token) → u < length toks → is_prefix (tok toks u) s ≡ true → length (tok toks u) ≤ n)

-- A longer string has the same longest token, if no token reaches past the shorter one.
extend-IsLongest :
    (toks : Tokens) (p s : Bytes) (x : Option (Token × ℕ))
    → is_prefix p s ≡ true
    → ((u : Token)
        → u < length toks
        → is_prefix (tok toks u) s ≡ true
        → length (tok toks u) ≤ length p)
    → IsLongest toks p x
    → IsLongest toks s x
extend-IsLongest toks p s none ps short h = λ u l. elim (Bool-cases (is_prefix (tok toks u) s)) [
  | inr e ↦ e
  | inl e ↦ absurd (false≢true (sym (h u l) ∙ is_prefix-linear (tok toks u) p s e ps (short u l e)))
]
extend-IsLongest toks p s (some (t, n)) ps short (l, q, e, most) = (
  l,
  q,
  is_prefix_trans (tok toks t) p s e ps,
  λ u k f. most u k (is_prefix-linear (tok toks u) p s f ps (short u k f)),
)

module _ (toks : Tokens) (sorted : IsSorted toks) (p : Bytes) (b : ℕ) (r : TokenRange)
    (run : IsRun toks (p ++ b ∷ []) r) where
  begin_lt : r.begin < length toks
  begin_lt = omega (arith, run.ordered, run.inside)

  begin_starts : is_prefix (p ++ b ∷ []) (tok toks r.begin) ≡ true
  begin_starts = sym (run.exact r.begin begin_lt) ∙ ground (arith, run.ordered)

  -- A token equal to the bytes so far is the first of the run.
  whole_is_begin :
      (u : Token)
      → u < length toks
      → is_prefix (tok toks u) (p ++ b ∷ []) ≡ true
      → length p + 1 ≤ length (tok toks u)
      → u ≡ r.begin
  whole_is_begin u l e n =
      let same : tok toks u ≡ p ++ b ∷ [] =
        is_prefix-same_length (tok toks u) (p ++ b ∷ []) e (omega (arith, length-snoc p b)) in
      let starts : is_prefix (p ++ b ∷ []) (tok toks u) ≡ true =
        subst (λ s. is_prefix (p ++ b ∷ []) s ≡ true) (sym same) (is_prefix_refl (p ++ b ∷ [])) in
      let member : contains r u ≡ true = run.exact u l ∙ starts in
      elim (dec_lt r.begin u) [
        | no k ↦ ground (arith, member)
        | yes k ↦ absurd (
            false≢true (
              sym (lex_lt-is_prefix (p ++ b ∷ []) (tok toks r.begin) begin_starts)
              ∙ subst (λ s. lex_lt (tok toks r.begin) s ≡ true) same (sorted r.begin u k l)))
      ]

  grow-IsLongest :
      (x : Option (Token × ℕ))
      → IsLongest toks p x
      → IsLongest toks
          (p ++ b ∷ [])
          (if length (tok toks r.begin) == length p + 1 then some (r.begin, length p + 1) else x)
  grow-IsLongest x h = elim (Bool-cases (length (tok toks r.begin) == length p + 1)) [
    | inl e ↦
        let n : length (tok toks r.begin) ≡ length p + 1 = ground (arith, e) in
        let same : p ++ b ∷ [] ≡ tok toks r.begin =
          is_prefix-same_length (p ++ b ∷ []) (tok toks r.begin) begin_starts
            (omega (arith, n, length-snoc p b)) in
        rw e (
          begin_lt,
          sym n,
          subst (λ s. is_prefix (tok toks r.begin) s ≡ true) (sym same)
              (is_prefix_refl (tok toks r.begin)),
          λ u l f. omega (arith, is_prefix-length (tok toks u) (p ++ b ∷ []) f, length-snoc p b),
        )
    | inr e ↦ rw e (
        extend-IsLongest toks p (p ++ b ∷ []) x (is_prefix-append p (b ∷ []))
          (λ u l f. elim (dec_lt (length p) (length (tok toks u))) [
            | no k ↦ omega arith
            | yes k ↦
                let q = whole_is_begin u l f (omega arith) in
                let q' : length (tok toks u) ≡ length (tok toks r.begin) =
                  ap (λ (t : ℕ). length (tok toks t)) q in
                ground
                  (arith, e, q', is_prefix-length (tok toks u) (p ++ b ∷ []) f, length-snoc p b)
          ])
          h)
  ]

-- Where no token goes on with the next byte, the search is over.
stop-IsLongest :
    (toks : Tokens) (p : Bytes) (b : ℕ) (rest : Bytes) (x : Option (Token × ℕ))
    → ((t : Token) → t < length toks → is_prefix (p ++ b ∷ []) (tok toks t) ≡ false)
    → IsLongest toks p x
    → IsLongest toks (p ++ b ∷ rest) x
stop-IsLongest toks p b rest x absent h =
    extend-IsLongest toks p (p ++ b ∷ rest) x (is_prefix-append p (b ∷ rest))
      (λ u l f. elim (dec_lt (length p) (length (tok toks u))) [
        | no k ↦ omega arith
        | yes k ↦ absurd (
            false≢true (
              sym (absent u l)
              ∙ is_prefix-linear (p ++ b ∷ []) (tok toks u) (p ++ b ∷ rest)
                  (subst (λ s. is_prefix (p ++ b ∷ []) s ≡ true) (snoc-append p b rest)
                    (is_prefix-append (p ++ b ∷ []) rest))
                  f (omega (arith, length-snoc p b))))
      ])
      h

module _ (v : DictionaryView) (r : TokenRange) (k b : ℕ) (rest : Bytes) (r' : TokenRange)
    (e : narrow v r k b ≡ some r') (x : Option (Token × ℕ)) where
  longest_loop_end : is_empty r' ≡ true → longest_loop v k (b ∷ rest) r x ≡ some (x, r')
  unfolding longest_loop
  longest_loop_end h = ground arith

  longest_loop_step :
      (n : ℕ)
      → is_empty r' ≡ false
      → v.token_len r'.begin ≡ some n
      → longest_loop v k (b ∷ rest) r x
        ≡ longest_loop v (k + 1) rest r' (if n == k + 1 then some (r'.begin, k + 1) else x)
  unfolding longest_loop
  longest_loop_step n h l = ground arith

-- What one step of tokenization returns: the longest prefix token, and the tokens that start with
-- the whole string.
pub record IsStep (toks : Tokens) (s : Bytes) (res : Option (Token × ℕ) × TokenRange) : Type 0 where
  pub longest : IsLongest toks s res.0
  pub starting : IsPrefixRange toks s res.1

module _ (v : DictionaryView) (toks : Tokens) (rep : Represents v toks)
    (sorted : IsSorted toks) where
  longest_loop-IsStep :
      (rest p : Bytes) (r : TokenRange) (x : Option (Token × ℕ))
      → IsRun toks p r
      → IsLongest toks p x
      → (res : Option (Token × ℕ) × TokenRange) × (longest_loop v (length p) rest r x ≡ some res)
        × IsStep toks (p ++ rest) res
  unfolding longest_loop
  longest_loop-IsStep [] p r x run h = (
    (x, r),
    refl,
    subst (λ s. IsStep toks s (x, r)) (sym (append-nil p))
        (record { longest = h; starting = inl run }),
  )
  longest_loop-IsStep (b ∷ rest) p r x run h =
      let (r', e, found) = narrow-IsRun v toks p b r rep sorted run in
      elim found [
        | inr m ↦ (
          (x, r'),
          longest_loop_end v r (length p) b rest r' e x (IsMissing-is_empty m),
          record {
            longest = stop-IsLongest toks p b rest x m.absent h;
            starting = inr (record {
              canonical = m.canonical;
              absent = λ t l.
                  subst (λ q. is_prefix q (tok toks t) ≡ false) (snoc-append p b rest)
                    (absent-append toks (p ++ b ∷ []) rest t (m.absent t l));
            });
          },
        )
        | inl run' ↦
            let n : ℕ = length (tok toks r'.begin) in
            let x' : Option (Token × ℕ) =
              if n == length p + 1 then some (r'.begin, length p + 1) else x in
            let (res, e', good) =
              longest_loop-IsStep rest (p ++ b ∷ []) r' x' run'
                (grow-IsLongest toks sorted p b r' run' x h) in
            (
              res,
              longest_loop_step v r (length p) b rest r' e x n (IsRun-not_empty run')
                    (rep.token_len_lem r'.begin (omega (arith, run'.ordered, run'.inside)))
                  ∙ ap (λ (j : ℕ). longest_loop v j rest r' x') (sym (length-snoc p b))
                  ∙ e',
              subst (λ s. IsStep toks s res) (snoc-append p b rest) good,
            )
      ]

  longest_prefix_empty :
      (s : Bytes) → length toks ≡ 0 → longest_prefix v s ≡ some (none, empty_range)
  unfolding longest_prefix
  longest_prefix_empty s h = rw (rep.counted, h)

  longest_prefix_loop :
      (s : Bytes) (res : Option (Token × ℕ) × TokenRange)
      → 0 < length toks
      → longest_loop v 0 (take max_token_size s) (new 0 ((v.num_tokens - 1) % token_mod)) none
        ≡ some res
      → longest_prefix v s
        ≡ some (res.0, if leb (length s) max_token_size then res.1 else empty_range)
  unfolding longest_prefix
  longest_prefix_loop s res h e = ground (arith, rep.counted)

  -- No token starts with a string that is longer than a token.
  long-IsMissing : (s : Bytes) → max_token_size < length s → IsMissing toks s empty_range
  long-IsMissing s h = record {
    canonical = refl;
    absent = λ t l. elim (Bool-cases (is_prefix s (tok toks t))) [
      | inr e ↦ e
      | inl e ↦ absurd (omega (arith, is_prefix-length s (tok toks t) e, rep.bounded t l))
    ];
  }

  take-is_prefix : (n : ℕ) (s : Bytes) → is_prefix (take n s) s ≡ true
  take-is_prefix n s =
      subst (λ q. is_prefix (take n s) q ≡ true) (take-append-drop n s)
        (is_prefix-append (take n s) (drop n s))

  start-IsLongest : IsLongest toks [] none
  start-IsLongest u l = elim (Bool-cases (is_prefix (tok toks u) [])) [
    | inr e ↦ e
    | inl e ↦ absurd (omega (arith, is_prefix-length (tok toks u) [] e, rep.nonempty u l))
  ]

  pub window-IsLongest :
      (s : Bytes) (x : Option (Token × ℕ))
      → IsLongest toks (take max_token_size s) x
      → IsLongest toks s x
  window-IsLongest s x =
      extend-IsLongest toks (take max_token_size s) s x (take-is_prefix max_token_size s) (λ u l f.
        omega
          (arith, rep.bounded u l, is_prefix-length (tok toks u) s f, length-take max_token_size s))

  window-IsPrefixRange :
      (s : Bytes) (r : TokenRange)
      → IsPrefixRange toks (take max_token_size s) r
      → IsPrefixRange toks s (if leb (length s) max_token_size then r else empty_range)
  window-IsPrefixRange s r h = elim (dec_lt max_token_size (length s)) [
    | yes k ↦ rw (lt→leb (length s) max_token_size k) (inr (long-IsMissing s k))
    | no k ↦
        let whole : take max_token_size s ≡ s =
          is_prefix-same_length (take max_token_size s) s (take-is_prefix max_token_size s)
            (omega (arith, length-take max_token_size s)) in
        rw (le→leb (length s) max_token_size (omega arith))
          (subst (λ q. IsPrefixRange toks q r) whole h)
  ]

  -- On a sorted dictionary longest_prefix does not panic, and returns the longest token that is a
  -- prefix of the bytes, if any is, with the run of the tokens that start with all of the bytes.
  pub longest_prefix-IsStep :
      (s : Bytes)
      → (res : Option (Token × ℕ) × TokenRange) × (longest_prefix v s ≡ some res)
        × IsStep toks s res
  longest_prefix-IsStep s = elim (dec_lt 0 (length toks)) [
    | yes h ↦
        let (res, e, good) =
          longest_loop-IsStep (take max_token_size s) [] _ none (whole-IsRun v toks rep h)
            start-IsLongest in
        (
          (res.0, if leb (length s) max_token_size then res.1 else empty_range),
          longest_prefix_loop s res h e,
          record {
            longest = window-IsLongest s res.0 good.longest;
            starting = window-IsPrefixRange s res.1 good.starting;
          },
        )
    | no h ↦ (
      (none, empty_range),
      longest_prefix_empty s (omega arith),
      record {
        longest = λ u l. absurd (omega arith);
        starting = inr (record { canonical = refl; absent = λ t l. absurd (omega arith) });
      },
    )
  ]
