-- ===== src/Search/Prefix/Rows.antt =====
-- search/prefix.rs: on greedily encoded rows, `starts_with` is the prefix test of the rows.
use onpair.Common.{
  ℕ, suc, ◌+◌, ◌≤◌, ◌≡◌, ◌≢◌, ◌∙◌, Bool, true, false, Option, some, none, List, [], ◌∷◌, ◌++◌,
  arith, refl, ap, sym, subst, Bytes, length, ◌==◌, ltb, leb, Bool-cases, Bool-ext, inl, inr, take,
  drop, drop-drop, length-drop, min, get_elem?, if◌then◌else◌, is_prefix, is_prefix_iff,
  is_prefix-append_left, is_prefix-linear, is_prefix_trans, is_prefix-same_length, is_prefix-length,
  dec_lt, ◌>>=◌, le→leb, ==_iff,
}
use mathlib.Core.Option
use onpair.Core.Types.{Token, TokenRange, contains}
use onpair.Dictionary.View.{DictionaryView, Tokens, tok, Represents, IsSorted, IsComplete, AreBytes}
use onpair.Search.Lookup.{prefix_range}
use onpair.Search.Lookup.Range.{IsPrefixRange, prefix_range-IsPrefixRange, contains-IsPrefixRange}
use onpair.Search.Tokenize.Greedy.{
  IsGreedy, IsBest, IsBest-nonempty, tokenize-IsGreedy, tok-injective,
}
use onpair.Search.Prefix.{PrefixQuery, interval_loop, new, position_ne, starts_with}

-- The first position where the codes diverge.
abbrev diff : List Token → List Token → ℕ
diff cs ts =
    Option.get_or
      (position_ne (take (min (length cs) (length ts)) cs) (take (min (length cs) (length ts)) ts))
      (min (length cs) (length ts))

diff_step :
    (c : Token) (cs : List Token) (t : Token) (ts : List Token)
    → diff (c ∷ cs) (t ∷ ts) ≡ (if c == t then suc (diff cs ts) else 0)
unfolding position_ne
diff_step c cs t ts =
    let m : ℕ = min (length cs) (length ts) in
    let e : min (suc (length cs)) (suc (length ts)) ≡ suc m = omega arith in
    ap (λ (k : ℕ). Option.get_or (position_ne (take k (c ∷ cs)) (take k (t ∷ ts))) k) e
    ∙ by_test (c == t) (position_ne (take m cs) (take m ts)) m
  where
    by_test :
        (b : Bool) (x : Option ℕ) (m : ℕ)
        → Option.get_or (if b then Option.map suc x else some 0) (suc m)
          ≡ (if b then suc (Option.get_or x m) else 0)
    by_test true none m = refl
    by_test true (some n) m = refl
    by_test false x m = refl

diff-nil_right : (cs : List Token) → diff cs [] ≡ 0
unfolding position_ne
diff-nil_right cs =
    let e : min (length cs) 0 ≡ 0 = omega arith in
    ap (λ (k : ℕ). Option.get_or (position_ne (take k cs) (take k [])) k) e

diff-nil_left : (ts : List Token) → diff [] ts ≡ 0
unfolding position_ne
diff-nil_left ts =
    let e : min 0 (length ts) ≡ 0 = omega arith in
    ap (λ (k : ℕ). Option.get_or (position_ne (take k []) (take k ts)) k) e

-- `starts_with` by recursion on the codes.
starts : List Token → List Token → List TokenRange → Bool
starts cs [] rs = true
starts [] (t ∷ ts) rs = false
starts (c ∷ cs) (t ∷ ts) [] = false
starts (c ∷ cs) (t ∷ ts) (r ∷ rs) = if c == t then starts cs ts rs else contains r c

-- What `starts_with` does at the position of the divergence.
abbrev decide_at : ℕ → List Token → List Token → List TokenRange → Option Bool
decide_at d cs ts rs =
    if d == length ts
    then some true
    else if ltb d (length cs)
    then (do interval ← get_elem? rs d; code ← get_elem? cs d; some (contains interval code))
    else some false

decide_at-suc :
    (d : ℕ) (c : Token) (cs : List Token) (t : Token) (ts : List Token) (r : TokenRange)
    (rs : List TokenRange)
    → decide_at (suc d) (c ∷ cs) (t ∷ ts) (r ∷ rs) ≡ decide_at d cs ts rs
decide_at-suc d c cs t ts r rs = ground arith

starts_with-starts :
    (cs ts : List Token) (rs : List TokenRange)
    → length rs ≡ length ts
    → decide_at (diff cs ts) cs ts rs ≡ some (starts cs ts rs)
unfolding starts
starts_with-starts cs [] rs h = ground (arith, diff-nil_right cs)
starts_with-starts [] (t ∷ ts) rs h = ground (arith, diff-nil_left (t ∷ ts))
starts_with-starts (c ∷ cs) (t ∷ ts) [] h = absurd (omega arith)
starts_with-starts (c ∷ cs) (t ∷ ts) (r ∷ rs) h =
    let ih = starts_with-starts cs ts rs (omega arith) in
    ap (λ (d : ℕ). decide_at d (c ∷ cs) (t ∷ ts) (r ∷ rs)) (diff_step c cs t ts)
    ∙ (elim (Bool-cases (c == t)) [
      | inl e ↦ rw e (decide_at-suc (diff cs ts) c cs t ts r rs ∙ ih)
      | inr e ↦ rw e (ground arith)
    ])

-- A query of a needle: its greedy codes, and at each the tokens that start with the rest of it.
abbrev pub IsQuery : Tokens → Bytes → List Token → List TokenRange → Type 0
IsQuery toks s [] rs = (s ≡ []) × (rs ≡ [])
IsQuery toks s (t ∷ ts) [] = ⊥
IsQuery toks s (t ∷ ts) (r ∷ rs) =
    IsBest toks s t × IsPrefixRange toks s r × IsQuery toks (drop (length (tok toks t)) s) ts rs

IsQuery-length :
    (toks : Tokens) (s : Bytes) (ts : List Token) (rs : List TokenRange)
    → IsQuery toks s ts rs
    → length rs ≡ length ts
IsQuery-length toks s [] rs q = ap length q.1
IsQuery-length toks s (t ∷ ts) [] q = absurd q
IsQuery-length toks s (t ∷ ts) (r ∷ rs) q = ap suc (IsQuery-length toks _ ts rs q.2)

module _ (v : DictionaryView) (toks : Tokens) (rep : Represents v toks)
    (sorted : IsSorted toks) where
  -- Where the codes diverge, the row has the needle as a prefix only inside its own token.
  diverge :
      (s row : Bytes) (t c : Token)
      → IsBest toks s t
      → IsBest toks row c
      → c ≢ t
      → is_prefix s (tok toks c) ≡ is_prefix s row
  diverge s row t c b d ne =
      Bool-ext _ _ (λ h. is_prefix_trans s (tok toks c) row h d.2)
        (λ h. elim (dec_lt (length s) (length (tok toks c))) [
          | yes k ↦ is_prefix-linear s (tok toks c) row h d.2 (omega arith)
          | no k ↦
              let c_in_s : is_prefix (tok toks c) s ≡ true =
                is_prefix-linear (tok toks c) s row d.2 h (omega arith) in
              let t_in_row : is_prefix (tok toks t) row ≡ true =
                is_prefix_trans (tok toks t) s row b.2 h in
              absurd (
                ne (
                  tok-injective toks sorted c t d.0 b.0 (
                    is_prefix-same_length (tok toks c) (tok toks t)
                      (is_prefix-linear (tok toks c) (tok toks t) s c_in_s b.2 (b.3 c d.0 c_in_s))
                      (d.3 t b.0 t_in_row))))
        ])

  -- Where they agree, the test goes on with the rest of both.
  agree :
      (s row w : Bytes)
      → is_prefix w s ≡ true
      → is_prefix w row ≡ true
      → is_prefix (drop (length w) s) (drop (length w) row) ≡ is_prefix s row
  agree s row w h k =
      sym (is_prefix-append_left w (drop (length w) s) (drop (length w) row))
      ∙ ap (λ x. is_prefix x (w ++ drop (length w) row)) (is_prefix_iff w s h)
      ∙ ap (λ x. is_prefix s x) (is_prefix_iff w row k)

  starts-is_prefix :
      (s row : Bytes) (cs ts : List Token) (rs : List TokenRange)
      → IsGreedy toks row cs
      → IsQuery toks s ts rs
      → starts cs ts rs ≡ is_prefix s row
  unfolding starts
  starts-is_prefix s row cs [] rs g q = sym (ap (λ x. is_prefix x row) q.0)
  starts-is_prefix s row [] (t ∷ ts) [] g q = absurd q
  starts-is_prefix s row [] (t ∷ ts) (r ∷ rs) g q =
      let n = IsBest-nonempty v toks rep sorted s t q.0 in
      elim (Bool-cases (is_prefix s row)) [
        | inr e ↦ sym e
        | inl e ↦ absurd (omega (arith, is_prefix-length s row e, ap length g))
      ]
  starts-is_prefix s row (c ∷ cs) (t ∷ ts) [] g q = absurd q
  starts-is_prefix s row (c ∷ cs) (t ∷ ts) (r ∷ rs) g q =
      let ih = λ (x : Bytes) (y : Bytes). starts-is_prefix x y cs ts rs in
      elim (Bool-cases (c == t)) [
        | inl e ↦
            let same : t ≡ c = sym ((==_iff c t).0 e) in
            rw e (
              ih (drop (length (tok toks c)) s) (drop (length (tok toks c)) row) g.1
                (subst (λ (u : Token). IsQuery toks (drop (length (tok toks u)) s) ts rs) same q.2)
              ∙ agree s row (tok toks c)
                  (subst (λ (u : Token). is_prefix (tok toks u) s ≡ true) same q.0.2) g.0.2)
        | inr e ↦ rw e (
            contains-IsPrefixRange toks s r q.1 c g.0.0
            ∙ diverge s row t c q.0 g.0 (λ p. ground (arith, e, p)))
      ]

module _ (v : DictionaryView) (s : Bytes) (pos : ℕ) (t : Token) (ts : List Token) where
  interval_loop_step :
      (r : TokenRange) (n : ℕ) (rs : List TokenRange)
      → pos ≤ length s
      → prefix_range v (drop pos s) ≡ some r
      → v.token_len t ≡ some n
      → interval_loop v s (pos + n) ts ≡ some rs
      → interval_loop v s pos (t ∷ ts) ≡ some (r ∷ rs)
  unfolding interval_loop
  interval_loop_step r n rs h e l i =
      let within : leb pos (length s) ≡ true = le→leb pos (length s) h in ground arith

module _ (v : DictionaryView) (toks : Tokens) (rep : Represents v toks)
    (sorted : IsSorted toks) where
  interval_loop-IsQuery :
      (s : Bytes) (ts : List Token) (pos : ℕ)
      → IsGreedy toks (drop pos s) ts
      → (rs : List TokenRange) × (interval_loop v s pos ts ≡ some rs)
        × IsQuery toks (drop pos s) ts rs
  unfolding interval_loop
  interval_loop-IsQuery s [] pos g = ([], refl, (g, refl))
  interval_loop-IsQuery s (t ∷ ts) pos g =
      let n : ℕ = length (tok toks t) in
      let (r, e, range) = prefix_range-IsPrefixRange v toks rep sorted (drop pos s) in
      let rest : IsGreedy toks (drop (pos + n) s) ts =
        subst (λ w. IsGreedy toks w ts) (drop-drop n pos s) g.1 in
      let (rs, i, q) = interval_loop-IsQuery s ts (pos + n) rest in
      (
        r ∷ rs,
        interval_loop_step v s pos t ts r n rs
            (omega (arith, IsBest-nonempty v toks rep sorted (drop pos s) t g.0, length-drop pos s))
            e (rep.token_len_lem t g.0.0) i,
        (g.0, range, subst (λ w. IsQuery toks w ts rs) (sym (drop-drop n pos s)) q),
      )

  module _ (complete : IsComplete toks) (prefix : Bytes) (bytes : AreBytes prefix) where
    pub new-IsQuery :
        (query : PrefixQuery) × (new prefix v ≡ some query)
        × IsQuery toks prefix query.tokens query.intervals
    unfolding new
    new-IsQuery =
        let (ts, e, g, d) = tokenize-IsGreedy v toks rep sorted complete prefix bytes in
        let (rs, i, q) = interval_loop-IsQuery prefix ts 0 g in
        (record { tokens = ts; intervals = rs }, rw (e, i), q)

-- On a sorted and complete dictionary, preparing a query for a prefix of u8 values and testing a
-- greedily encoded row do not panic, and the test is whether the row starts with the prefix.
pub starts_with-is_prefix :
    (v : DictionaryView) (toks : Tokens) (prefix row : Bytes) (codes : List Token)
    → Represents v toks
    → IsSorted toks
    → IsComplete toks
    → AreBytes prefix
    → IsGreedy toks row codes
    → (query : PrefixQuery) × (new prefix v ≡ some query)
      × (starts_with codes query ≡ some (is_prefix prefix row))
unfolding starts_with
starts_with-is_prefix v toks prefix row codes rep sorted complete bytes g =
    let (query, e, q) = new-IsQuery v toks rep sorted complete prefix bytes in
    (
      query,
      e,
      starts_with-starts codes query.tokens query.intervals
            (IsQuery-length toks prefix query.tokens query.intervals q)
          ∙ ap some (
              starts-is_prefix v toks rep sorted prefix row codes query.tokens query.intervals g q),
    )
