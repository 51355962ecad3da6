-- ===== src/Search/Lookup/Narrow.antt =====
-- search/lookup.rs, `narrow`: a run of the tokens with a prefix becomes the run of the tokens with
-- that prefix and one byte more.
use onpair.Common.{
  ℕ, suc, ◌-◌, ◌≤◌, ◌<◌, ◌≡◌, ◌⊎◌, ◌∙◌, Bool, true, false, not, ◌&&◌, some, [], ◌∷◌, ◌++◌, arith,
  Bool-cases, refl, ap, sym, inl, inr, dec_lt, false≢true, Bytes, length, get_or,
  get_elem?-eq-get_or, is_prefix, below, at_most, is_prefix-snoc, below_mono, at_most_mono,
  Bool-ext, if◌then◌else◌,
}
use onpair.Core.Types.{Token, token_mod, TokenRange, empty_range, new, contains, sub16}
use onpair.Dictionary.View.{DictionaryView, Tokens, tok, Represents, IsSorted}
use onpair.Search.Lookup.{bisect, byte_at, lower_test, upper_test, missing_test, past_test, narrow}
use onpair.Search.Lookup.Bisect.{Cuts, bisect-Cuts}

-- `r` is the nonempty run of the tokens that start with `p`.
pub record IsRun (toks : Tokens) (p : Bytes) (r : TokenRange) : Type 0 where
  pub ordered : r.begin ≤ r.last
  pub inside : r.last < length toks
  pub exact : (t : Token) → t < length toks → contains r t ≡ is_prefix p (tok toks t)

-- No token starts with `p`, and `r` is the canonical empty range.
pub record IsMissing (toks : Tokens) (p : Bytes) (r : TokenRange) : Type 0 where
  pub canonical : r ≡ empty_range
  pub absent : (t : Token) → t < length toks → is_prefix p (tok toks t) ≡ false

-- The four tests of a token, as tests of its bytes.
module _ (v : DictionaryView) (toks : Tokens) (rep : Represents v toks) (k b : ℕ) where
  module _ (i : ℕ) (l : i < length toks) where
    pub read_byte : k < length (tok toks i) → byte_at v k i ≡ some (get_or (tok toks i) k 0)
    read_byte h = rw (rep.token_lem i l) (get_elem?-eq-get_or (tok toks i) k 0 h)

    lower_test-below : lower_test v k b i ≡ some (below b k (tok toks i))
    unfolding lower_test
    lower_test-below = rw (rep.token_len_lem i l) (ground (arith, read_byte))

    upper_test-at_most : upper_test v k b i ≡ some (at_most b k (tok toks i))
    unfolding upper_test
    upper_test-at_most = rw (rep.token_len_lem i l) (ground (arith, read_byte))

    missing_test-eq :
        missing_test v k b i ≡ some (not (not (below b k (tok toks i)) && at_most b k (tok toks i)))
    unfolding missing_test
    missing_test-eq = rw (rep.token_len_lem i l) (ground (arith, read_byte))

    past_test-eq : past_test v k b i ≡ some (not (at_most b k (tok toks i)))
    unfolding past_test
    past_test-eq = rw (rep.token_len_lem i l) (ground (arith, read_byte))

-- A token that starts with `p` starts with `p` and `b` if its next byte is neither below nor above.
is_prefix-next :
    (p : Bytes) (b : ℕ) (w : Bytes)
    → is_prefix p w ≡ true
    → is_prefix (p ++ b ∷ []) w ≡ (not (below b (length p) w) && at_most b (length p) w)
is_prefix-next p b w h = is_prefix-snoc p b w ∙ ground arith

is_prefix-shorter :
    (p : Bytes) (b : ℕ) (w : Bytes) → is_prefix p w ≡ false → is_prefix (p ++ b ∷ []) w ≡ false
is_prefix-shorter p b w h = is_prefix-snoc p b w ∙ ground arith

module _ (toks : Tokens) (sorted : IsSorted toks) (p : Bytes) (b : ℕ) (r : TokenRange)
    (run : IsRun toks p r) where
  lo : ℕ → Bool
  lo i = below b (length p) (tok toks i)

  hi : ℕ → Bool
  hi i = at_most b (length p) (tok toks i)

  starts : (i : ℕ) → r.begin ≤ i → i ≤ r.last → is_prefix p (tok toks i) ≡ true
  starts i l u = sym (run.exact i (omega (arith, run.inside))) ∙ ground arith

  within :
      (i : ℕ) → i < length toks → is_prefix p (tok toks i) ≡ true → (r.begin ≤ i) × (i ≤ r.last)
  within i l h = ground (arith, run.exact i l)

  lo_mono : (i j : ℕ) → r.begin ≤ i → i < j → j ≤ r.last → lo j ≡ true → lo i ≡ true
  unfolding lo
  lo_mono i j l k u h =
      below_mono p (tok toks i) (tok toks j) b (starts i l (omega arith)) (starts j (omega arith) u)
        (sorted i j k (omega (arith, run.inside))) h

  hi_mono : (i j : ℕ) → r.begin ≤ i → i < j → j ≤ r.last → hi j ≡ true → hi i ≡ true
  unfolding hi
  hi_mono i j l k u h =
      at_most_mono p (tok toks i) (tok toks j) b (starts i l (omega arith))
        (starts j (omega arith) u) (sorted i j k (omega (arith, run.inside))) h

  -- Below implies at most.
  lo-hi : (i : ℕ) → lo i ≡ true → hi i ≡ true
  unfolding lo hi
  lo-hi i h = ground arith

  next :
      (i : ℕ)
      → r.begin ≤ i
      → i ≤ r.last
      → is_prefix (p ++ b ∷ []) (tok toks i) ≡ (not (lo i) && hi i)
  unfolding lo hi
  next i l u = is_prefix-next p b (tok toks i) (starts i l u)

  outside :
      (i : ℕ)
      → i < length toks
      → is_prefix (p ++ b ∷ []) (tok toks i) ≡ true
      → (r.begin ≤ i) × (i ≤ r.last)
  outside i l h = elim (Bool-cases (is_prefix p (tok toks i))) [
    | inl e ↦ within i l e
    | inr e ↦ absurd (false≢true (sym (is_prefix-shorter p b (tok toks i) e) ∙ h))
  ]

  -- No token has the next byte, if the cut of the first search has not.
  module _ (first : ℕ) (cut : Cuts lo r.begin r.last first) where
    missing-absent :
        (not (lo first) && hi first) ≡ false
        → (t : ℕ) → t < length toks
        → is_prefix (p ++ b ∷ []) (tok toks t) ≡ false
    missing-absent m t l = elim (Bool-cases (is_prefix (p ++ b ∷ []) (tok toks t))) [
      | inr e ↦ e
      | inl e ↦
          let w = outside t l e in
          let n = sym (next t w.0 w.1) ∙ e in
          elim (dec_lt t first) [
            | yes before ↦ ground (arith, cut.holds t w.0 before, n)
            | no early ↦ elim (dec_lt first t) [
              | no same ↦ let q : t ≡ first = omega arith in ground (arith, ap lo q, ap hi q, n, m)
              | yes after ↦ ground (
                arith,
                cut.fails first (omega arith) (omega arith),
                hi_mono first t cut.at_least after w.1,
                n,
                m,
              )
            ]
          ]
    ]

    module _ (found : (not (lo first) && hi first) ≡ true) (c : ℕ)
        (cut' : Cuts hi first r.last c) where
      abbrev last' : ℕ
      last' = if not (hi c) then sub16 c 1 else c

      small : r.last < token_mod → c < token_mod
      small h = omega (arith, cut'.at_most)

      first_le : r.last < token_mod → first ≤ last'
      first_le h = elim (dec_lt first c) [
        | yes k ↦ ground (arith, small h)
        | no k ↦ let q : first ≡ c = omega (arith, cut'.at_least) in ground (arith, ap hi q, found)
      ]

      last_le : r.last < token_mod → last' ≤ r.last
      last_le h = ground (arith, cut'.at_most, first_le h)

      to_prefix :
          r.last < token_mod
          → (t : ℕ) → first ≤ t
          → t ≤ last'
          → is_prefix (p ++ b ∷ []) (tok toks t) ≡ true
      to_prefix h t l u =
          let inside : t ≤ r.last = omega (arith, last_le h) in
          let not_lo : lo t ≡ false = elim (Bool-cases (lo t)) [
            | inr e ↦ e
            | inl e ↦ elim (dec_lt first t) [
              | yes k ↦ ground (arith, lo_mono first t cut.at_least k inside e, found)
              | no k ↦ let q : t ≡ first = omega arith in ground (arith, ap lo q, found)
            ]
          ] in
          let is_hi : hi t ≡ true = elim (dec_lt t c) [
            | yes k ↦ cut'.holds t l k
            | no k ↦
                let q : hi t ≡ hi c = ap hi (ground (arith, small h)) in ground (arith, small h, q)
          ] in
          next t (omega (arith, cut.at_least)) inside ∙ ground (arith, not_lo, is_hi)

      from_prefix :
          r.last < token_mod
          → (t : ℕ) → t < length toks
          → is_prefix (p ++ b ∷ []) (tok toks t) ≡ true
          → (first ≤ t) × (t ≤ last')
      from_prefix h t l e =
          let w = outside t l e in
          let n = sym (next t w.0 w.1) ∙ e in
          let low : first ≤ t = elim (dec_lt t first) [
            | yes k ↦ ground (arith, cut.holds t w.0 k, n)
            | no k ↦ omega arith
          ] in
          let up : t ≤ c = elim (dec_lt c t) [
            | no k ↦ omega arith
            | yes k ↦ ground (
              arith,
              cut'.fails c (omega arith) (omega arith),
              hi_mono c t (omega (arith, cut.at_least, cut'.at_least)) k w.1,
              n,
            )
          ] in
          (
            low,
            elim (dec_lt t c) [
              | yes k ↦ ground (arith, small h)
              | no k ↦ let q : hi t ≡ hi c = ap hi (omega arith) in ground (arith, q, n)
            ],
          )

      narrowed-IsRun : r.last < token_mod → IsRun toks (p ++ b ∷ []) (new first last')
      narrowed-IsRun h = record {
        ordered = first_le h;
        inside = omega (arith, last_le h, run.inside);
        exact = λ t l.
            Bool-ext _ _
              (λ e. let q : (first ≤ t) × (t ≤ last') = ground arith in to_prefix h t q.0 q.1)
              (λ e. let q = from_prefix h t l e in ground (arith, q));
      }

-- Computing `narrow` from the results of its parts.
module _ (v : DictionaryView) (r : TokenRange) (k b first : ℕ)
    (e₁ : bisect (lower_test v k b) (suc (r.last - r.begin)) r.begin r.last ≡ some first) where
  narrow_missing : missing_test v k b first ≡ some true → narrow v r k b ≡ some empty_range
  unfolding narrow
  narrow_missing m = rw (e₁, m)

  narrow_found :
      (c : ℕ) (past : Bool)
      → missing_test v k b first ≡ some false
      → bisect (upper_test v k b) (suc (r.last - first)) first r.last ≡ some c
      → past_test v k b c ≡ some past
      → narrow v r k b ≡ some (new first (if past then sub16 c 1 else c))
  unfolding narrow
  narrow_found c past m e₂ t = rw (e₁, m, e₂, t)

-- On a sorted dictionary and from the run of the tokens with a prefix, narrow does not panic and
-- returns the run of those with the prefix extended by a byte, or the canonical empty range if
-- there is none.
pub narrow-IsRun :
    (v : DictionaryView) (toks : Tokens) (p : Bytes) (b : ℕ) (r : TokenRange)
    → Represents v toks
    → IsSorted toks
    → IsRun toks p r
    → (r' : TokenRange) × (narrow v r (length p) b ≡ some r')
      × (IsRun toks (p ++ b ∷ []) r' ⊎ IsMissing toks (p ++ b ∷ []) r')
unfolding lo hi
narrow-IsRun v toks p b r rep sorted run =
    let k = length p in
    let small : r.last < token_mod = omega (arith, run.inside, rep.addressable) in
    let g₁ : ℕ → Bool = lo toks sorted p b r run in
    let g₂ : ℕ → Bool = hi toks sorted p b r run in
    let (first, e₁, cut) =
      bisect-Cuts (lower_test v k b) g₁ (suc (r.last - r.begin)) r.begin r.last small run.ordered
        (omega arith) (λ i l u. lower_test-below v toks rep k b i (omega (arith, run.inside)))
        (λ i j l q u. lo_mono toks sorted p b r run i j l q (omega arith)) in
    let inside : first < length toks = omega (arith, cut.at_most, run.inside) in
    let m = missing_test-eq v toks rep k b first inside in
    elim (Bool-cases (not (g₁ first) && g₂ first)) [
      | inr no_match ↦ (
        empty_range,
        narrow_missing v r k b first e₁ (m ∙ ap (λ (x : Bool). some (not x)) no_match),
        inr (record {
          canonical = refl;
          absent = missing-absent toks sorted p b r run first cut no_match;
        }),
      )
      | inl match ↦
          let (c, e₂, cut') =
            bisect-Cuts (upper_test v k b) g₂ (suc (r.last - first)) first r.last small cut.at_most
              (omega arith)
              (λ i l u. upper_test-at_most v toks rep k b i (omega (arith, run.inside)))
              (λ i j l q u.
                hi_mono toks sorted p b r run i j (omega (arith, cut.at_least)) q (omega arith)) in
          let t = past_test-eq v toks rep k b c (omega (arith, cut'.at_most, run.inside)) in
          (
            new first (if not (g₂ c) then sub16 c 1 else c),
            narrow_found v r k b first e₁ c _ (m ∙ ap (λ (x : Bool). some (not x)) match) e₂ t,
            inl (narrowed-IsRun toks sorted p b r run first cut match c cut' small),
          )
    ]
