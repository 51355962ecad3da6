-- ===== src/Search/Automaton/Steps.antt =====
-- search/substring/dfa.rs, `Build::step_bytes`: the state after a text, and acceptance.
use onpair.Common.{
  ℕ, zero, suc, ◌+◌, ◌%◌, ◌≤◌, ◌<◌, ◌≡◌, ◌≢◌, ◌∙◌, ◌⊎◌, inl, inr, refl, sym, ap, subst, arith, true,
  false, some, [], ◌∷◌, ◌++◌, List, Bytes, length, get_or, get_elem?-eq-get_or, ◌==◌, ℕ_discrete,
  dec_lt, Bool-cases,
}
use mathlib.Core.List.{append_assoc, append-nil}
use onpair.Search.Automaton.{
  State, state_mod, max_pattern_len, kmp_failure, fall_back, step_byte, step_bytes,
}
use onpair.Search.Automaton.Matches.{IsMatch, zero-IsMatch, IsMatch-grow, IsMatch-shrink}
use onpair.Search.Automaton.Fallback.{AreFallbacks}
use onpair.Search.Automaton.Failure.{kmp_failure-AreFallbacks}
use onpair.Search.Automaton.Occurs.{occurs, occurs-append, IsMatch-occurs, occurs_snoc}
use onpair.Search.Automaton.Fall.{FallsTo, fall_back-FallsTo}

-- The longest prefix of the pattern that the text ends with.
pub record IsLongestMatch (p t : Bytes) (k : ℕ) : Type 0 where
  pub match : IsMatch p t k
  pub longest : (j : ℕ) → IsMatch p t j → j ≤ k

-- What the automaton knows after the text `t`: an occurrence of the pattern, or the longest match.
abbrev pub IsState : Bytes → Bytes → State → Type 0
IsState p t k =
    ((k ≡ length p) × (occurs p t ≡ true))
    ⊎ ((k < length p) × (occurs p t ≡ false) × IsLongestMatch p t k)

module _ (p : Bytes) (some_pattern : 0 < length p) (short : length p ≤ max_pattern_len)
    (fail : List State) (fallbacks : AreFallbacks p (length p) fail) where
  module _ (t : Bytes) (s b : ℕ) (s' : State) (fell : fall_back p fail (suc s) s b ≡ some s')
      (g : FallsTo p fail fallbacks t b s') where
    step_byte_grow : get_or p s' 0 ≡ b → step_byte p fail s b ≡ some (s' + 1)
    unfolding step_byte
    step_byte_grow e =
        let eq : (get_or p s' 0 == b) ≡ true = ground (arith, e) in
        let small : (s' + 1) % state_mod ≡ s' + 1 = omega (arith, g.inside) in
        rw (fell, get_elem?-eq-get_or p s' 0 g.inside, eq, small) refl

    step_byte_stay : get_or p s' 0 ≢ b → step_byte p fail s b ≡ some s'
    unfolding step_byte
    step_byte_stay ne =
        let ne' : (get_or p s' 0 == b) ≡ false = ground (arith, ne) in
        rw (fell, get_elem?-eq-get_or p s' 0 g.inside, ne') refl

    -- A match of the longer text grew out of one of at most `s'` bytes.
    grown_from :
        (j : ℕ)
        → IsMatch p (t ++ b ∷ []) j
        → (j ≡ 0) ⊎ ((j' : ℕ) × (j ≡ j' + 1) × (j' ≤ s') × (get_or p j' 0 ≡ b))
    grown_from zero m = inl refl
    grown_from (suc j) m =
        let e : suc j ≡ j + 1 = omega arith in
        let (shrunk, l, c) = IsMatch-shrink p t b j (subst (IsMatch p (t ++ b ∷ [])) e m) in
        elim (dec_lt s' j) [
          | yes longer ↦ absurd (g.refused j l longer shrunk c)
          | no le ↦ inr (j, e, omega arith, c)
        ]

    grow-IsLongestMatch : get_or p s' 0 ≡ b → IsLongestMatch p (t ++ b ∷ []) (s' + 1)
    grow-IsLongestMatch e = record {
      match = IsMatch-grow p t b s' g.match g.inside e;
      longest =
          λ j m. elim (grown_from j m) [ inl z ↦ omega arith | inr (j', q, le, c) ↦ omega arith ];
    }

    stay-IsLongestMatch : s' ≡ 0 → get_or p s' 0 ≢ b → IsLongestMatch p (t ++ b ∷ []) s'
    stay-IsLongestMatch z ne = record {
      match = subst (IsMatch p (t ++ b ∷ [])) (sym z) (zero-IsMatch p (t ++ b ∷ []));
      longest = λ j m. elim (grown_from j m) [
        | inl q ↦ omega arith
        | inr (j', q, le, c) ↦
            let same : s' ≡ j' = omega arith in absurd (ne (ap (λ (n : ℕ). get_or p n 0) same ∙ c))
      ];
    }

  step_byte-IsLongestMatch :
      (t : Bytes) (s b : ℕ)
      → s < length p
      → IsLongestMatch p t s
      → (k : State) × (step_byte p fail s b ≡ some k) × IsLongestMatch p (t ++ b ∷ []) k
  step_byte-IsLongestMatch t s b l h =
      let (s', fell, g) =
        fall_back-FallsTo p fail fallbacks (suc s) s b t (omega arith) l h.match
          (λ j q k m e. let c = h.longest j m in absurd (omega arith)) in
      elim (ℕ_discrete (get_or p s' 0) b) [
        | yes e ↦ (s' + 1, step_byte_grow t s b s' fell g e, grow-IsLongestMatch t s b s' fell g e)
        | no ne ↦
            let z : s' ≡ 0 = elim g.stopped [ inl z ↦ z | inr e ↦ absurd (ne e) ] in
            (s', step_byte_stay t s b s' fell g ne, stay-IsLongestMatch t s b s' fell g z ne)
      ]

  -- The state after one more byte.
  next-IsState :
      (t : Bytes) (b k : ℕ)
      → occurs p t ≡ false
      → IsLongestMatch p (t ++ b ∷ []) k
      → IsState p (t ++ b ∷ []) k
  next-IsState t b k before h = elim (ℕ_discrete k (length p)) [
    | yes e ↦
        inl (
          e,
          IsMatch-occurs p (t ++ b ∷ []) some_pattern (subst (IsMatch p (t ++ b ∷ [])) e h.match),
        )
    | no ne ↦
        let l : k < length p = omega (arith, h.match.inside) in
        elim (Bool-cases (occurs p (t ++ b ∷ []))) [
          | inr absent ↦ inr (l, absent, h)
          | inl present ↦ elim (occurs_snoc p t b some_pattern present) [
            | inl old ↦ absurd (cc)
            | inr m ↦ let c = h.longest (length p) m in absurd (omega arith)
          ]
        ]
  ]

  module _ (s b : ℕ) (bytes : Bytes) where
    step_bytes_accept : s ≡ length p → step_bytes p fail s (b ∷ bytes) ≡ some (length p)
    unfolding step_bytes
    step_bytes_accept e =
        let eq : (s == length p) ≡ true = ground (arith, e) in rw (eq, step_bytes) refl

    step_bytes_step :
        (k : State)
        → s < length p
        → step_byte p fail s b ≡ some k
        → step_bytes p fail s (b ∷ bytes) ≡ step_bytes p fail k bytes
    unfolding step_bytes
    step_bytes_step k l e =
        let ne : (s == length p) ≡ false = ground (arith, l) in rw (ne, e, step_bytes) refl

  -- From the state of a text, the automaton does not panic, and reaches the state of the longer text.
  pub step_bytes-IsState :
      (t bytes : Bytes) (s : State)
      → IsState p t s
      → (k : State) × (step_bytes p fail s bytes ≡ some k) × IsState p (t ++ bytes) k
  unfolding step_bytes
  step_bytes-IsState t [] s h =
      (s, refl, subst (λ (x : Bytes). IsState p x s) (sym (append-nil t)) h)
  step_bytes-IsState t (b ∷ bytes) s (inl (e, there)) =
      (length p, step_bytes_accept s b bytes e, inl (refl, occurs-append p t (b ∷ bytes) there))
  step_bytes-IsState t (b ∷ bytes) s (inr (l, absent, h)) =
      let (k, e, g) = step_byte-IsLongestMatch t s b l h in
      let (r, q, i) = step_bytes-IsState (t ++ b ∷ []) bytes k (next-IsState t b k absent g) in
      (
        r,
        step_bytes_step s b bytes k l e ∙ q,
        subst (λ (x : Bytes). IsState p x r) (append_assoc t (b ∷ []) bytes) i,
      )

  pub start-IsState : IsState p [] 0
  start-IsState = inr (
    some_pattern,
    nothing p some_pattern,
    record { match = zero-IsMatch p []; longest = λ j m. omega (arith, m.fits) },
  )
    where
      nothing : (q : Bytes) → 0 < length q → occurs q [] ≡ false
      nothing [] l = absurd (omega arith)
      nothing (a ∷ q) l = refl

pub IsState-accept : (p t : Bytes) (k : State) → IsState p t k → (k == length p) ≡ occurs p t
IsState-accept p t k (inl (e, there)) = ground (arith, e, there)
IsState-accept p t k (inr (l, absent, _)) = ground (arith, l, absent)

-- For a nonempty pattern of at most 255 bytes, the byte automaton that kmp_failure prepares reads
-- any text without a panic and ends in the accepting state exactly if the text contains the
-- pattern.
pub step_bytes-occurs :
    (p text : Bytes)
    → 0 < length p
    → length p ≤ max_pattern_len
    → (fail : List State) × (kmp_failure p ≡ some fail)
      × ((k : State) × (step_bytes p fail 0 text ≡ some k) × ((k == length p) ≡ occurs p text))
step_bytes-occurs p text l short =
    let (fail, e, a) = kmp_failure-AreFallbacks p l short in
    let (k, q, i) =
      step_bytes-IsState p l short fail a [] text 0 (start-IsState p l short fail a) in
    (fail, e, (k, q, IsState-accept p text k i))
