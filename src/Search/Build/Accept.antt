-- ===== src/Search/Build/Accept.antt =====
-- search/substring/dfa.rs, `Build::traverse` where the state accepts: the runs of the tokens whose
-- base transition does not.
use onpair.Common.{
  ℕ, zero, suc, ◌+◌, ◌-◌, ◌≤◌, ◌<◌, ◌≡◌, ◌∙◌, ap, subst, refl, Bool, true, false, not, some, arith,
  List, length, get_or, get_elem?-eq-get_or, leb, ◌==◌, dec_lt, le→leb, lt→leb, Bool-cases, inl,
  inr, if◌then◌else◌,
}
use onpair.Core.Types.{Token, new}
use onpair.Search.Automaton.{State}
use onpair.Search.Substring.{SparseTransition}
use onpair.Search.Build.{emit, advance, differs, accept_loop}
use onpair.Search.Build.Grown.{base_of, Grown, Grown-skip, Grown-emit}
use onpair.Search.Build.Advance.{advance-Stops, Stops-later}

module _ (base : List State) (want : Token → State) (pre : List SparseTransition) (last : Token)
    (exit : State) (inside : last < length base) where
  run_test : ℕ → Bool
  run_test k = if leb k last then not (get_or base k 0 == exit) else false

  differs-run_test : (k : ℕ) → k ≤ last + 1 → differs base last exit k ≡ some (run_test k)
  unfolding run_test
  differs-run_test k l = elim (dec_lt last k) [
    | yes h ↦ rw (lt→leb k last h) refl
    | no h ↦ rw (le→leb k last (omega arith), get_elem?-eq-get_or base k 0 (omega arith)) refl
  ]

  run_test_over : run_test (last + 1) ≡ false
  unfolding run_test
  run_test_over = rw (lt→leb (last + 1) last (omega arith)) refl

  run_test_starts : (i : ℕ) → i ≤ last → (get_or base i 0 == exit) ≡ false → run_test i ≡ true
  unfolding run_test
  run_test_starts i l ne = rw (le→leb i last l, ne) refl

  module _ (fuel i : ℕ) (sparse : List SparseTransition) (l : i ≤ last) where
    accept_skip :
        get_or base i 0 ≡ exit
        → accept_loop base (length pre) (suc fuel) last exit i sparse
          ≡ accept_loop base (length pre) fuel last exit (i + 1) sparse
    unfolding accept_loop
    accept_skip e =
        let eq : (get_or base i 0 == exit) ≡ true = ground (arith, e) in
        rw (le→leb i last l, get_elem?-eq-get_or base i 0 (omega arith), eq, accept_loop) refl

    accept_run :
        (end : ℕ)
        → (get_or base i 0 == exit) ≡ false
        → advance (differs base last exit) (last + 2 - i) i ≡ some end
        → accept_loop base (length pre) (suc fuel) last exit i sparse
          ≡ accept_loop base
              (length pre)
              fuel
              last
              exit
              end
              (emit (length pre) sparse (new i (end - 1)) exit)
    unfolding accept_loop
    accept_run end ne e =
        rw (le→leb i last l, get_elem?-eq-get_or base i 0 (omega arith), ne, e, accept_loop) refl

  accept_end :
      (fuel i : ℕ) (sparse : List SparseTransition)
      → last < i
      → accept_loop base (length pre) (suc fuel) last exit i sparse ≡ some sparse
  unfolding accept_loop
  accept_end fuel i sparse l = rw (lt→leb i last l, accept_loop) refl

  -- All tokens are to go to `exit`.
  pub accept_loop-Grown :
      (fuel i : ℕ) (sparse : List SparseTransition)
      → last + 1 < fuel + i
      → i ≤ last + 1
      → ((t : Token) → i ≤ t → t ≤ last → exit ≡ want t)
      → Grown (base_of base) want pre i sparse
      → (s : List SparseTransition) × (accept_loop base (length pre) fuel last exit i sparse
          ≡ some s)
        × Grown (base_of base) want pre (last + 1) s
  accept_loop-Grown zero i sparse f l h g = absurd (omega arith)
  accept_loop-Grown (suc fuel) i sparse f l h g = elim (dec_lt last i) [
    | yes over ↦ (
      sparse,
      accept_end fuel i sparse over,
      subst (λ (n : ℕ). Grown (base_of base) want pre n sparse) (omega arith) g,
    )
    | no le ↦ elim (Bool-cases (get_or base i 0 == exit)) [
      | inl e ↦
          let same : get_or base i 0 ≡ exit = ground (arith, e) in
          let g' = Grown-skip (base_of base) want pre sparse i g (i + 1) (omega arith) (λ t a b.
            let q : t ≡ i = omega arith in ap (base_of base) q ∙ same ∙ h t a (omega arith)) in
          let (s, r, done) =
            accept_loop-Grown fuel (i + 1) sparse (omega arith) (omega arith)
              (λ t a b. h t (omega arith) b) g' in
          (s, accept_skip fuel i sparse (omega arith) same ∙ r, done)
      | inr ne ↦
          let (end, e, u, stops) =
            advance-Stops (differs base last exit) run_test 0 (last + 1) (λ k b. differs-run_test k)
              run_test_over (last + 2 - i) i (omega arith) l (omega arith) in
          let later = Stops-later run_test i end stops (run_test_starts i (omega arith) ne) in
          let g' =
            Grown-emit (base_of base) want pre sparse i g (new i (end - 1)) exit refl (omega arith)
              (λ t a b. h t a (omega arith)) in
          let (s, r, done) =
            accept_loop-Grown fuel end (emit (length pre) sparse (new i (end - 1)) exit)
              (omega arith) u (λ t a b. h t (omega arith) b)
              (subst
                (λ (n : ℕ).
                  Grown (base_of base) want pre n (emit (length pre) sparse (new i (end - 1)) exit))
                (omega arith) g') in
          (s, accept_run fuel i sparse (omega arith) end ne e ∙ r, done)
    ]
  ]
