-- ===== src/Search/Build/Table.antt =====
-- search/substring/dfa.rs, `Build::sparse_pass`: the exceptions of all states, and their offsets.
use onpair.Common.{
  ℕ, zero, suc, ◌+◌, ◌*◌, ◌%◌, ◌≤◌, ◌<◌, ◌≡◌, ◌∙◌, ap, sym, subst, refl, some, arith, List, ◌++◌,
  Bytes, length, get_or, set, length-set, get_or-set_self, get_or-set_ne, length-append, ℕ_discrete,
}
use onpair.Core.Types.{u32_mod}
use onpair.Dictionary.View.{DictionaryView, Tokens, Represents, IsSorted}
use onpair.Search.Automaton.{State}
use onpair.Search.Substring.{SparseTransition}
use onpair.Search.Build.{Exceptions, chain, sort, dedup, relevant_loop, state_loop}
use onpair.Search.Build.Grown.{base_of, Grown}
use onpair.Search.Build.Base.{IsPrepared}
use onpair.Search.Build.Depth.{reached_by}
use onpair.Search.Build.Visit.{relevant-Grown}
use onpair.Search.Build.Slices.{IsSlice, IsSlice-at, append-IsSlice, last-IsSlice}

-- The states before `j` have their slices, and the slice of `j` begins at the end.
pub record IsTabled (p : Bytes) (fail : List State) (toks : Tokens) (base : List State) (j : State)
    (sparse : List SparseTransition) (offsets : List ℕ) : Type 0 where
  pub size : length offsets ≡ length p + 1
  pub bound : length sparse ≤ j * 0x1_0000
  pub here : get_or offsets j 0 ≡ length sparse
  pub slices :
      (s : State)
      → 0 < s
      → s < j
      → IsSlice
          (base_of base)
          (reached_by p fail toks s)
          (length toks)
          sparse
          (get_or offsets s 0)
          (get_or offsets (s + 1) 0)

module _ (v : DictionaryView) (toks : Tokens) (rep : Represents v toks) (sorted : IsSorted toks)
    (p : Bytes) (fail base : List State) (prep : IsPrepared p fail toks base) where
  -- The next state.
  next-IsTabled :
      (j : State) (sparse sparse' : List SparseTransition) (offsets : List ℕ)
      → j < length p
      → IsTabled p fail toks base j sparse offsets
      → Grown (base_of base) (reached_by p fail toks j) sparse (length toks) sparse'
      → IsTabled p fail toks base (j + 1) sparse' (set offsets (j + 1) (length sparse' % u32_mod))
  next-IsTabled j sparse sparse' offsets l h g =
      let grows : length sparse' ≡ length sparse + length g.cur =
        ap length g.split ∙ length-append sparse g.cur in
      let bound : length sparse' ≤ (j + 1) * 0x1_0000 =
        omega (arith, h.bound, g.upto.size, rep.addressable) in
      let small : length sparse' % u32_mod ≡ length sparse' = omega (arith, prep.short) in
      let room : j + 1 < length offsets = omega (arith, h.size) in
      let offsets' = set offsets (j + 1) (length sparse' % u32_mod) in
      let end : get_or offsets' (j + 1) 0 ≡ length sparse' =
        get_or-set_self offsets (j + 1) (length sparse' % u32_mod) 0 room ∙ small in
      let old : (i : ℕ) → i ≤ j → get_or offsets' i 0 ≡ get_or offsets i 0 =
        λ i k. get_or-set_ne offsets (j + 1) i (length sparse' % u32_mod) 0 (λ e. omega arith) in
      record {
        size = length-set offsets (j + 1) (length sparse' % u32_mod) ∙ h.size;
        bound = bound;
        here = end;
        slices = λ s a b. elim (ℕ_discrete s j) [
          | yes e ↦
              let new =
                IsSlice-at (base_of base) (reached_by p fail toks j) (length toks) (sparse ++ g.cur)
                  _ _ (get_or offsets' j 0) (get_or offsets' (j + 1) 0)
                  (old j (omega arith) ∙ h.here) (end ∙ ap length g.split)
                  (last-IsSlice (base_of base) (reached_by p fail toks j) (length toks) sparse g.cur
                    g.upto) in
              subst
                (λ (k : State).
                  IsSlice (base_of base) (reached_by p fail toks k) (length toks) sparse'
                    (get_or offsets' k 0) (get_or offsets' (k + 1) 0))
                (sym e)
                (subst
                  (λ (x : List SparseTransition).
                    IsSlice (base_of base) (reached_by p fail toks j) (length toks) x
                      (get_or offsets' j 0) (get_or offsets' (j + 1) 0))
                  (sym g.split) new)
          | no ne ↦
              let kept =
                IsSlice-at (base_of base) (reached_by p fail toks s) (length toks) (sparse ++ g.cur)
                  _ _ (get_or offsets' s 0) (get_or offsets' (s + 1) 0) (old s (omega arith))
                  (old (s + 1) (omega arith))
                  (append-IsSlice (base_of base) (reached_by p fail toks s) (length toks) sparse
                    g.cur _ _ (h.slices s a (omega arith))) in
              subst
                (λ (x : List SparseTransition).
                  IsSlice (base_of base) (reached_by p fail toks s) (length toks) x
                    (get_or offsets' s 0) (get_or offsets' (s + 1) 0))
                (sym g.split) kept
        ];
      }

  module _ (left : ℕ) (j : State) (sparse : List SparseTransition) (offsets : List ℕ) where
    state_loop_next :
        (bytes : Bytes) (sparse' : List SparseTransition)
        → chain p fail (j + 1) j ≡ some bytes
        → relevant_loop v p fail base (length sparse) j (dedup (sort bytes)) sparse ≡ some sparse'
        → state_loop v p fail base (suc left) j sparse offsets
          ≡ state_loop v p fail base left (j + 1) sparse' (set offsets j (length sparse % u32_mod))
    unfolding state_loop
    state_loop_next bytes sparse' e q = rw (e, q, state_loop) refl

  -- The states from `j` on.
  pub state_loop-IsTabled :
      (left : ℕ) (j : State) (sparse : List SparseTransition) (offsets : List ℕ)
      → j + left ≡ length p
      → 0 < j
      → IsTabled p fail toks base j sparse (set offsets j (length sparse % u32_mod))
      → (e : Exceptions) × (state_loop v p fail base left j sparse offsets ≡ some e)
        × IsTabled p fail toks base (length p) e.sparse e.offsets
  unfolding state_loop
  state_loop-IsTabled zero j sparse offsets e l h =
      let last : j ≡ length p = omega arith in
      (
        record { sparse = sparse; offsets = set offsets (length p) (length sparse % u32_mod) },
        refl,
        subst
            (λ (k : State).
              IsTabled p fail toks base k sparse (set offsets k (length sparse % u32_mod)))
            last h,
      )
  state_loop-IsTabled (suc left) j sparse offsets e l h =
      let (bytes, q, (sparse', r, g)) =
        relevant-Grown v toks rep sorted p fail base prep j (omega arith) sparse l in
      let (x, s, done) =
        state_loop-IsTabled left (j + 1) sparse' (set offsets j (length sparse % u32_mod))
          (omega arith) (omega arith)
          (next-IsTabled j sparse sparse' (set offsets j (length sparse % u32_mod)) (omega arith) h
            g) in
      (x, state_loop_next left j sparse offsets bytes sparse' q r ∙ s, done)
