-- ===== src/Search/Build/Slices.antt =====
-- search/substring/dfa.rs, `sparse` and `offsets`: the slice of `sparse` that holds the exceptions
-- of a state.
use onpair.Common.{
  ℕ, zero, suc, ◌-◌, ◌≤◌, ◌≡◌, ◌∙◌, ap, sym, subst, refl, arith, List, [], ◌∷◌, ◌++◌, length, take,
  drop, take-append_le, take-length, drop-append, length-append, length-drop,
}
use onpair.Core.Types.{Token}
use onpair.Search.Automaton.{State}
use onpair.Search.Substring.{SparseTransition}
use onpair.Search.Build.Grown.{IsUpTo}

drop-append_le {ℓ} :
    {A : Type ℓ} (n : ℕ) (xs ys : List A) → n ≤ length xs → drop n (xs ++ ys) ≡ drop n xs ++ ys
drop-append_le zero xs ys h = refl
drop-append_le (suc n) [] ys h = elim h [ ]
drop-append_le (suc n) (x ∷ xs) ys h = drop-append_le n xs ys (omega arith)

module _ (base want : Token → State) (n : ℕ) where
  -- The slice holds the exceptions of all `n` tokens.
  pub record IsSlice (sparse : List SparseTransition) (lo hi : ℕ) : Type 0 where
    pub ordered : lo ≤ hi
    pub inside : hi ≤ length sparse
    pub upto : IsUpTo base want n (take (hi - lo) (drop lo sparse))

  pub IsSlice-at :
      (sparse : List SparseTransition) (lo hi lo' hi' : ℕ)
      → lo' ≡ lo
      → hi' ≡ hi
      → IsSlice sparse lo hi
      → IsSlice sparse lo' hi'
  IsSlice-at sparse lo hi lo' hi' e q h =
      subst (λ (x : ℕ). IsSlice sparse x hi') (sym e) (subst (IsSlice sparse lo) (sym q) h)

  -- Later exceptions leave it.
  pub append-IsSlice :
      (sparse cur : List SparseTransition) (lo hi : ℕ)
      → IsSlice sparse lo hi
      → IsSlice (sparse ++ cur) lo hi
  append-IsSlice sparse cur lo hi h = record {
    ordered = h.ordered;
    inside = omega (arith, h.inside, length-append sparse cur);
    upto =
        let room : hi - lo ≤ length (drop lo sparse) =
          omega (arith, h.ordered, h.inside, length-drop lo sparse) in
        let same : take (hi - lo) (drop lo (sparse ++ cur)) ≡ take (hi - lo) (drop lo sparse) =
          ap (take (hi - lo)) (drop-append_le lo sparse cur (omega (arith, h.ordered, h.inside)))
          ∙ take-append_le (hi - lo) (drop lo sparse) cur room in
        subst (IsUpTo base want n) (sym same) h.upto;
  }

  -- The exceptions behind the others are a slice.
  pub last-IsSlice :
      (sparse cur : List SparseTransition)
      → IsUpTo base want n cur
      → IsSlice (sparse ++ cur) (length sparse) (length (sparse ++ cur))
  last-IsSlice sparse cur h =
      let size = length-append sparse cur in
      let rest : length (sparse ++ cur) - length sparse ≡ length cur = omega arith in
      let same : take (length (sparse ++ cur) - length sparse)
            (drop (length sparse) (sparse ++ cur))
          ≡ cur =
        ap (λ (k : ℕ). take k (drop (length sparse) (sparse ++ cur))) rest
        ∙ ap (take (length cur)) (drop-append sparse cur)
        ∙ take-length cur in
      record {
        ordered = omega arith;
        inside = omega arith;
        upto = subst (IsUpTo base want n) (sym same) h;
      }
