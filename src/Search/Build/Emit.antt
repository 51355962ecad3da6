-- ===== src/Search/Build/Emit.antt =====
-- search/substring/dfa.rs, `Build::emit`: an entry behind the others, merged or not, gives its
-- tokens their target and leaves the others.
use onpair.Common.{
  ℕ, suc, ◌+◌, ◌≤◌, ◌<◌, ◌≡◌, ◌∙◌, refl, ap, arith, some, none, List, [], ◌∷◌, ◌++◌, length, ltb,
  leb, ◌==◌, Bool-cases, Option-cases, sym, subst, if◌then◌else◌, get_elem?, ◌-◌, ◌&&◌, inl, inr,
}
use onpair.Core.Types.{Token, TokenRange}
use onpair.Search.Automaton.{State}
use onpair.Search.Substring.{SparseTransition, find_transition}
use onpair.Search.Build.{emit}

-- The ranges are not empty, and end before the token `c`.
abbrev pub AreBefore : Token → List SparseTransition → Type 0
AreBefore c [] = Unit
AreBefore c (tr ∷ trs) = (tr.range.begin ≤ tr.range.last) × (tr.range.last < c) × AreBefore c trs

pub AreBefore-mono :
    (c d : Token) (trs : List SparseTransition) → c ≤ d → AreBefore c trs → AreBefore d trs
AreBefore-mono c d [] l h = tt
AreBefore-mono c d (tr ∷ trs) l (ordered, ends, h) =
    (ordered, omega arith, AreBefore-mono c d trs l h)

pub find_transition-after :
    (c t : Token) (trs : List SparseTransition)
    → AreBefore c trs
    → c ≤ t
    → find_transition t trs ≡ none
unfolding find_transition
find_transition-after c t [] h l = refl
find_transition-after c t (tr ∷ trs) (ordered, ends, h) l =
    ground (arith, find_transition-after c t trs h l)

-- Only the last entry is looked at.
emit-cons :
    (n : ℕ) (x y : SparseTransition) (trs : List SparseTransition) (r : TokenRange) (target : State)
    → emit (suc n) (x ∷ y ∷ trs) r target ≡ x ∷ emit n (y ∷ trs) r target
unfolding emit
emit-cons n x y trs r target =
    let outer : suc (suc (length trs)) - 1 ≡ suc (length trs) = omega arith in
    let inner : suc (length trs) - 1 ≡ length trs = omega arith in
    let same : ltb (suc n) (suc (suc (length trs))) ≡ ltb n (suc (length trs)) = ground arith in
    elim (Option-cases (get_elem? (y ∷ trs) (length trs))) [
      | inl e ↦ rw (emit, outer, inner, e) refl
      | inr (last, e) ↦ rw (emit, outer, inner, e, outer, inner) (ground (arith, same))
    ]

emit-later :
    (x y : SparseTransition) (trs : List SparseTransition) (r : TokenRange) (target : State)
    → emit 0 (x ∷ y ∷ trs) r target ≡ x ∷ emit 0 (y ∷ trs) r target
unfolding emit
emit-later x y trs r target =
    let outer : suc (suc (length trs)) - 1 ≡ suc (length trs) = omega arith in
    let inner : suc (length trs) - 1 ≡ length trs = omega arith in
    let same : ltb 0 (suc (suc (length trs))) ≡ ltb 0 (suc (length trs)) = ground arith in
    elim (Option-cases (get_elem? (y ∷ trs) (length trs))) [
      | inl e ↦ rw (emit, outer, inner, e) refl
      | inr (last, e) ↦ rw (emit, outer, inner, e, outer, inner) (ground (arith, same))
    ]

emit-first :
    (n : ℕ) (x : SparseTransition) (r : TokenRange) (target : State)
    → emit (suc n) (x ∷ []) r target ≡ x ∷ emit n [] r target
unfolding emit
emit-first n x r target = ground arith

-- Entries before `range_start` are not touched.
pub emit-append :
    (pre cur : List SparseTransition) (r : TokenRange) (target : State)
    → emit (length pre) (pre ++ cur) r target ≡ pre ++ emit 0 cur r target
emit-append [] cur r target = refl
emit-append (x ∷ []) [] r target = emit-first 0 x r target
emit-append (x ∷ []) (y ∷ cur) r target = emit-cons 0 x y cur r target
emit-append (x ∷ y ∷ pre) cur r target =
    emit-cons (length (y ∷ pre)) x y (pre ++ cur) r target
    ∙ ap (λ (t : List SparseTransition). x ∷ t) (emit-append (y ∷ pre) cur r target)

pub emit-AreBefore :
    (c : Token) (trs : List SparseTransition) (r : TokenRange) (target : State)
    → AreBefore c trs
    → c ≤ r.begin
    → r.begin ≤ r.last
    → AreBefore (r.last + 1) (emit 0 trs r target)
unfolding emit
emit-AreBefore c [] r target h l k = (k, omega arith, tt)
emit-AreBefore c (x ∷ []) r target (ordered, ends, h) l k =
    elim (Bool-cases ((x.target == target) && (x.range.last + 1 == r.begin))) [
      | inl e ↦ rw (e) (omega (arith, ordered), omega arith, tt)
      | inr e ↦ rw (e) (ordered, omega arith, (k, omega arith, tt))
    ]
emit-AreBefore c (x ∷ y ∷ trs) r target (ordered, ends, h) l k =
    let ih = emit-AreBefore c (y ∷ trs) r target h l k in
    subst (AreBefore (r.last + 1)) (sym (emit-later x y trs r target)) (ordered, omega arith, ih)

pub length-emit :
    (trs : List SparseTransition) (r : TokenRange) (target : State)
    → length (emit 0 trs r target) ≤ length trs + 1
unfolding emit
length-emit [] r target = omega arith
length-emit (x ∷ []) r target =
    elim (Bool-cases ((x.target == target) && (x.range.last + 1 == r.begin))) [
      | inl e ↦ rw (e) (omega arith)
      | inr e ↦ rw (e) (omega arith)
    ]
length-emit (x ∷ y ∷ trs) r target = omega (
  arith,
  length-emit (y ∷ trs) r target,
  ap (λ (t : List SparseTransition). length t) (emit-later x y trs r target),
)

-- The search in the result.
module _ (c t : Token) (r : TokenRange) (target : State) where
  found_single :
      (x : SparseTransition)
      → AreBefore c (x ∷ [])
      → c ≤ r.begin
      → r.begin ≤ r.last
      → find_transition t (emit 0 (x ∷ []) r target) ≡ (
          if ltb t r.begin
          then find_transition t (x ∷ [])
          else if leb t r.last
          then some target
          else none)
  unfolding emit find_transition
  found_single x (ordered, ends, h) l k =
      elim (Bool-cases ((x.target == target) && (x.range.last + 1 == r.begin))) [
        | inl e ↦ rw (e, find_transition) (ground arith)
        | inr e ↦ rw (e, find_transition) (ground arith)
      ]

  pub find_transition-emit :
      (trs : List SparseTransition)
      → AreBefore c trs
      → c ≤ r.begin
      → r.begin ≤ r.last
      → find_transition t (emit 0 trs r target) ≡ (
          if ltb t r.begin
          then find_transition t trs
          else if leb t r.last
          then some target
          else none)
  unfolding emit find_transition
  find_transition-emit [] h l k = ground (arith, k)
  find_transition-emit (x ∷ []) h l k = found_single x h l k
  find_transition-emit (x ∷ y ∷ trs) (ordered, ends, h) l k =
      let ih = find_transition-emit (y ∷ trs) h l k in
      rw (emit-later x y trs r target, find_transition) (ground (arith, ih))
