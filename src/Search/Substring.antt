-- ===== src/Search/Substring.antt =====
-- search/substring/dfa.rs: the token automaton of a pattern, as rows are tested with it.
pub mod Contains
use onpair.Common.{
  ℕ, zero, suc, ◌+◌, ◌-◌, Bool, true, false, ◌&&◌, Option, some, none, List, [], ◌∷◌, ltb, leb,
  ◌==◌, if◌then◌else◌, length, get_elem?, take, drop, ◌>>=◌,
}
use mathlib.Core.Option
use onpair.Core.Types.{Token, TokenRange}
use onpair.Search.Automaton.{State}

pub record SparseTransition : Type 0 where
  pub range : TokenRange
  pub target : State

pub record ContainsDfa : Type 0 where
  pub accept : State
  pub base : List State
  pub sparse : List SparseTransition
  pub offsets : List ℕ

-- `for tr in &self.sparse[lo..hi]`: `none` where the loop ends without an answer.
unfoldable pub find_transition : Token → List SparseTransition → Option State
find_transition token [] = none
find_transition token (tr ∷ transitions) =
    if ltb token tr.range.begin
    then none
    else if leb token tr.range.last
    then some tr.target
    else find_transition token transitions

module _ (dfa : ContainsDfa) where
  -- `&self.sparse[lo..hi]`: `none` is the panic.
  abbrev pub transitions : State → Option (List SparseTransition)
  transitions state = do
    lo ← get_elem? dfa.offsets state
    hi ← get_elem? dfa.offsets (state + 1)
    if leb lo hi && leb hi (length dfa.sparse)
        then some (take (hi - lo) (drop lo dfa.sparse))
        else none

  -- `self.base.get(token).copied().unwrap_or(0)`.
  abbrev pub base_state : Token → State
  base_state token = Option.get_or (get_elem? dfa.base token) 0

  unfoldable pub next : State → Token → Option State
  next state token = elim (ltb 0 state) [
    | false ↦ some (base_state token)
    | true ↦ do
      trs ← transitions state
      some (Option.get_or (find_transition token trs) (base_state token))
  ]

  -- `for &code in codes`, and the test behind it.
  unfoldable pub row_loop : State → List Token → Option Bool
  row_loop state [] = some (state == dfa.accept)
  row_loop state (code ∷ codes) = elim (state == dfa.accept) [
    | true ↦ some true
    | false ↦ elim (next state code) [ none ↦ none | some state' ↦ row_loop state' codes ]
  ]

unfoldable pub row_contains : List Token → ContainsDfa → Option Bool
row_contains codes dfa = row_loop dfa 0 codes
