-- ===== src/Search/Build/Grown.antt =====
-- search/substring/dfa.rs, `sparse`: what has been recorded of a state when the passes have reached
-- a token.
use onpair.Common.{
  ◌+◌, ◌≤◌, ◌<◌, ◌≡◌, ◌∙◌, sym, ap, arith, List, [], ◌++◌, length, get_or, dec_lt, lt→ltb,
}
use mathlib.Core.List.{append-nil}
use mathlib.Core.Option
use onpair.Core.Types.{Token, TokenRange}
use onpair.Search.Automaton.{State}
use onpair.Search.Substring.{SparseTransition, find_transition}
use onpair.Search.Build.{emit}
use onpair.Search.Build.Emit.{
  AreBefore, AreBefore-mono, find_transition-after, emit-append, emit-AreBefore, length-emit,
  find_transition-emit,
}

abbrev pub base_of : List State → Token → State
base_of base t = get_or base t 0

module _ (base want : Token → State) where
  -- With the exceptions `cur`, the tokens before `c` have the transitions they are to have.
  pub record IsUpTo (c : Token) (cur : List SparseTransition) : Type 0 where
    pub size : length cur ≤ c
    pub before : AreBefore c cur
    pub agrees : (t : Token) → t < c → Option.get_or (find_transition t cur) (base t) ≡ want t

  -- `sparse` is `pre` with the exceptions of the state behind it.
  pub record Grown (pre : List SparseTransition) (c : Token) (sparse : List SparseTransition)
      : Type 0 where
    pub cur : List SparseTransition
    pub split : sparse ≡ pre ++ cur
    pub upto : IsUpTo c cur

  pub start-Grown : (pre : List SparseTransition) → Grown pre 0 pre
  start-Grown pre = record {
    cur = [];
    split = sym (append-nil pre);
    upto = record { size = omega arith; before = tt; agrees = λ t l. absurd (omega arith) };
  }

  module _ (pre sparse : List SparseTransition) (c : Token) (g : Grown pre c sparse) where
    -- Tokens whose transition is that from state 0 need no exception.
    pub Grown-skip :
        (d : Token) → c ≤ d → ((t : Token) → c ≤ t → t < d → base t ≡ want t) → Grown pre d sparse
    Grown-skip d l f = record {
      cur = g.cur;
      split = g.split;
      upto = record {
        size = omega (arith, g.upto.size, l);
        before = AreBefore-mono c d g.cur l g.upto.before;
        agrees = λ t k. elim (dec_lt t c) [
          | yes b ↦ g.upto.agrees t b
          | no b ↦
              ap (λ o. Option.get_or o (base t))
                (find_transition-after c t g.cur g.upto.before (omega arith))
              ∙ f t (omega arith) k
        ];
      };
    }

    pub Grown-emit :
        (r : TokenRange) (target : State)
        → r.begin ≡ c
        → r.begin ≤ r.last
        → ((t : Token) → r.begin ≤ t → t ≤ r.last → target ≡ want t)
        → Grown pre (r.last + 1) (emit (length pre) sparse r target)
    Grown-emit r target e l f = record {
      cur = emit 0 g.cur r target;
      split =
          ap (λ (s : List SparseTransition). emit (length pre) s r target) g.split
          ∙ emit-append pre g.cur r target;
      upto = record {
        size = omega (arith, length-emit g.cur r target, g.upto.size);
        before = emit-AreBefore c g.cur r target g.upto.before (omega arith) l;
        agrees = λ t k.
            ap (λ o. Option.get_or o (base t))
              (find_transition-emit c t r target g.cur g.upto.before (omega arith) l)
            ∙ elim (dec_lt t r.begin) [
              | yes b ↦ let old = g.upto.agrees t (omega arith) in rw (lt→ltb t r.begin b) old
              | no b ↦ let goal = f t (omega arith) (omega arith) in ground (arith, goal)
            ];
      };
    }
