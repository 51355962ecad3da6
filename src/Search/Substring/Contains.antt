-- ===== src/Search/Substring/Contains.antt =====
-- search/substring/dfa.rs, `row_contains`: with a table of the byte automaton it is exact, for rows
-- of any tokenization.
use onpair.Common.{
  ℕ, ◌≤◌, ◌<◌, ◌≡◌, ◌∙◌, refl, sym, ap, arith, true, false, some, List, [], ◌∷◌, ◌++◌, Bytes,
  length, ◌==◌, inl, inr,
}
use mathlib.Core.List.{append_assoc, append-nil}
use onpair.Core.Types.{Token}
use onpair.Dictionary.View.{Tokens, tok}
use onpair.Search.Tokenize.Greedy.{decode}
use onpair.Decoding.Loops.{InRange}
use onpair.Search.Automaton.{State, max_pattern_len, step_bytes}
use onpair.Search.Automaton.Fallback.{AreFallbacks}
use onpair.Search.Automaton.Occurs.{occurs, occurs-append}
use onpair.Search.Automaton.Steps.{IsState, step_bytes-IsState, start-IsState, IsState-accept}
use onpair.Search.Substring.{ContainsDfa, next, row_loop, row_contains}

-- The automaton has the transitions of the byte automaton over the bytes of each token.
pub record IsTable (p : Bytes) (fail : List State) (toks : Tokens) (dfa : ContainsDfa)
    : Type 0 where
  pub accepts : dfa.accept ≡ length p
  pub step :
      (s : State) (t : Token)
      → s < length p
      → t < length toks
      → next dfa s t ≡ step_bytes p fail s (tok toks t)

module _ (dfa : ContainsDfa) (s : State) (c : Token) (codes : List Token) where
  row_loop_accept : s ≡ dfa.accept → row_loop dfa s (c ∷ codes) ≡ some true
  unfolding row_loop
  row_loop_accept e =
      let eq : (s == dfa.accept) ≡ true = ground (arith, e) in rw (eq, row_loop) refl

  row_loop_step :
      (k : State)
      → s < dfa.accept
      → next dfa s c ≡ some k
      → row_loop dfa s (c ∷ codes) ≡ row_loop dfa k codes
  unfolding row_loop
  row_loop_step k l e =
      let ne : (s == dfa.accept) ≡ false = ground (arith, l) in rw (ne, e, row_loop) refl

module _ (p : Bytes) (some_pattern : 0 < length p) (short : length p ≤ max_pattern_len)
    (fail : List State) (fallbacks : AreFallbacks p (length p) fail) (toks : Tokens)
    (dfa : ContainsDfa) (table : IsTable p fail toks dfa) where
  row_loop-occurs :
      (codes : List Token) (t : Bytes) (s : State)
      → InRange toks codes
      → IsState p t s
      → row_loop dfa s codes ≡ some (occurs p (t ++ decode toks codes))
  unfolding row_loop
  row_loop-occurs [] t s i h = ap some (
      ap (λ (k : ℕ). s == k) table.accepts
      ∙ IsState-accept p t s h
      ∙ ap (occurs p) (sym (append-nil t)))
  row_loop-occurs (c ∷ codes) t s i (inl (e, there)) =
      row_loop_accept dfa s c codes (e ∙ sym table.accepts)
      ∙ ap some (sym (occurs-append p t (decode toks (c ∷ codes)) there))
  row_loop-occurs (c ∷ codes) t s (l, i) (inr (less, absent, h)) =
      let (k, e, g) =
        step_bytes-IsState p some_pattern short fail fallbacks t (tok toks c) s
          (inr (less, absent, h)) in
      row_loop_step dfa s c codes k (omega (arith, table.accepts)) (table.step s c less l ∙ e)
      ∙ row_loop-occurs codes (t ++ tok toks c) k i g
      ∙ ap (λ (x : Bytes). some (occurs p x)) (append_assoc t (tok toks c) (decode toks codes))

  -- If the token automaton has the transitions of the byte automaton of a nonempty pattern of at
  -- most 255 bytes, row_contains does not panic on codes in range, of any tokenization, and tells
  -- whether the decoded row contains the pattern.
  pub row_contains-occurs :
      (codes : List Token)
      → InRange toks codes
      → row_contains codes dfa ≡ some (occurs p (decode toks codes))
  unfolding row_contains
  row_contains-occurs codes i =
      row_loop-occurs codes [] 0 i (start-IsState p some_pattern short fail fallbacks)
