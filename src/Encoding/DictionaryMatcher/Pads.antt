-- ===== src/Encoding/DictionaryMatcher/Pads.antt =====
-- encoding/dictionary_matcher.rs, `from_dictionary`: the record of the pads.
use onpair.Common.{
  ℕ, zero, suc, ◌^◌, ◌≤◌, ◌<◌, ◌≡◌, ◌∙◌, inl, inr, refl, sym, ap, true, false, false≢true, some,
  arith, List, [], ◌∷◌, Bytes, length, replicate, is_prefix, is_prefix_trans, Bool-cases,
}
use onpair.Core.Types.{Token}
use onpair.Dictionary.View.{DictionaryView, Tokens, tok, Represents, IsSorted, AreBytes}
use onpair.Encoding.DictionaryMatcher.{from_be_bytes, buffer, all_max, retain_max}
use onpair.Encoding.DictionaryMatcher.Chains.{
  IsNested, IsStack, IsNested-IsStack, Holds, IsPrefixStack,
}
use onpair.Encoding.DictionaryMatcher.Keys.{from_be_bytes_lt, length-buffer, buffer-AreBytes}
use onpair.Encoding.DictionaryMatcher.Built.{token_key}
use onpair.Encoding.DictionaryMatcher.Covering.{
  max_bytes, max_bytes-AreBytes, IsPads, prefix_of_found,
}

all_max-is_prefix :
    (n : ℕ) (p : Bytes) → length p ≤ n → all_max p ≡ true → is_prefix p (replicate n 0xFF) ≡ true
all_max-is_prefix n [] l h = refl
all_max-is_prefix zero (b ∷ p) l h = absurd (omega arith)
all_max-is_prefix (suc n) (b ∷ p) l h =
    let rest = all_max-is_prefix n p (omega arith) (ground (arith, h)) in ground (arith, h, rest)

is_prefix-all_max : (n : ℕ) (p : Bytes) → is_prefix p (replicate n 0xFF) ≡ true → all_max p ≡ true
is_prefix-all_max n [] h = refl
is_prefix-all_max zero (b ∷ p) h = absurd (ground arith)
is_prefix-all_max (suc n) (b ∷ p) h =
    let rest = is_prefix-all_max n p (ground (arith, h)) in ground (arith, h, rest)

-- A prefix of a prefix.
IsNested-wider :
    (toks : Tokens) (v w : Bytes) (stack : List Token)
    → is_prefix v w ≡ true
    → length v < length w
    → IsNested toks v stack
    → IsNested toks w stack
IsNested-wider toks v w [] p l n = tt
IsNested-wider toks v w (t ∷ below) p l (lt, q, s, n) =
    (lt, is_prefix_trans (tok toks t) v w q p, omega arith, n)

-- What `retain` keeps.
abbrev IsRetained : Tokens → List Token → List Token → Type 0
IsRetained toks stack kept =
    ((u : Token) → Holds u kept → Holds u stack × (all_max (tok toks u) ≡ true))
    × ((u : Token) → Holds u stack → all_max (tok toks u) ≡ true → Holds u kept)

module _ (toks : Tokens) (v : DictionaryView) (r : Represents v toks) where
  IsRetained-next :
      (t : Token) (below kept : List Token)
      → all_max (tok toks t) ≡ true
      → IsRetained toks below kept
      → IsRetained toks (t ∷ below) (t ∷ kept)
  IsRetained-next t below kept e (f, g) = (from, to)
    where
      from : (u : Token) → Holds u (t ∷ kept) → Holds u (t ∷ below) × (all_max (tok toks u) ≡ true)
      from u (inl q) = (inl q, ap (λ (x : ℕ). all_max (tok toks x)) q ∙ e)
      from u (inr h) = let (a, b) = f u h in (inr a, b)

      to : (u : Token) → Holds u (t ∷ below) → all_max (tok toks u) ≡ true → Holds u (t ∷ kept)
      to u (inl q) a = inl q
      to u (inr h) a = inr (g u h a)

  IsRetained-skip :
      (t : Token) (below kept : List Token)
      → all_max (tok toks t) ≡ false
      → IsRetained toks below kept
      → IsRetained toks (t ∷ below) kept
  IsRetained-skip t below kept e (f, g) = (from, to)
    where
      from : (u : Token) → Holds u kept → Holds u (t ∷ below) × (all_max (tok toks u) ≡ true)
      from u h = let (a, b) = f u h in (inr a, b)

      to : (u : Token) → Holds u (t ∷ below) → all_max (tok toks u) ≡ true → Holds u kept
      to u (inl q) a =
          absurd (false≢true (sym e ∙ ap (λ (x : ℕ). all_max (tok toks x)) (sym q) ∙ a))
      to u (inr h) a = g u h a

  retain_max-IsNested :
      (w : Bytes) (stack : List Token)
      → IsNested toks w stack
      → (kept : List Token) × (retain_max v stack ≡ some kept)
        × IsNested toks w kept
        × IsRetained toks stack kept
  unfolding retain_max
  retain_max-IsNested w [] n = ([], refl, tt, ((λ u h. absurd h), λ u h a. h))
  retain_max-IsNested w (t ∷ below) (l, p, s, n) =
      let (kept, e, nk, kk) = retain_max-IsNested (tok toks t) below n in
      elim (Bool-cases (all_max (tok toks t))) [
        | inl yes_ ↦ (
          t ∷ kept,
          rw (retain_max, r.token_lem t l, e, yes_),
          (l, p, s, nk),
          IsRetained-next t below kept yes_ kk,
        )
        | inr no_ ↦ (
          kept,
          rw (retain_max, r.token_lem t l, e, no_),
          IsNested-wider toks (tok toks t) w kept p s nk,
          IsRetained-skip t below kept no_ kk,
        )
      ]

  retain_max-IsStack :
      (stack : List Token)
      → IsStack toks stack
      → (kept : List Token) × (retain_max v stack ≡ some kept)
        × IsStack toks kept
        × IsRetained toks stack kept
  unfolding retain_max
  retain_max-IsStack [] n = ([], refl, tt, ((λ u h. absurd h), λ u h a. h))
  retain_max-IsStack (t ∷ below) (l, n) =
      let (kept, e, nk, kk) = retain_max-IsNested (tok toks t) below n in
      elim (Bool-cases (all_max (tok toks t))) [
        | inl yes_ ↦ (
          t ∷ kept,
          rw (retain_max, r.token_lem t l, e, yes_),
          (l, nk),
          IsRetained-next t below kept yes_ kk,
        )
        | inr no_ ↦ (
          kept,
          rw (retain_max, r.token_lem t l, e, no_),
          IsNested-IsStack toks (tok toks t) kept nk,
          IsRetained-skip t below kept no_ kk,
        )
      ]

  -- The last token is the largest, so its stack holds the tokens of 0xFF bytes.
  pub retain_max-IsPads :
      IsSorted toks
      → ((i : ℕ) → i < length toks → AreBytes (tok toks i))
      → (last : ℕ) (stack : List Token) → suc last ≡ length toks
      → IsPrefixStack toks (length toks) stack
      → (kept : List Token) × (retain_max v stack ≡ some kept) × IsPads toks kept
  retain_max-IsPads sorted bytes last stack size s =
      let (kept, e, n, (from, to)) = retain_max-IsStack stack s.nested in
      (
        kept,
        e,
        record {
          nested = n;
          starts = λ u h.
              let (a, b) = from u h in
              all_max-is_prefix 16 (tok toks u) (r.bounded u (s.seen u a)) b;
          holds = λ u l p.
              to u
                (s.complete last u size (omega arith) (
                  prefix_of_found toks v r sorted bytes max_bytes max_bytes-AreBytes refl last u
                    (omega arith) (omega arith) (at_most last (omega arith)) p))
                (is_prefix-all_max 16 (tok toks u) p);
        },
      )
    where
      at_most : (k : ℕ) → k < length toks → token_key toks k ≤ from_be_bytes max_bytes
      at_most k l =
          let small =
            from_be_bytes_lt (buffer 16 (tok toks k))
              (buffer-AreBytes 16 (tok toks k) (bytes k l)) in
          let power : 256 ^ length (buffer 16 (tok toks k)) ≡ 2 ^ 128 =
            ap (λ (n : ℕ). 256 ^ n) (length-buffer 16 (tok toks k)) in
          omega arith
