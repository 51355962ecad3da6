-- ===== src/Encoding/DictionaryMatcher/Built.antt =====
-- encoding/dictionary_matcher.rs, `from_dictionary`: what the loop over the tokens builds.
use onpair.Common.{
  ℕ, zero, suc, ◌+◌, ◌<◌, ◌≡◌, ◌≢◌, ◌∙◌, refl, sym, ap, subst, false≢true, some, arith, List, [],
  ◌∷◌, ◌++◌, Bytes, length, length-append, length-set, get_or-set_self, get_or-set_ne,
  get_elem?-eq-get_or, get_elem?, get_or, set, lex_lt, lex_lt_irrefl, ℕ_discrete,
}
use onpair.Core.Types.{Token, max_token_size}
use onpair.Dictionary.View.{DictionaryView, Tokens, tok, Represents, IsSorted, AreBytes}
use onpair.Common.{put_lem}
use onpair.Encoding.DictionaryMatcher.{
  PrefixChain, Building, from_be_bytes, buffer, set_single, token_loop,
}
use onpair.Encoding.DictionaryMatcher.Chains.{IsPrefixStack, pop_chain-IsPrefixStack}
use onpair.Encoding.DictionaryMatcher.Records.{Records, new_chain-Records}

-- The key of token `k`.
abbrev pub token_key : Tokens → ℕ → ℕ
token_key toks k = from_be_bytes (buffer max_token_size (tok toks k))

-- `c` is the record of the prefix tokens of token `k`.
abbrev pub IsChainOf : Tokens → ℕ → PrefixChain → Type 0
IsChainOf toks k c =
    (below : List Token) × IsPrefixStack toks (suc k) (k ∷ below) × Records toks c (k ∷ below)

-- Every single-byte token among the first `i` is found by its byte.
abbrev pub HasSingles : Tokens → ℕ → List Token → Type 0
HasSingles toks i singles =
    (u : Token)
    → u < i
    → length (tok toks u) ≡ 1
    → get_elem? singles (get_or (tok toks u) 0 0) ≡ some u

-- What is built from the first `i` tokens.
pub record IsBuilt (toks : Tokens) (i : ℕ) (b : Building) : Type 0 where
  pub num_keys : length b.keys ≡ i
  pub keys_lem : (k : ℕ) → k < i → get_elem? b.keys k ≡ some (token_key toks k)
  pub num_chains : length b.chains ≡ i
  pub chains_lem :
      (k : ℕ) → k < i → (c : PrefixChain) × (get_elem? b.chains k ≡ some c) × IsChainOf toks k c
  pub stack_lem : IsPrefixStack toks i b.chain
  pub num_singles : length b.singles ≡ 256
  pub singles_lem : HasSingles toks i b.singles

module _ {ℓ} {A : Type ℓ} where
  snoc_old :
      (xs : List A) (x : A) (k : ℕ) → k < length xs → get_elem? (xs ++ x ∷ []) k ≡ get_elem? xs k
  snoc_old [] x k l = absurd (omega arith)
  snoc_old (y ∷ xs) x zero l = refl
  snoc_old (y ∷ xs) x (suc k) l = snoc_old xs x k (omega arith)

  snoc_new : (xs : List A) (x : A) (k : ℕ) → k ≡ length xs → get_elem? (xs ++ x ∷ []) k ≡ some x
  snoc_new [] x zero e = refl
  snoc_new [] x (suc k) e = absurd (omega arith)
  snoc_new (y ∷ xs) x zero e = absurd (omega arith)
  snoc_new (y ∷ xs) x (suc k) e = snoc_new xs x k (omega arith)

  length-snoc : (xs : List A) (x : A) (i : ℕ) → length xs ≡ i → length (xs ++ x ∷ []) ≡ suc i
  length-snoc xs x i e = omega (arith, length-append xs (x ∷ []), e)

get_elem?-set_self : (xs : List ℕ) (i v : ℕ) → i < length xs → get_elem? (set xs i v) i ≡ some v
get_elem?-set_self xs i v l =
    get_elem?-eq-get_or (set xs i v) i 0 (omega (arith, length-set xs i v))
    ∙ ap some (get_or-set_self xs i v 0 l)

get_elem?-set_ne :
    (xs : List ℕ) (i j v : ℕ) → i ≢ j → j < length xs → get_elem? (set xs i v) j ≡ get_elem? xs j
get_elem?-set_ne xs i j v ne l =
    get_elem?-eq-get_or (set xs i v) j 0 (omega (arith, length-set xs i v))
    ∙ ap some (get_or-set_ne xs i j v 0 ne)
    ∙ sym (get_elem?-eq-get_or xs j 0 l)

pub single_byte : (s : Bytes) → length s ≡ 1 → s ≡ get_or s 0 0 ∷ []
single_byte [] e = absurd (omega arith)
single_byte (b ∷ []) e = refl
single_byte (b ∷ c ∷ s) e = absurd (omega arith)

module _ (toks : Tokens) (v : DictionaryView) (r : Represents v toks) (sorted : IsSorted toks)
    (bytes : (i : ℕ) → i < length toks → AreBytes (tok toks i)) where
  -- Single bytes of different tokens differ.
  singles_differ :
      (u i : ℕ)
      → u < i
      → i < length toks
      → length (tok toks u) ≡ 1
      → length (tok toks i) ≡ 1
      → get_or (tok toks i) 0 0 ≢ get_or (tok toks u) 0 0
  singles_differ u i l li eu ei same =
      let e : tok toks u ≡ tok toks i =
        single_byte (tok toks u) eu
        ∙ ap (λ (b : ℕ). b ∷ []) (sym same)
        ∙ sym (single_byte (tok toks i) ei) in
      absurd (
        false≢true (
          sym (lex_lt_irrefl (tok toks i))
          ∙ ap (λ (s : Bytes). lex_lt s (tok toks i)) (sym e)
          ∙ sorted u i l li))

  set_single-HasSingles :
      (i : ℕ) (singles : List Token)
      → i < length toks
      → length singles ≡ 256
      → HasSingles toks i singles
      → (next : List Token) × (set_single (tok toks i) i singles ≡ some next)
        × (length next ≡ 256)
        × HasSingles toks (suc i) next
  set_single-HasSingles i singles l size h = elim (ℕ_discrete (length (tok toks i)) 1) [
    | yes one ↦
        let b = get_or (tok toks i) 0 0 in
        let small : b < length singles = let s = bytes i l 0 (omega arith) in omega arith in
        (
          set singles b i,
          rw (one, get_elem?-eq-get_or (tok toks i) 0 0 (omega arith), put_lem singles b i small),
          length-set singles b i ∙ size,
          λ u lu eu. kept u one lu eu small (ℕ_discrete u i),
        )
    | no ne ↦ (
      singles,
      ground (arith, ne),
      size,
      λ u lu eu. elim (ℕ_discrete u i) [
        | yes e ↦ absurd (ne (ap (λ (x : ℕ). length (tok toks x)) (sym e) ∙ eu))
        | no other ↦ h u (omega arith) eu
      ],
    )
  ]
    where
      kept :
          (u : ℕ)
          → length (tok toks i) ≡ 1
          → u < suc i
          → length (tok toks u) ≡ 1
          → get_or (tok toks i) 0 0 < length singles
          → Dec (u ≡ i)
          → get_elem? (set singles (get_or (tok toks i) 0 0) i) (get_or (tok toks u) 0 0) ≡ some u
      kept u one lu eu small (yes e) =
          ap
            (λ (x : ℕ).
              get_elem? (set singles (get_or (tok toks i) 0 0) i) (get_or (tok toks x) 0 0))
            e
          ∙ get_elem?-set_self singles (get_or (tok toks i) 0 0) i small
          ∙ ap some (sym e)
      kept u one lu eu small (no ne) =
          let other : get_or (tok toks u) 0 0 < length singles =
            let s = bytes u (omega arith) 0 (omega arith) in omega arith in
          get_elem?-set_ne singles (get_or (tok toks i) 0 0) (get_or (tok toks u) 0 0) i
            (singles_differ u i (omega arith) l eu one) other
          ∙ h u (omega arith) eu

  -- One round of the loop.
  token_round :
      (left i : ℕ) (b : Building)
      → i < length toks
      → IsBuilt toks i b
      → (next : Building) × (token_loop v (suc left) i b ≡ token_loop v left (i + 1) next)
        × IsBuilt toks (suc i) next
  unfolding token_loop
  token_round left i b l h =
      let (below, e, s) = pop_chain-IsPrefixStack toks v r sorted i b.chain l h.stack_lem in
      let (singles, e', size, hs) =
        set_single-HasSingles i b.singles l h.num_singles h.singles_lem in
      let (c, e'', lt, R) = new_chain-Records toks v r (i ∷ below) s.nested in
      (
        record {
          keys = b.keys ++ token_key toks i ∷ [];
          chain = i ∷ below;
          chains = b.chains ++ c ∷ [];
          singles = singles;
        },
        rw (token_loop, r.token_lem i l, e, e', e''),
        record {
          num_keys = length-snoc b.keys (token_key toks i) i h.num_keys;
          keys_lem = λ k lk. elim (ℕ_discrete k i) [
            | yes q ↦
                snoc_new b.keys (token_key toks i) k (omega (arith, h.num_keys))
                ∙ ap (λ (x : ℕ). some (token_key toks x)) (sym q)
            | no ne ↦
                snoc_old b.keys (token_key toks i) k (omega (arith, h.num_keys))
                ∙ h.keys_lem k (omega arith)
          ];
          num_chains = length-snoc b.chains c i h.num_chains;
          chains_lem = λ k lk. elim (ℕ_discrete k i) [
            | yes q ↦ (
              c,
              snoc_new b.chains c k (omega (arith, h.num_chains)),
              subst (λ (x : ℕ). IsChainOf toks x c) (sym q) (below, s, R),
            )
            | no ne ↦
                let (d, ed, hd) = h.chains_lem k (omega arith) in
                (d, snoc_old b.chains c k (omega (arith, h.num_chains)) ∙ ed, hd)
          ];
          stack_lem = s;
          num_singles = size;
          singles_lem = hs;
        },
      )

  pub token_loop-IsBuilt :
      (left i : ℕ) (b : Building)
      → i + left ≡ length toks
      → IsBuilt toks i b
      → (built : Building) × (token_loop v left i b ≡ some built) × IsBuilt toks (length toks) built
  unfolding token_loop
  token_loop-IsBuilt zero i b e h = (b, refl, subst (λ (x : ℕ). IsBuilt toks x b) (omega arith) h)
  token_loop-IsBuilt (suc left) i b e h =
      let (next, q, hn) = token_round left i b (omega arith) h in
      let at : suc i ≡ i + 1 = omega arith in
      let (built, q', hb) =
        token_loop-IsBuilt left (i + 1) next (omega arith)
          (subst (λ (x : ℕ). IsBuilt toks x next) at hn) in
      (built, q ∙ q', hb)
