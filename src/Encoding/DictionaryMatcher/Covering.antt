-- ===== src/Encoding/DictionaryMatcher/Covering.antt =====
-- encoding/dictionary_matcher.rs, `find_all`: the prefix tokens of the last token at most an input
-- cover the input.
use onpair.Common.{
  ℕ, zero, suc, ◌^◌, ◌≤◌, ◌<◌, ◌≡◌, ◌∙◌, ◌⊎◌, inl, inr, refl, sym, ap, subst, true, false, arith,
  List, [], ◌∷◌, ◌++◌, Bytes, length, length-take, length-drop, take, drop, replicate,
  take-append-drop, get_or, is_prefix, is_prefix-length, lex_lt, lex_lt_irrefl, lex_lt-asymm,
  Bool-cases, ℕ_discrete,
}
use onpair.Core.Types.{Token}
use onpair.Dictionary.View.{DictionaryView, Tokens, tok, Represents, IsSorted, AreBytes}
use onpair.Encoding.DictionaryMatcher.{from_be_bytes, buffer, key_max}
use onpair.Encoding.DictionaryMatcher.Keys.{
  LexLe, from_be_bytes_lt, from_be_bytes-lex_lt, length-buffer, buffer-AreBytes, between-is_prefix,
}
use onpair.Encoding.DictionaryMatcher.Prefixes.{
  common_bytes, shared-common_bytes, common_bytes-shared, from_be_bytes_inj,
}
use onpair.Encoding.DictionaryMatcher.Chains.{IsStack, Holds, Holds-IsNested, IsPrefixStack}
use onpair.Encoding.DictionaryMatcher.Built.{token_key}
use onpair.Encoding.DictionaryMatcher.Matched.{IsCovering}

pub take-buffer : (n k : ℕ) (s : Bytes) → k ≤ n → k ≤ length s → take k (buffer n s) ≡ take k s
take-buffer n zero s l h = refl
take-buffer zero (suc k) s l h = absurd (omega arith)
take-buffer (suc n) (suc k) [] l h = absurd (omega arith)
take-buffer (suc n) (suc k) (b ∷ s) l h =
    ap (λ (x : Bytes). b ∷ x) (take-buffer n k s (omega arith) (omega arith))

pub buffer_whole : (w : Bytes) → buffer (length w) w ≡ w
buffer_whole [] = refl
buffer_whole (b ∷ w) = ap (λ (x : Bytes). b ∷ x) (buffer_whole w)

take-is_prefix : (p s : Bytes) → is_prefix p s ≡ true → take (length p) s ≡ p
take-is_prefix [] s h = refl
take-is_prefix (a ∷ p) [] h = absurd (ground arith)
take-is_prefix (a ∷ p) (b ∷ s) h =
    let first : b ≡ a = ground (arith, h) in
    let rest = take-is_prefix p s (ground (arith, h)) in
    ap (λ (x : Bytes). b ∷ x) rest ∙ ap (λ (x : ℕ). x ∷ p) first

is_prefix-take : (p s : Bytes) → p ≡ take (length p) s → is_prefix p s ≡ true
is_prefix-take [] s h = refl
is_prefix-take (a ∷ p) [] h = absurd (nil_cons a p (sym h))
  where
    nil_cons : (a : ℕ) (p : Bytes) → [] ≡ a ∷ p → ⊥
    nil_cons a p e = let q : 0 ≡ suc (length p) = ap length e in omega arith
is_prefix-take (a ∷ p) (b ∷ s) h =
    let first : a ≡ b = ap (λ (x : Bytes). get_or x 0 0) h in
    let rest : is_prefix p s ≡ true = is_prefix-take p s (ap (drop 1) h) in
    ground (arith, first, rest)

-- A prefix, padded with zeros, is at most the string.
is_prefix-LexLe : (n : ℕ) (p w : Bytes) → is_prefix p w ≡ true → LexLe (buffer n p) (buffer n w)
is_prefix-LexLe zero p w h = inl refl
is_prefix-LexLe (suc n) [] [] h = inl refl
is_prefix-LexLe (suc n) [] (zero ∷ w) h = elim (is_prefix-LexLe n [] w refl) [
  | inl e ↦ inl (ap (λ (x : Bytes). 0 ∷ x) e)
  | inr l ↦ inr (ground (arith, l))
]
is_prefix-LexLe (suc n) [] (suc b ∷ w) h = inr (ground arith)
is_prefix-LexLe (suc n) (a ∷ p) [] h = absurd (ground arith)
is_prefix-LexLe (suc n) (a ∷ p) (b ∷ w) h =
    let first : a ≡ b = ground (arith, h) in
    elim (is_prefix-LexLe n p w (ground (arith, h))) [
      | inl e ↦ inl (ap (λ (x : Bytes). a ∷ x) e ∙ ap (λ (x : ℕ). x ∷ buffer n w) first)
      | inr l ↦ inr (ground (arith, first, l))
    ]

pub from_be_bytes-LexLe :
    (a b : Bytes)
    → length a ≡ length b
    → AreBytes a
    → AreBytes b
    → LexLe a b
    → from_be_bytes a ≤ from_be_bytes b
from_be_bytes-LexLe a b e ha hb (inl q) = let same = ap from_be_bytes q in omega arith
from_be_bytes-LexLe a b e ha hb (inr l) =
    let less = from_be_bytes-lex_lt a b e ha hb l in omega arith

-- Two inputs of 16 bytes.
module _ (a w : Bytes) (a_size : length a ≡ 16) (w_size : length w ≡ 16) (a_bytes : AreBytes a)
    (w_bytes : AreBytes w) (k : ℕ) (fit : k ≤ 16) where
  split_bytes : (s : Bytes) → AreBytes s → AreBytes (take k s ++ drop k s)
  split_bytes s h = subst AreBytes (sym (take-append-drop k s)) h

  common_bytes-take : take k a ≡ take k w → k ≤ common_bytes (from_be_bytes a) (from_be_bytes w)
  common_bytes-take e =
      let l =
        shared-common_bytes (take k a) (drop k a) (take k w) (drop k w)
          (omega (arith, length-take k a, length-drop k a))
          (omega (arith, length-take k a, length-take k w))
          (omega (arith, length-drop k a, length-drop k w)) (split_bytes a a_bytes)
          (split_bytes w w_bytes) e in
      let size : length (take k a) ≡ k = omega (arith, length-take k a) in
      let same : common_bytes (from_be_bytes (take k a ++ drop k a))
            (from_be_bytes (take k w ++ drop k w))
          ≡ common_bytes (from_be_bytes a) (from_be_bytes w) =
        ap (λ (x : Bytes). common_bytes (from_be_bytes x) (from_be_bytes (take k w ++ drop k w)))
          (take-append-drop k a)
        ∙ ap (λ (x : Bytes). common_bytes (from_be_bytes a) (from_be_bytes x))
            (take-append-drop k w) in
      le_of size same l
    where
      le_of : {x y c d : ℕ} → x ≡ y → c ≡ d → x ≤ c → y ≤ d
      le_of e e' l = omega arith

  take-common_bytes : k ≤ common_bytes (from_be_bytes a) (from_be_bytes w) → take k a ≡ take k w
  take-common_bytes l =
      let size : length (take k a) ≡ k = omega (arith, length-take k a) in
      let same : common_bytes (from_be_bytes (take k a ++ drop k a))
            (from_be_bytes (take k w ++ drop k w))
          ≡ common_bytes (from_be_bytes a) (from_be_bytes w) =
        ap (λ (x : Bytes). common_bytes (from_be_bytes x) (from_be_bytes (take k w ++ drop k w)))
          (take-append-drop k a)
        ∙ ap (λ (x : Bytes). common_bytes (from_be_bytes a) (from_be_bytes x))
            (take-append-drop k w) in
      common_bytes-shared (take k a) (drop k a) (take k w) (drop k w)
        (omega (arith, length-take k a, length-drop k a))
        (omega (arith, length-take k a, length-take k w))
        (omega (arith, length-drop k a, length-drop k w)) (split_bytes a a_bytes)
        (split_bytes w w_bytes) (le_of size same l)
    where
      le_of : {x y c d : ℕ} → x ≡ y → c ≡ d → y ≤ d → x ≤ c
      le_of e e' l = omega arith

module _ (toks : Tokens) (v : DictionaryView) (r : Represents v toks) (sorted : IsSorted toks)
    (bytes : (i : ℕ) → i < length toks → AreBytes (tok toks i)) (w : Bytes) (w_bytes : AreBytes w)
    (w_size : length w ≡ 16) where
  whole : buffer 16 w ≡ w
  whole = ap (λ (n : ℕ). buffer n w) (sym w_size) ∙ buffer_whole w

  key_bytes : (k : ℕ) → k < length toks → AreBytes (buffer 16 (tok toks k))
  key_bytes k l = buffer-AreBytes 16 (tok toks k) (bytes k l)

  -- The key of a prefix token is at most the input.
  prefix_key_le :
      (u : Token)
      → u < length toks
      → is_prefix (tok toks u) w ≡ true
      → token_key toks u ≤ from_be_bytes w
  prefix_key_le u l p =
      from_be_bytes-LexLe (buffer 16 (tok toks u)) w (length-buffer 16 (tok toks u) ∙ sym w_size)
        (key_bytes u l) w_bytes
        (subst (λ (x : Bytes). LexLe (buffer 16 (tok toks u)) x) whole
          (is_prefix-LexLe 16 (tok toks u) w p))

  -- A prefix of the input and a token between the two.
  pub prefix_of_found :
      (q u : ℕ)
      → q < length toks
      → u ≤ q
      → token_key toks q ≤ from_be_bytes w
      → is_prefix (tok toks u) w ≡ true
      → is_prefix (tok toks u) (tok toks q) ≡ true
  prefix_of_found q u lq le at_most p =
      between-is_prefix 16 (tok toks u) (tok toks q) w (r.bounded u (omega arith))
        (ordered (ℕ_discrete u q)) p
        (subst (λ (x : Bytes). lex_lt x (buffer 16 (tok toks q)) ≡ false) (sym whole)
          (not_before (Bool-cases (lex_lt w (buffer 16 (tok toks q))))))
    where
      ordered : Dec (u ≡ q) → lex_lt (tok toks q) (tok toks u) ≡ false
      ordered (yes e) =
          ap (λ (x : ℕ). lex_lt (tok toks q) (tok toks x)) e ∙ lex_lt_irrefl (tok toks q)
      ordered (no ne) = lex_lt-asymm (tok toks u) (tok toks q) (sorted u q (omega arith) lq)

      not_before :
          (lex_lt w (buffer 16 (tok toks q)) ≡ true) ⊎ (lex_lt w (buffer 16 (tok toks q)) ≡ false)
          → lex_lt w (buffer 16 (tok toks q)) ≡ false
      not_before (inr e) = e
      not_before (inl e) =
          let less =
            from_be_bytes-lex_lt w (buffer 16 (tok toks q))
              (w_size ∙ sym (length-buffer 16 (tok toks q))) w_bytes (key_bytes q lq) e in
          absurd (omega arith)

  -- The bytes of a prefix of a token, in the key of the token.
  key_starts :
      (q u : ℕ)
      → q < length toks
      → u < length toks
      → is_prefix (tok toks u) (tok toks q) ≡ true
      → take (length (tok toks u)) (buffer 16 (tok toks q)) ≡ tok toks u
  key_starts q u lq lu p =
      take-buffer 16 (length (tok toks u)) (tok toks q) (r.bounded u lu)
        (is_prefix-length (tok toks u) (tok toks q) p)
      ∙ take-is_prefix (tok toks u) (tok toks q) p

  held_prefix :
      (q : ℕ) (below : List Token) (u : Token)
      → IsPrefixStack toks (suc q) (q ∷ below)
      → Holds u (q ∷ below)
      → (u < length toks) × (is_prefix (tok toks u) (tok toks q) ≡ true)
  held_prefix q below u s h = held h s.nested
    where
      self : (p : Bytes) → is_prefix p p ≡ true
      self p = is_prefix-take p p (sym (take_all p))
        where
          take_all : (p : Bytes) → take (length p) p ≡ p
          take_all [] = refl
          take_all (b ∷ p) = ap (λ (x : Bytes). b ∷ x) (take_all p)

      held :
          Holds u (q ∷ below)
          → IsStack toks (q ∷ below)
          → (u < length toks) × (is_prefix (tok toks u) (tok toks q) ≡ true)
      held (inl e) (l, n) = (
        subst (λ (x : ℕ). x < length toks) (sym e) l,
        subst (λ (x : ℕ). is_prefix (tok toks x) (tok toks q) ≡ true) (sym e) (self (tok toks q)),
      )
      held (inr k) (l, n) =
          let (a, p, less) = Holds-IsNested toks (tok toks q) below u n k in (a, p)

  -- The search stopped at a token.
  pub token-IsCovering :
      (q : ℕ) (below : List Token)
      → q < length toks
      → IsPrefixStack toks (suc q) (q ∷ below)
      → token_key toks q ≤ from_be_bytes w
      → ((k : ℕ) → k < length toks → token_key toks k ≤ from_be_bytes w → k ≤ q)
      → IsCovering toks w (common_bytes (token_key toks q) (from_be_bytes w)) (q ∷ below)
  token-IsCovering q below lq s at_most last = record {
    nested = s.nested;
    starts = λ u h short.
        let (lu, p) = held_prefix q below u s h in
        is_prefix-take (tok toks u) w (
          sym (key_starts q u lq lu p)
          ∙ take-common_bytes (buffer 16 (tok toks q)) w (length-buffer 16 (tok toks q)) w_size
              (key_bytes q lq) w_bytes (length (tok toks u)) (r.bounded u lu) short);
    holds = λ u lu p.
        let le = last u lu (prefix_key_le u lu p) in
        s.complete q u refl le (prefix_of_found q u lq le at_most p);
    shared = λ u lu p.
        let le = last u lu (prefix_key_le u lu p) in
        common_bytes-take (buffer 16 (tok toks q)) w (length-buffer 16 (tok toks q)) w_size
          (key_bytes q lq) w_bytes (length (tok toks u)) (r.bounded u lu)
          (key_starts q u lq lu (prefix_of_found q u lq le at_most p)
            ∙ sym (take-is_prefix (tok toks u) w p));
  }

-- The bytes of `u128::MAX`.
abbrev pub max_bytes : Bytes
max_bytes = replicate 16 0xFF

pub max_bytes-key : from_be_bytes max_bytes ≡ key_max
max_bytes-key = refl

pub max_bytes-AreBytes : AreBytes max_bytes
max_bytes-AreBytes i l = below 16 i l
  where
    below :
        (n i : ℕ)
        → i < length (replicate {A = ℕ} n 0xFF)
        → get_or (replicate {A = ℕ} n 0xFF) i 0 < 256
    below zero i l = absurd (omega arith)
    below (suc n) zero l = ground arith
    below (suc n) (suc i) l = below n i (omega arith)

-- The stack holds the tokens of bytes 0xFF only.
pub record IsPads (toks : Tokens) (stack : List Token) : Type 0 where
  pub nested : IsStack toks stack
  pub starts : (u : Token) → Holds u stack → is_prefix (tok toks u) max_bytes ≡ true
  pub holds :
      (u : Token) → u < length toks → is_prefix (tok toks u) max_bytes ≡ true → Holds u stack

-- The search stopped at a pad.
pub pad-IsCovering :
    (toks : Tokens) (v : DictionaryView) (r : Represents v toks) (w : Bytes)
    → AreBytes w
    → length w ≡ 16
    → (stack : List Token) → IsPads toks stack
    → key_max ≤ from_be_bytes w
    → IsCovering toks w (common_bytes key_max (from_be_bytes w)) stack
pad-IsCovering toks v r w hw size stack p le =
    let small = from_be_bytes_lt w hw in
    let power : 256 ^ length w ≡ 2 ^ 128 = ap (λ (n : ℕ). 256 ^ n) size in
    let key : from_be_bytes max_bytes ≡ from_be_bytes w = omega arith in
    let same : max_bytes ≡ w = from_be_bytes_inj max_bytes w (sym size) max_bytes-AreBytes hw key in
    record {
      nested = p.nested;
      starts =
          λ u h short. subst (λ (x : Bytes). is_prefix (tok toks u) x ≡ true) same (p.starts u h);
      holds = λ u lu h.
          p.holds u lu (subst (λ (x : Bytes). is_prefix (tok toks u) x ≡ true) (sym same) h);
      shared = λ u lu h.
          common_bytes-take max_bytes w refl size max_bytes-AreBytes hw (length (tok toks u))
            (r.bounded u lu) (ap (take (length (tok toks u))) same);
    }
