-- ===== src/Encoding/DictionaryMatcher/Matched.antt =====
-- encoding/dictionary_matcher.rs, `find_all`: the longest token that fits, from the record of a slot.
use onpair.Common.{
  ℕ, suc, ◌+◌, ◌-◌, ◌*◌, ◌/◌, ◌^◌, min, max, ◌≤◌, ◌<◌, ◌≡◌, ◌≢◌, ◌∙◌, inl, inr, refl, sym, ap,
  subst, true, false, some, arith, List, [], ◌∷◌, Bytes, length, length-take, get_elem?,
  get_elem?-eq-get_or, get_or, take, drop, take-append-drop, is_prefix, is_prefix_trans,
  is_prefix-append, is_prefix-linear, is_prefix-length, dec_lt, ℕ_discrete, ◌==◌,
}
use onpair.Core.Types.{Token}
use onpair.Dictionary.View.{DictionaryView, Tokens, tok, Represents, IsComplete, AreBytes}
use onpair.Search.Lookup.Longest.{IsLongest}
use onpair.Encoding.DictionaryMatcher.{PrefixChain, DictionaryMatcher, block_keys, from_be_bytes}
use onpair.Encoding.DictionaryMatcher.Keys.{AreBytes-tail, from_be_bytes_lt}
use onpair.Encoding.DictionaryMatcher.Prefixes.{common_bytes}
use onpair.Encoding.DictionaryMatcher.Chains.{IsStack, IsNested-IsStack, Holds, Holds-IsNested}
use onpair.Encoding.DictionaryMatcher.Records
use onpair.Encoding.DictionaryMatcher.Records.{Records}
use onpair.Encoding.DictionaryMatcher.Built.{HasSingles, single_byte}
use onpair.Encoding.DictionaryMatcher.Find.{Search, key_at, match_of}

-- The stack holds the tokens that are prefixes of `w`, and perhaps longer ones than `common`.
pub record IsCovering (toks : Tokens) (w : Bytes) (common : ℕ) (stack : List Token) : Type 0 where
  pub nested : IsStack toks stack
  pub starts :
      (u : Token) → Holds u stack → length (tok toks u) ≤ common → is_prefix (tok toks u) w ≡ true
  pub holds : (u : Token) → u < length toks → is_prefix (tok toks u) w ≡ true → Holds u stack
  pub shared :
      (u : Token) → u < length toks → is_prefix (tok toks u) w ≡ true → length (tok toks u) ≤ common

-- If a token of the stack fits, there is a longest.
longest_held :
    (toks : Tokens) (L : ℕ) (stack : List Token) (t : Token)
    → IsStack toks stack
    → Holds t stack
    → length (tok toks t) ≤ L
    → (u : Token) × Records.IsLongest toks L u stack
longest_held toks L [] t s h fit = absurd h
longest_held toks L (top ∷ below) t (l, n) h fit = elim (dec_lt L (length (tok toks top))) [
  | no fits ↦
      (top, record { held = inl refl; fits = omega arith; longest = λ w hw fw. shorter w hw })
  | yes long ↦
      let (u, lg) =
        longest_held toks L below t (IsNested-IsStack toks (tok toks top) below n) (under h long)
          fit in
      (
        u,
        record {
          held = inr lg.held;
          fits = lg.fits;
          longest = λ w hw fw. most u w (λ k. lg.longest w k fw) hw fw long;
        },
      )
]
  where
    shorter : (w : Token) → Holds w (top ∷ below) → length (tok toks w) ≤ length (tok toks top)
    shorter w (inl e) = let q = ap (λ (x : ℕ). length (tok toks x)) e in omega arith
    shorter w (inr k) =
        let (a, p, less) = Holds-IsNested toks (tok toks top) below w n k in omega arith

    under : Holds t (top ∷ below) → L < length (tok toks top) → Holds t below
    under (inl e) long = let q = ap (λ (x : ℕ). length (tok toks x)) e in absurd (omega arith)
    under (inr k) long = k

    most :
        (u w : Token)
        → (Holds w below → length (tok toks w) ≤ length (tok toks u))
        → Holds w (top ∷ below)
        → length (tok toks w) ≤ L
        → L < length (tok toks top)
        → length (tok toks w) ≤ length (tok toks u)
    most u w k (inl e) fw long =
        let q = ap (λ (x : ℕ). length (tok toks x)) e in absurd (omega arith)
    most u w k (inr hw) fw long = k hw

-- The first byte of a key.
first_byte : (w : Bytes) → AreBytes w → length w ≡ 16 → from_be_bytes w / 2 ^ 120 ≡ get_or w 0 0
first_byte [] h e = absurd (omega arith)
first_byte (b ∷ w) h e =
    let size : 256 ^ length w ≡ 2 ^ 120 = ap (λ (n : ℕ). 256 ^ n) (fifteen w e) in
    let small = from_be_bytes_lt w (AreBytes-tail b w h) in
    let split : b * 256 ^ length w ≡ b * 2 ^ 120 = ap (λ (n : ℕ). b * n) size in omega arith
  where
    fifteen : (w : Bytes) → suc (length w) ≡ 16 → length w ≡ 15
    fifteen w e = omega arith

take_prefix : (n : ℕ) (w : Bytes) → is_prefix (take n w) w ≡ true
take_prefix n w =
    subst (λ (s : Bytes). is_prefix (take n w) s ≡ true) (take-append-drop n w)
      (is_prefix-append (take n w) (drop n w))

first_of_prefix : (b : ℕ) (w : Bytes) → is_prefix (b ∷ []) w ≡ true → b ≡ get_or w 0 0
first_of_prefix b [] h = absurd (ground arith)
first_of_prefix b (c ∷ w) h = ground (arith, h)

prefix_of_first : (w : Bytes) → 1 ≤ length w → is_prefix (get_or w 0 0 ∷ []) w ≡ true
prefix_of_first [] l = absurd (omega arith)
prefix_of_first (b ∷ w) l = ground arith

entry_of : (n : ℕ) → 2 ≤ n → max n 2 - 2 ≡ n - 2
entry_of n h = ground (arith, h)

not_one : (n : ℕ) → n ≢ 1 → (n == 1) ≡ false
not_one n h = ground (arith, h)

module _ (toks : Tokens) (v : DictionaryView) (r : Represents v toks) (complete : IsComplete toks)
    (m : DictionaryMatcher) (singles : HasSingles toks (length toks) m.singles) (w : Bytes)
    (w_bytes : AreBytes w) (w_size : length w ≡ 16) where
  -- One search that stopped at the key `found`, with a record that covers the input.
  module _ (s : Search) (found : ℕ) (c : PrefixChain) (stack : List Token)
      (key : s.key ≡ from_be_bytes w) (one : 1 ≤ s.win)
      (at_slot : key_at m s.base s.slot ≡ some found)
      (chain : get_elem? m.chains (s.base * block_keys + s.slot) ≡ some c)
      (R : Records toks c stack) (cover : IsCovering toks w (common_bytes found s.key) stack) where
    abbrev bound : ℕ
    bound = min (common_bytes found s.key) s.win

    has_longest : (u : Token) × Records.IsLongest toks bound u stack
    has_longest =
        let (t, l, e) = complete (get_or w 0 0) (w_bytes 0 (omega arith)) in
        let p : is_prefix (tok toks t) w ≡ true =
          ap (λ (x : Bytes). is_prefix x w) e ∙ prefix_of_first w (omega arith) in
        let n : length (tok toks t) ≡ 1 = ap length e in
        let k = cover.shared t l p in
        longest_held toks bound stack t cover.nested (cover.holds t l p) (omega arith)

    -- The token of one byte.
    single_lem :
        (u : Token)
        → u < length toks
        → is_prefix (tok toks u) w ≡ true
        → length (tok toks u) ≡ 1
        → get_elem? m.singles (s.key / 2 ^ 120) ≡ some u
    single_lem u l p e =
        let byte : get_or (tok toks u) 0 0 ≡ get_or w 0 0 =
          first_of_prefix (get_or (tok toks u) 0 0) w
            (ap (λ (x : Bytes). is_prefix x w) (sym (single_byte (tok toks u) e)) ∙ p) in
        ap (λ (k : ℕ). get_elem? m.singles (k / 2 ^ 120)) key
        ∙ ap (get_elem? m.singles) (first_byte w w_bytes w_size ∙ sym byte)
        ∙ singles u l e

    any_single : (x : Token) × (get_elem? m.singles (s.key / 2 ^ 120) ≡ some x)
    any_single =
        let (t, l, e) = complete (get_or w 0 0) (w_bytes 0 (omega arith)) in
        let p : is_prefix (tok toks t) w ≡ true =
          ap (λ (x : Bytes). is_prefix x w) e ∙ prefix_of_first w (omega arith) in
        (t, single_lem t l p (ap length e))

    -- The answer of the search is the token `u`.
    answer :
        (u : Token)
        → Records.IsLongest toks bound u stack
        → u < length toks
        → is_prefix (tok toks u) w ≡ true
        → match_of m s ≡ some (u, length (tok toks u))
    unfolding match_of
    answer u lg l p = elim (ℕ_discrete (length (tok toks u)) 1) [
      | yes e ↦
          let len = R.lens_lem bound u lg in
          let entry = get_elem?-eq-get_or c.ids 0 0 (omega (arith, R.entries)) in
          rw (match_of, at_slot, chain, len, e, entry, single_lem u l p e)
      | no ne ↦
          let len = R.lens_lem bound u lg in
          let two : 2 ≤ length (tok toks u) = let a = r.nonempty u l in omega arith in
          let slot = entry_of (length (tok toks u)) two in
          let other = not_one (length (tok toks u)) ne in
          let (x, single) = any_single in
          rw (match_of, at_slot, chain, len, slot, R.ids_lem u lg.held two, single, other)
    ]

    pub match_of-IsLongest :
        (u : Token) × (match_of m s ≡ some (u, length (tok toks u)))
        × IsLongest toks (take s.win w) (some (u, length (tok toks u)))
    match_of-IsLongest =
        let (u, lg) = has_longest in
        let p = cover.starts u lg.held (omega (arith, lg.fits)) in
        let l = held_lt stack u cover.nested lg.held in
        let fit = lg.fits in
        let long = is_prefix-length (tok toks u) w p in
        (
          u,
          answer u lg l p,
          (
            l,
            refl,
            is_prefix-linear (tok toks u) (take s.win w) w p (take_prefix s.win w)
                (omega (arith, length-take s.win w)),
            λ x lx px. most u lg x lx px,
          ),
        )
      where
        held_lt :
            (stack : List Token) (u : Token) → IsStack toks stack → Holds u stack → u < length toks
        held_lt [] u n h = absurd h
        held_lt (t ∷ below) u (l, n) (inl e) = subst (λ (x : ℕ). x < length toks) (sym e) l
        held_lt (t ∷ below) u (l, n) (inr h) =
            let (a, p, less) = Holds-IsNested toks (tok toks t) below u n h in a

        most :
            (u : Token)
            → Records.IsLongest toks bound u stack
            → (x : Token) → x < length toks
            → is_prefix (tok toks x) (take s.win w) ≡ true
            → length (tok toks x) ≤ length (tok toks u)
        most u lg x lx px =
            let p = is_prefix_trans (tok toks x) (take s.win w) w px (take_prefix s.win w) in
            let short = is_prefix-length (tok toks x) (take s.win w) px in
            let a = cover.shared x lx p in
            lg.longest x (cover.holds x lx p) (omega (arith, length-take s.win w))
