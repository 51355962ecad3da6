-- ===== src/Encoding/DictionaryMatcher/Start.antt =====
-- encoding/dictionary_matcher.rs, `find_all`: the candidate blocks of each search.
use onpair.Common.{
  ℕ, zero, suc, ◌+◌, ◌-◌, ◌*◌, ◌/◌, ◌^◌, max, ◌≤◌, ◌<◌, ◌≡◌, ◌∙◌, refl, ap, some, arith, List, [],
  ◌∷◌, Bytes, length, get_elem?, get_or, dec_lt,
}
use native.Mathlib.Omega.{pow_step}
use onpair.Encoding.Lanes.Finder.{AreWindows}
use onpair.Encoding.DictionaryMatcher.{DictionaryMatcher, block_keys, prefix_slots, first_block}
use onpair.Encoding.DictionaryMatcher.Find.{Search, window_key, bit_length, start_searches, largest}
use onpair.Encoding.DictionaryMatcher.Counts.{before_prefix, before_prefix_next, before_prefix_le}
use onpair.Encoding.DictionaryMatcher.Placed.{IsSearchable, IsCandidates, AreCandidates, inputs}

-- The key and the window of each position.
abbrev pub window_inputs : Bytes → List ℕ → List ℕ → List (ℕ × ℕ)
window_inputs bytes [] win = []
window_inputs bytes (a ∷ at) [] = []
window_inputs bytes (a ∷ at) (w ∷ win) = (window_key bytes a, w) ∷ window_inputs bytes at win

abbrev pub IsAscending : List ℕ → Type 0
IsAscending keys = (i j : ℕ) → i ≤ j → j < length keys → get_or keys i 0 ≤ get_or keys j 0

IsAscending-tail : (key : ℕ) (keys : List ℕ) → IsAscending (key ∷ keys) → IsAscending keys
IsAscending-tail key keys h i j le l = h (suc i) (suc j) (omega arith) (omega arith)

-- The prefixes of ascending keys ascend.
before_prefix_none :
    (p : ℕ) (keys : List ℕ)
    → ((i : ℕ) → i < length keys → p ≤ get_or keys i 0 / 2 ^ 112)
    → before_prefix p keys ≡ 0
before_prefix_none p [] h = refl
before_prefix_none p (key ∷ keys) h =
    let first : p ≤ key / 2 ^ 112 = h 0 (omega arith) in
    let ih = before_prefix_none p keys (λ i l. h (suc i) (omega arith)) in ground (arith, first, ih)

before_prefix_ge :
    (p key : ℕ) (keys : List ℕ)
    → IsAscending (key ∷ keys)
    → ¬ (key / 2 ^ 112 < p)
    → before_prefix p (key ∷ keys) ≡ 0
before_prefix_ge p key keys h ge =
    before_prefix_none p (key ∷ keys) (λ i l. let a = h 0 i (omega arith) l in omega arith)

-- The keys before the prefix `p` come first.
prefix_below :
    (p : ℕ) (keys : List ℕ) (k : ℕ)
    → IsAscending keys
    → k < before_prefix p keys
    → get_or keys k 0 / 2 ^ 112 < p
prefix_below p [] k h l = absurd (omega arith)
prefix_below p (key ∷ keys) zero h l = elim (dec_lt (key / 2 ^ 112) p) [
  | yes less ↦ less
  | no ge ↦ absurd (ground (arith, before_prefix_ge p key keys h ge, l))
]
prefix_below p (key ∷ keys) (suc k) h l = elim (dec_lt (key / 2 ^ 112) p) [
  | yes less ↦ prefix_below p keys k (IsAscending-tail key keys h) (ground (arith, less, l))
  | no ge ↦ absurd (ground (arith, before_prefix_ge p key keys h ge, l))
]

prefix_above :
    (p : ℕ) (keys : List ℕ) (k : ℕ)
    → IsAscending keys
    → k < length keys
    → get_or keys k 0 / 2 ^ 112 < p
    → k < before_prefix p keys
prefix_above p [] k h l less = absurd (omega arith)
prefix_above p (key ∷ keys) zero h l less = ground (arith, less)
prefix_above p (key ∷ keys) (suc k) h l less =
    let ih = prefix_above p keys k (IsAscending-tail key keys h) (omega arith) less in
    let a : key ≤ get_or keys k 0 = h 0 (suc k) (omega arith) l in
    let first : key / 2 ^ 112 < p = omega arith in ground (arith, ih, first)

lt_bit_length : (n x : ℕ) → x < 2 ^ n → x < 2 ^ bit_length n x
lt_bit_length zero x l = l
lt_bit_length (suc n) zero l = ground arith
lt_bit_length (suc n) (suc x) l =
    let ih = lt_bit_length n (suc x / 2) (omega (arith, pow_step 2 n)) in
    let step : 2 ^ suc (bit_length n (suc x / 2)) ≡ 2 * 2 ^ bit_length n (suc x / 2) =
      pow_step 2 (bit_length n (suc x / 2)) in
    let opened : bit_length (suc n) (suc x) ≡ suc (bit_length n (suc x / 2)) = ground arith in
    let power = ap (λ (k : ℕ). 2 ^ k) opened in omega arith

module _ (tokens keys : List ℕ) (n : ℕ) (m : DictionaryMatcher) (h : IsSearchable keys n m) where
  -- `tokens` are the keys of the tokens, with the first blocks of their prefixes.
  pub record IsTable : Type 0 where
    pub not_empty : 1 ≤ length tokens
    pub few : length tokens ≤ 2 ^ 16
    pub num_blocks : n ≡ length tokens / block_keys + 1
    pub tokens_lem : (k : ℕ) → k < length tokens → get_or keys k 0 ≡ get_or tokens k 0
    pub sorted : IsAscending tokens
    pub zero_first : get_or keys 0 0 ≡ 0
    pub first_blocks_lem :
        (p : ℕ)
        → p ≤ prefix_slots
        → get_elem? m.first_blocks p ≡ some (first_block (before_prefix p tokens))

  -- The candidates of one key.
  module _ (t : IsTable) (key win : ℕ) (small : key < 2 ^ 128) where
    abbrev first : ℕ
    first = first_block (before_prefix (key / 2 ^ 112) tokens)

    abbrev last : ℕ
    last = first_block (before_prefix (key / 2 ^ 112 + 1) tokens)

    abbrev candidates : Search
    candidates = record { key = key; win = win; base = first; size = last + 1 - first; slot = 0 }

    -- The block of a count, without the cast to 16 bits.
    block_of :
        (p : ℕ)
        → first_block (before_prefix p tokens) ≡ (max (before_prefix p tokens) 1 - 1) / block_keys
    block_of p = let a = before_prefix_le p tokens in let b = t.few in ground (arith, a, b)

    first_le : first ≤ last
    first_le =
        let a = block_of (key / 2 ^ 112) in
        let b = block_of (key / 2 ^ 112 + 1) in
        let c = before_prefix_next (key / 2 ^ 112) tokens in ground (arith, a, b, c)

    last_lt : last < n
    last_lt =
        let a = block_of (key / 2 ^ 112 + 1) in
        let b = before_prefix_le (key / 2 ^ 112 + 1) tokens in
        let c = t.num_blocks in let d = t.not_empty in ground (arith, a, b, c, d)

    first_at_least : get_or keys (first * block_keys) 0 ≤ key
    first_at_least = elim (dec_lt 0 (before_prefix (key / 2 ^ 112) tokens)) [
      | yes some_ ↦
          let a = block_of (key / 2 ^ 112) in
          let below : first * block_keys < before_prefix (key / 2 ^ 112) tokens =
            ground (arith, a, some_) in
          let p = prefix_below (key / 2 ^ 112) tokens (first * block_keys) t.sorted below in
          let same =
            t.tokens_lem (first * block_keys)
              (omega (arith, before_prefix_le (key / 2 ^ 112) tokens)) in
          omega arith
      | no none_ ↦
          let a = block_of (key / 2 ^ 112) in
          let start : first * block_keys ≡ 0 = ground (arith, a, none_) in
          let z = ap (λ (i : ℕ). get_or keys i 0) start ∙ t.zero_first in omega arith
    ]

    candidates-IsCandidates : IsCandidates keys (length tokens) n candidates
    candidates-IsCandidates = record {
      at_least = first_at_least;
      inside = omega (arith, first_le, last_lt);
      nonempty = omega (arith, first_le);
      covers = λ k l le.
          let same = t.tokens_lem k l in
          let b = prefix_above (key / 2 ^ 112 + 1) tokens k t.sorted l (omega arith) in
          let a = block_of (key / 2 ^ 112 + 1) in
          let c = first_le in covered k (before_prefix (key / 2 ^ 112 + 1) tokens) first last b a c;
      fresh = refl;
    }
      where
        covered :
            (k count first last : ℕ)
            → k < count
            → last ≡ (max count 1 - 1) / block_keys
            → first ≤ last
            → k < (first + (last + 1 - first)) * block_keys
        covered k count first last l e le = ground (arith, l, e, le)

  AreCandidates-wider :
      (a b : ℕ) (searches : List Search)
      → a ≤ b
      → AreCandidates keys (length tokens) n a searches
      → AreCandidates keys (length tokens) n b searches
  AreCandidates-wider a b [] le c = tt
  AreCandidates-wider a b (s ∷ searches) le (c, small, cs) =
      (c, omega arith, AreCandidates-wider a b searches le cs)

  start_searches_lem :
      (t : IsTable) (bytes : Bytes) (at win : List ℕ)
      → ((a : ℕ) → window_key bytes a < 2 ^ 128)
      → AreWindows at win
      → (searches : List Search) × (start_searches m bytes at win ≡ some searches)
        × (inputs searches ≡ window_inputs bytes at win)
        × (largest m searches ≤ n)
        × AreCandidates keys (length tokens) n (largest m searches) searches
  unfolding start_searches
  start_searches_lem t bytes [] [] small w = ([], refl, refl, omega arith, tt)
  start_searches_lem t bytes [] (b ∷ win) small w = absurd w
  start_searches_lem t bytes (a ∷ at) [] small w = absurd w
  start_searches_lem t bytes (a ∷ at) (b ∷ win) small (one, wide, w) =
      let (rest, e, same, le, cs) = start_searches_lem t bytes at win small w in
      let key = window_key bytes a in
      let s = candidates t key b (small a) in
      let c = candidates-IsCandidates t key b (small a) in
      let k = small a in
      (
        s ∷ rest,
        rw (
          start_searches,
          t.first_blocks_lem (key / 2 ^ 112) (omega arith),
          t.first_blocks_lem (key / 2 ^ 112 + 1) (omega arith),
          e,
        ),
        ap (λ (xs : List (ℕ × ℕ)). (key, b) ∷ xs) same,
        ground (arith, le, c.inside),
        (
          c,
          ground arith,
          AreCandidates-wider (largest m rest) (largest m (s ∷ rest)) rest (ground arith) cs,
        ),
      )

  -- The number of steps is enough for the largest search.
  pub start_searches-AreCandidates :
      (t : IsTable) (bytes : Bytes) (at win : List ℕ)
      → ((a : ℕ) → window_key bytes a < 2 ^ 128)
      → AreWindows at win
      → (searches : List Search) × (start_searches m bytes at win ≡ some searches)
        × (inputs searches ≡ window_inputs bytes at win)
        × AreCandidates keys (length tokens) n (2 ^ bit_length 64 (largest m searches - 1)) searches
  start_searches-AreCandidates t bytes at win small w =
      let (searches, e, same, le, cs) = start_searches_lem t bytes at win small w in
      let a = t.num_blocks in
      let b = t.few in
      let steps = lt_bit_length 64 (largest m searches - 1) (omega arith) in
      (
        searches,
        e,
        same,
        AreCandidates-wider (largest m searches) (2 ^ bit_length 64 (largest m searches - 1))
            searches (omega arith) cs,
      )
