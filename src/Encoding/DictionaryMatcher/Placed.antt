-- ===== src/Encoding/DictionaryMatcher/Placed.antt =====
-- encoding/dictionary_matcher.rs, `find_all`: the searches find the last token at most their key.
use onpair.Common.{
  ℕ, zero, suc, ◌+◌, ◌-◌, ◌*◌, ◌/◌, ◌^◌, ◌≤◌, ◌<◌, ◌≡◌, ◌∙◌, refl, sym, ap, subst, some, arith,
  List, [], ◌∷◌, length, get_elem?, get_elem?-eq-get_or, get_or, dec_lt, ◌>>=◌,
}
use native.Mathlib.Omega.{pow_step}
use onpair.Encoding.DictionaryMatcher.{DictionaryMatcher, block_keys, chunks}
use onpair.Encoding.DictionaryMatcher.Find.{
  Search, advance_if_le, key_at, halve, sample_loop, step_slots, slot_loop,
}
use onpair.Encoding.DictionaryMatcher.Sorted.{chunks-get_elem?}

-- The matcher holds the sorted keys `keys` in `n` blocks.
pub record IsSearchable (keys : List ℕ) (n : ℕ) (m : DictionaryMatcher) : Type 0 where
  pub blocks_lem : m.blocks ≡ chunks n keys
  pub samples_lem : (b : ℕ) → b < n → get_elem? m.samples b ≡ get_elem? keys (b * block_keys)
  pub size_lem : length keys ≡ n * block_keys
  pub ascending : (i j : ℕ) → i ≤ j → j < length keys → get_or keys i 0 ≤ get_or keys j 0

-- The key and the window of each search.
abbrev pub inputs : List Search → List (ℕ × ℕ)
inputs [] = []
inputs (s ∷ searches) = (s.key, s.win) ∷ inputs searches

module _ (keys : List ℕ) (tokens n : ℕ) where
  -- The last token at most the key is in the candidate blocks.
  pub record IsCandidates (s : Search) : Type 0 where
    pub at_least : get_or keys (s.base * block_keys) 0 ≤ s.key
    pub inside : s.base + s.size ≤ n
    pub nonempty : 1 ≤ s.size
    pub covers : (k : ℕ) → k < tokens → get_or keys k 0 ≤ s.key → k < (s.base + s.size) * block_keys
    pub fresh : s.slot ≡ 0

  abbrev pub AreCandidates : ℕ → List Search → Type 0
  AreCandidates bound [] = Unit
  AreCandidates bound (s ∷ searches) =
      IsCandidates s × (s.size ≤ bound) × AreCandidates bound searches

  -- The last token at most the key is among the `span` keys from the slot on.
  pub record IsPlaced (span : ℕ) (s : Search) : Type 0 where
    pub in_blocks : s.base < n
    pub in_block : s.slot + span ≤ block_keys
    pub reached : get_or keys (s.base * block_keys + s.slot) 0 ≤ s.key
    pub last :
        (k : ℕ) → k < tokens → get_or keys k 0 ≤ s.key → k < s.base * block_keys + s.slot + span

  abbrev pub ArePlaced : ℕ → List Search → Type 0
  ArePlaced span [] = Unit
  ArePlaced span (s ∷ searches) = IsPlaced span s × ArePlaced span searches

module _ (keys : List ℕ) (tokens n : ℕ) (m : DictionaryMatcher) (h : IsSearchable keys n m)
    (enough : tokens ≤ length keys) where
  sample_at : (b : ℕ) → b < n → get_elem? m.samples b ≡ some (get_or keys (b * block_keys) 0)
  sample_at b l =
      h.samples_lem b l ∙ get_elem?-eq-get_or keys (b * block_keys) 0 (omega (arith, h.size_lem))

  pub key_at_lem :
      (b s : ℕ) → b < n → s < block_keys → key_at m b s ≡ some (get_or keys (b * block_keys + s) 0)
  key_at_lem b s l l' =
      ap
        (λ (blocks : List (List ℕ)). get_elem? blocks b >>= (λ (block : List ℕ). get_elem? block s))
        h.blocks_lem
      ∙ chunks-get_elem? n keys b s l l'
      ∙ get_elem?-eq-get_or keys (b * block_keys + s) 0 (omega (arith, h.size_lem))

  -- A token at most the key stands before a key above it.
  before : (k i x : ℕ) → k < tokens → get_or keys k 0 ≤ x → x < get_or keys i 0 → k < i
  before k i x l le lt = elim (dec_lt k i) [
    | yes less ↦ less
    | no ge ↦ let a = h.ascending i k (omega arith) (omega arith) in absurd (omega arith)
  ]

  halved : Search → Search
  halved s = record {
    key = s.key;
    win = s.win;
    base =
        advance_if_le (get_or keys ((s.base + s.size / 2) * block_keys) 0) s.key s.base
          (s.size / 2);
    size = s.size - s.size / 2;
    slot = s.slot;
  }

  halved-IsCandidates :
      (s : Search) → IsCandidates keys tokens n s → IsCandidates keys tokens n (halved s)
  unfolding halved
  halved-IsCandidates s c =
      elim (dec_lt s.key (get_or keys ((s.base + s.size / 2) * block_keys) 0)) [
        | yes above ↦
            let stay : advance_if_le (get_or keys ((s.base + s.size / 2) * block_keys) 0) s.key
                  s.base (s.size / 2)
                ≡ s.base =
              ground (arith, above) in
            record {
              at_least =
                  subst (λ (b : ℕ). get_or keys (b * block_keys) 0 ≤ s.key) (sym stay) c.at_least;
              inside = omega (arith, stay, c.inside);
              nonempty = omega (arith, c.nonempty);
              covers = λ k l le.
                  let b = before k ((s.base + s.size / 2) * block_keys) s.key l le above in
                  omega arith;
              fresh = c.fresh;
            }
        | no below ↦
            let move : advance_if_le (get_or keys ((s.base + s.size / 2) * block_keys) 0) s.key
                  s.base (s.size / 2)
                ≡ s.base + s.size / 2 =
              ground (arith, below) in
            record {
              at_least =
                  subst (λ (b : ℕ). get_or keys (b * block_keys) 0 ≤ s.key) (sym move)
                    (omega arith);
              inside = omega (arith, move, c.inside);
              nonempty = omega (arith, c.nonempty);
              covers = λ k l le. let b = c.covers k l le in omega arith;
              fresh = c.fresh;
            }
      ]

  halve-AreCandidates :
      (t : ℕ) (searches : List Search)
      → AreCandidates keys tokens n (2 ^ suc t) searches
      → (next : List Search) × (halve m searches ≡ some next)
        × (inputs next ≡ inputs searches)
        × AreCandidates keys tokens n (2 ^ t) next
  unfolding halve halved
  halve-AreCandidates t [] c = ([], refl, refl, tt)
  halve-AreCandidates t (s ∷ searches) (c, small, cs) =
      let (next, e, same, cn) = halve-AreCandidates t searches cs in
      (
        halved s ∷ next,
        rw (
          halve,
          sample_at (s.base + s.size / 2) (omega (arith, c.inside, c.nonempty)),
          e,
          halved,
        ),
        ap (λ (rest : List (ℕ × ℕ)). (s.key, s.win) ∷ rest) same,
        (halved-IsCandidates s c, omega (arith, pow_step 2 t, small), cn),
      )

  pub sample_loop-AreCandidates :
      (t : ℕ) (searches : List Search)
      → AreCandidates keys tokens n (2 ^ t) searches
      → (next : List Search) × (sample_loop m t searches ≡ some next)
        × (inputs next ≡ inputs searches)
        × AreCandidates keys tokens n 1 next
  unfolding sample_loop
  sample_loop-AreCandidates zero searches c = (searches, refl, refl, c)
  sample_loop-AreCandidates (suc t) searches c =
      let (next, e, same, cn) = halve-AreCandidates t searches c in
      let (last, e', same', cl) = sample_loop-AreCandidates t next cn in
      (last, rw (sample_loop, e, e'), same' ∙ same, cl)

  AreCandidates-ArePlaced :
      (searches : List Search)
      → AreCandidates keys tokens n 1 searches
      → ArePlaced keys tokens n block_keys searches
  AreCandidates-ArePlaced [] c = tt
  AreCandidates-ArePlaced (s ∷ searches) (c, small, cs) = (
    record {
      in_blocks = omega (arith, c.inside, c.nonempty);
      in_block = omega (arith, c.fresh);
      reached = subst (λ (i : ℕ). get_or keys i 0 ≤ s.key) (start s.slot s.base c.fresh) c.at_least;
      last = λ k l le. let b = c.covers k l le in let e = c.fresh in omega arith;
    },
    AreCandidates-ArePlaced searches cs,
  )
    where
      start : (slot base : ℕ) → slot ≡ 0 → base * block_keys ≡ base * block_keys + slot
      start slot base e = omega arith

  stepped : ℕ → Search → Search
  stepped half s = record {
    key = s.key;
    win = s.win;
    base = s.base;
    size = s.size;
    slot = advance_if_le (get_or keys (s.base * block_keys + (s.slot + half)) 0) s.key s.slot half;
  }

  stepped-IsPlaced :
      (half : ℕ) (s : Search)
      → 1 ≤ half
      → IsPlaced keys tokens n (half + half) s
      → IsPlaced keys tokens n half (stepped half s)
  unfolding stepped
  stepped-IsPlaced half s one p =
      elim (dec_lt s.key (get_or keys (s.base * block_keys + (s.slot + half)) 0)) [
        | yes above ↦
            let stay : advance_if_le (get_or keys (s.base * block_keys + (s.slot + half)) 0) s.key
                  s.slot half
                ≡ s.slot =
              ground (arith, above) in
            record {
              in_blocks = p.in_blocks;
              in_block = omega (arith, stay, p.in_block);
              reached =
                  subst (λ (i : ℕ). get_or keys (s.base * block_keys + i) 0 ≤ s.key) (sym stay)
                    p.reached;
              last = λ k l le.
                  let b = before k (s.base * block_keys + (s.slot + half)) s.key l le above in
                  omega arith;
            }
        | no below ↦
            let move : advance_if_le (get_or keys (s.base * block_keys + (s.slot + half)) 0) s.key
                  s.slot half
                ≡ s.slot + half =
              ground (arith, below) in
            record {
              in_blocks = p.in_blocks;
              in_block = omega (arith, move, p.in_block);
              reached =
                  subst (λ (i : ℕ). get_or keys (s.base * block_keys + i) 0 ≤ s.key) (sym move)
                    (omega arith);
              last = λ k l le. let b = p.last k l le in omega arith;
            }
      ]

  step_slots-ArePlaced :
      (half : ℕ) (searches : List Search)
      → 1 ≤ half
      → ArePlaced keys tokens n (half + half) searches
      → (next : List Search) × (step_slots m half searches ≡ some next)
        × (inputs next ≡ inputs searches)
        × ArePlaced keys tokens n half next
  unfolding step_slots stepped
  step_slots-ArePlaced half [] one p = ([], refl, refl, tt)
  step_slots-ArePlaced half (s ∷ searches) one (p, ps) =
      let (next, e, same, pn) = step_slots-ArePlaced half searches one ps in
      (
        stepped half s ∷ next,
        rw (
          step_slots,
          key_at_lem s.base (s.slot + half) p.in_blocks (omega (arith, p.in_block)),
          e,
          stepped,
        ),
        ap (λ (rest : List (ℕ × ℕ)). (s.key, s.win) ∷ rest) same,
        (stepped-IsPlaced half s one p, pn),
      )

  -- Three steps over the eight slots, and a fourth round that stops.
  pub slot_loop-ArePlaced :
      (searches : List Search)
      → AreCandidates keys tokens n 1 searches
      → (next : List Search) × (slot_loop m 4 (block_keys / 2) searches ≡ some next)
        × (inputs next ≡ inputs searches)
        × ArePlaced keys tokens n 1 next
  unfolding slot_loop
  slot_loop-ArePlaced searches c =
      let (s1, e1, i1, p1) =
        step_slots-ArePlaced 4 searches (omega arith) (AreCandidates-ArePlaced searches c) in
      let (s2, e2, i2, p2) = step_slots-ArePlaced 2 s1 (omega arith) p1 in
      let (s3, e3, i3, p3) = step_slots-ArePlaced 1 s2 (omega arith) p2 in
      (s3, rw (slot_loop, e1, slot_loop, e2, slot_loop, e3, slot_loop), i3 ∙ i2 ∙ i1, p3)
