-- ===== src/Encoding/DictionaryMatcher/Promise.antt =====
-- encoding/dictionary_matcher.rs: the matcher of a sorted, complete dictionary gives what the lanes need.
use onpair.Common.{
  ℕ, zero, suc, ◌+◌, ◌-◌, ◌*◌, ◌^◌, min, ◌≤◌, ◌<◌, ◌≡◌, ◌∙◌, refl, sym, ap, subst, some, arith,
  List, [], ◌∷◌, Bytes, length, length-drop, take, drop, get_elem?, get_or, get_or-drop, lt→leb,
  le→leb, dec_lt,
}
use onpair.Core.Types.{Token, max_token_size}
use onpair.Dictionary.View.{DictionaryView, Tokens, tok, Represents, IsSorted, IsComplete, AreBytes}
use onpair.Search.Lookup.Longest.{IsLongest}
use onpair.Encoding.Lanes.Finder.{AreWindows, AreFound, IsMatcher}
use onpair.Encoding.DictionaryMatcher.{
  DictionaryMatcher, PrefixChain, block_keys, from_be_bytes, buffer, from_dictionary,
}
use onpair.Encoding.DictionaryMatcher.Keys.{from_be_bytes_lt, length-buffer, buffer-AreBytes}
use onpair.Encoding.DictionaryMatcher.Prefixes.{common_bytes}
use onpair.Encoding.DictionaryMatcher.Records.{Records}
use onpair.Encoding.DictionaryMatcher.Built.{token_key}
use onpair.Encoding.DictionaryMatcher.Find.{
  Search, window_key, match_of, matches_of, find_all, matcher_of, bit_length, largest,
}
use onpair.Encoding.DictionaryMatcher.Placed.{
  IsPlaced, ArePlaced, inputs, key_at_lem, sample_loop-AreCandidates, slot_loop-ArePlaced,
}
use onpair.Encoding.DictionaryMatcher.Start.{window_inputs, start_searches-AreCandidates}
use onpair.Encoding.DictionaryMatcher.Matched.{IsCovering, match_of-IsLongest}
use onpair.Encoding.DictionaryMatcher.Covering.{take-buffer, token-IsCovering, pad-IsCovering}
use onpair.Encoding.DictionaryMatcher.Frozen.{IsFrozen, from_dictionary-IsFrozen}

cons_nil : {A : Type 0} (x : A) (xs : List A) → x ∷ xs ≡ [] → ⊥
cons_nil x xs e = let q : suc (length xs) ≡ 0 = ap length e in omega arith

-- The 16 bytes that a search compares.
abbrev window_bytes : Bytes → ℕ → Bytes
window_bytes bytes at = buffer 16 (drop at bytes)

buffer-take : (n : ℕ) (s : Bytes) → n ≤ length s → take n s ≡ buffer n s
buffer-take zero s l = refl
buffer-take (suc n) [] l = absurd (omega arith)
buffer-take (suc n) (b ∷ s) l = ap (λ (x : Bytes). b ∷ x) (buffer-take n s (omega arith))

drop_past : (n : ℕ) (s : Bytes) → drop (min n (length s)) s ≡ drop n s
drop_past n s = elim (dec_lt (length s) n) [
  | yes past ↦
      ap (λ (k : ℕ). drop k s) (past_end past)
      ∙ drop_all (length s) s (omega arith)
      ∙ sym (drop_all n s (omega arith))
  | no inside ↦ ap (λ (k : ℕ). drop k s) (not_past inside)
]
  where
    past_end : length s < n → min n (length s) ≡ length s
    past_end h = omega arith

    not_past : ¬ (length s < n) → min n (length s) ≡ n
    not_past h = omega arith

    drop_all : (k : ℕ) (s : Bytes) → length s ≤ k → drop k s ≡ []
    drop_all zero [] h = refl
    drop_all zero (b ∷ s) h = absurd (omega arith)
    drop_all (suc k) [] h = refl
    drop_all (suc k) (b ∷ s) h = drop_all k s (omega arith)

-- Both branches read the same key.
window_key_lem :
    (bytes : Bytes) (at : ℕ) → window_key bytes at ≡ from_be_bytes (window_bytes bytes at)
unfolding window_key
window_key_lem bytes at = elim (dec_lt (length bytes) (at + max_token_size)) [
  | yes past ↦ rw (window_key, lt→leb (at + max_token_size) (length bytes) past, drop_past at bytes)
  | no inside ↦
      rw (window_key, le→leb (at + max_token_size) (length bytes) (omega arith))
        (ap from_be_bytes (buffer-take 16 (drop at bytes) (omega (arith, length-drop at bytes))))
]

drop-AreBytes : (bytes : Bytes) (at : ℕ) → AreBytes bytes → AreBytes (drop at bytes)
drop-AreBytes bytes at h i l =
    subst (λ (x : ℕ). x < 256) (sym (get_or-drop bytes at i 0))
      (h (at + i) (omega (arith, length-drop at bytes)))

module _ (toks : Tokens) (v : DictionaryView) (r : Represents v toks) (sorted : IsSorted toks)
    (bytes_lem : (i : ℕ) → i < length toks → AreBytes (tok toks i)) (complete : IsComplete toks)
    (m : DictionaryMatcher) (f : IsFrozen toks m) where
  -- The slot of a search, as an index of the padded keys.
  abbrev index_of : Search → ℕ
  index_of s = s.base * block_keys + s.slot

  -- The record of the slot covers the input.
  covered :
      (s : Search) (w : Bytes)
      → AreBytes w
      → length w ≡ 16
      → s.key ≡ from_be_bytes w
      → IsPlaced f.keys (length f.tokens) f.num_blocks 1 s
      → (c : PrefixChain) × (get_elem? m.chains (index_of s) ≡ some c)
        × ((stack : List Token) × Records toks c stack
            × IsCovering toks w (common_bytes (get_or f.keys (index_of s) 0) s.key) stack)
  covered s w hw size key p = elim (dec_lt (index_of s) (length toks)) [
    | yes inside ↦
        let (c, ec, (below, hs, R)) = f.chains_lem (index_of s) inside in
        let found = f.tokens_lem (index_of s) inside in
        let cover =
          token-IsCovering toks v r sorted bytes_lem w hw size (index_of s) below inside hs
            (le_of found key p.reached)
            (λ k l le. last_of k (p.last k (count_lt l) (le_of_key k l key le))) in
        (
          c,
          ec,
          (
            index_of s ∷ below,
            R,
            subst (λ (x : ℕ). IsCovering toks w x (index_of s ∷ below))
                (ap (λ (x : ℕ). common_bytes x (from_be_bytes w)) (sym found)
                  ∙ ap (common_bytes (get_or f.keys (index_of s) 0)) (sym key))
                cover,
          ),
        )
    | no past ↦
        let room = f.searchable.size_lem in
        let a = p.in_blocks in
        let b = p.in_block in
        let within : index_of s < length f.keys = in_keys (s.base) (s.slot) a b room in
        let found = f.pads_lem (index_of s) (omega arith) within in
        let (c, ec, (stack, pads, R)) = f.pad_chains_lem (index_of s) (omega arith) within in
        let cover = pad-IsCovering toks v r w hw size stack pads (le_of found key p.reached) in
        (
          c,
          ec,
          (
            stack,
            R,
            subst (λ (x : ℕ). IsCovering toks w x stack)
                (ap (λ (x : ℕ). common_bytes x (from_be_bytes w)) (sym found)
                  ∙ ap (common_bytes (get_or f.keys (index_of s) 0)) (sym key))
                cover,
          ),
        )
  ]
    where
      le_of : {x y a b : ℕ} → x ≡ y → a ≡ b → x ≤ a → y ≤ b
      le_of e e' l = omega arith

      count_lt : {k : ℕ} → k < length toks → k < length f.tokens
      count_lt l = omega (arith, f.count)

      le_of_key :
          (k : ℕ)
          → k < length toks
          → s.key ≡ from_be_bytes w
          → token_key toks k ≤ from_be_bytes w
          → get_or f.keys k 0 ≤ s.key
      le_of_key k l e le = let q = f.tokens_lem k l in omega arith

      last_of : (k : ℕ) → k < index_of s + 1 → k ≤ index_of s
      last_of k l = omega arith

      in_keys :
          (base slot : ℕ)
          → base < f.num_blocks
          → slot + 1 ≤ block_keys
          → length f.keys ≡ f.num_blocks * block_keys
          → base * block_keys + slot < length f.keys
      in_keys base slot a b e = omega arith

  -- One input.
  found_one :
      (bytes : Bytes) (at win : ℕ) (s : Search)
      → AreBytes bytes
      → 1 ≤ win
      → win ≤ max_token_size
      → s.key ≡ window_key bytes at
      → s.win ≡ win
      → IsPlaced f.keys (length f.tokens) f.num_blocks 1 s
      → (u : Token) × (match_of m s ≡ some (u, length (tok toks u)))
        × (at + win ≤ length bytes
            → IsLongest toks (take win (drop at bytes)) (some (u, length (tok toks u))))
  found_one bytes at win s hb one wide key same p =
      let w = window_bytes bytes at in
      let hw = buffer-AreBytes 16 (drop at bytes) (drop-AreBytes bytes at hb) in
      let size = length-buffer 16 (drop at bytes) in
      let key_w = key ∙ window_key_lem bytes at in
      let (c, ec, (stack, R, cover)) = covered s w hw size key_w p in
      let slot =
        key_at_lem f.keys (length f.tokens) f.num_blocks m f.searchable f.enough s.base s.slot
          p.in_blocks (omega (arith, p.in_block)) in
      let (u, e, h) =
        match_of-IsLongest toks v r complete m f.singles_lem w hw size s
          (get_or f.keys (index_of s) 0) c stack key_w (omega arith) slot ec R cover in
      (
        u,
        e,
        λ fit.
            subst (λ (x : Bytes). IsLongest toks x (some (u, length (tok toks u))))
              (ap (λ (x : ℕ). take x w) same
                ∙ take-buffer 16 win (drop at bytes) wide (omega (arith, length-drop at bytes)))
              h,
      )

  matches_of-AreFound :
      (bytes : Bytes) (at win : List ℕ) (searches : List Search)
      → AreBytes bytes
      → AreWindows at win
      → inputs searches ≡ window_inputs bytes at win
      → ArePlaced f.keys (length f.tokens) f.num_blocks 1 searches
      → (found : List (Token × ℕ)) × (matches_of m searches ≡ some found)
        × AreFound toks bytes at win found
  unfolding matches_of
  matches_of-AreFound bytes [] [] [] hb w e p = ([], refl, tt)
  matches_of-AreFound bytes [] [] (s ∷ searches) hb w e p =
      absurd (cons_nil (s.key, s.win) (inputs searches) e)
  matches_of-AreFound bytes [] (b ∷ win) searches hb w e p = absurd w
  matches_of-AreFound bytes (a ∷ at) [] searches hb w e p = absurd w
  matches_of-AreFound bytes (a ∷ at) (b ∷ win) [] hb w e p =
      absurd (cons_nil (window_key bytes a, b) (window_inputs bytes at win) (sym e))
  matches_of-AreFound bytes (a ∷ at) (b ∷ win) (s ∷ searches) hb (one, wide, w) e (p, ps) =
      let (u, eu, hu) = found_one bytes a b s hb one wide (head_key e) (head_win e) p in
      let (found, ef, hf) = matches_of-AreFound bytes at win searches hb w (ap (drop 1) e) ps in
      ((u, length (tok toks u)) ∷ found, rw (matches_of, eu, ef), (hu, hf))
    where
      first_of : List (ℕ × ℕ) → ℕ × ℕ
      first_of [] = (0, 0)
      first_of (x ∷ xs) = x

      head_key :
          inputs (s ∷ searches) ≡ window_inputs bytes (a ∷ at) (b ∷ win)
          → s.key ≡ window_key bytes a
      head_key q = ap (λ (xs : List (ℕ × ℕ)). (first_of xs).0) q

      head_win : inputs (s ∷ searches) ≡ window_inputs bytes (a ∷ at) (b ∷ win) → s.win ≡ b
      head_win q = ap (λ (xs : List (ℕ × ℕ)). (first_of xs).1) q

  -- All inputs of one call.
  find_all-AreFound :
      (bytes : Bytes) (at win : List ℕ)
      → AreBytes bytes
      → AreWindows at win
      → (found : List (Token × ℕ)) × (find_all m bytes at win ≡ some found)
        × AreFound toks bytes at win found
  unfolding find_all
  find_all-AreFound bytes at win hb w =
      let (searches, e, same, c) =
        start_searches-AreCandidates f.tokens f.keys f.num_blocks m f.searchable f.table bytes at
          win small w in
      let (placed, e', same', c') =
        sample_loop-AreCandidates f.keys (length f.tokens) f.num_blocks m f.searchable f.enough
          (bit_length 64 (largest m searches - 1)) searches c in
      let (slotted, e'', same'', p) =
        slot_loop-ArePlaced f.keys (length f.tokens) f.num_blocks m f.searchable f.enough placed
          c' in
      let (found, ef, hf) =
        matches_of-AreFound bytes at win slotted hb w (same'' ∙ same' ∙ same) p in
      (found, rw (find_all, e, e', e'', ef), hf)
    where
      small : (a : ℕ) → window_key bytes a < 2 ^ 128
      small a =
          let k = window_key_lem bytes a in
          let l =
            from_be_bytes_lt (window_bytes bytes a)
              (buffer-AreBytes 16 (drop a bytes) (drop-AreBytes bytes a hb)) in
          let power : 256 ^ length (window_bytes bytes a) ≡ 2 ^ 128 =
            ap (λ (n : ℕ). 256 ^ n) (length-buffer 16 (drop a bytes)) in
          omega arith

pub from_dictionary-IsMatcher :
    (toks : Tokens) (v : DictionaryView)
    → Represents v toks
    → IsSorted toks
    → IsComplete toks
    → ((i : ℕ) → i < length toks → AreBytes (tok toks i))
    → (m : DictionaryMatcher) × (from_dictionary v ≡ some m) × IsMatcher toks (matcher_of m)
from_dictionary-IsMatcher toks v r sorted complete bytes =
    let (m, e, f) = from_dictionary-IsFrozen toks v r sorted bytes complete in
    (
      m,
      e,
      record {
        find_all_lem =
            λ s at win hs w. find_all-AreFound toks v r sorted bytes complete m f s at win hs w;
      },
    )

-- Every window is inside the bytes.
abbrev pub AreInside : Bytes → List ℕ → List ℕ → Type 0
AreInside bytes (a ∷ at) (w ∷ win) = (a + w ≤ length bytes) × AreInside bytes at win
AreInside bytes at win = Unit

-- For each window, the longest token that is a prefix of it, and its length.
abbrev pub AreLongest : Tokens → Bytes → List ℕ → List ℕ → List (Token × ℕ) → Type 0
AreLongest toks bytes [] win [] = Unit
AreLongest toks bytes (a ∷ at) (w ∷ win) (f ∷ found) =
    IsLongest toks (take w (drop a bytes)) (some f) × AreLongest toks bytes at win found
AreLongest toks bytes at win found = ⊥

inside-AreLongest :
    (toks : Tokens) (bytes : Bytes) (at win : List ℕ) (found : List (Token × ℕ))
    → AreWindows at win
    → AreInside bytes at win
    → AreFound toks bytes at win found
    → AreLongest toks bytes at win found
inside-AreLongest toks bytes [] [] [] w i h = tt
inside-AreLongest toks bytes [] [] (f ∷ found) w i h = absurd h
inside-AreLongest toks bytes [] (b ∷ win) found w i h = absurd w
inside-AreLongest toks bytes (a ∷ at) [] found w i h = absurd w
inside-AreLongest toks bytes (a ∷ at) (b ∷ win) [] w i h = absurd h
inside-AreLongest toks bytes (a ∷ at) (b ∷ win) (f ∷ found) (one, wide, w) (fit, i) (h, hs) =
    (h fit, inside-AreLongest toks bytes at win found w i hs)

module _ (toks : Tokens) (v : DictionaryView) (r : Represents v toks) (sorted : IsSorted toks)
    (complete : IsComplete toks)
    (token_bytes : (i : ℕ) → i < length toks → AreBytes (tok toks i)) where
  -- For a view of a strictly sorted dictionary of u8 tokens with every single byte,
  -- from_dictionary does not panic, and find_all of its matcher on u8 bytes does not panic and
  -- gives, for each window of 1 to 16 bytes inside them, the longest token that is a prefix of
  -- the window, and its length.
  pub find_all-AreLongest :
      (bytes : Bytes) (at win : List ℕ)
      → AreBytes bytes
      → AreWindows at win
      → AreInside bytes at win
      → (m : DictionaryMatcher) × (from_dictionary v ≡ some m)
        × ((found : List (Token × ℕ)) × (find_all m bytes at win ≡ some found)
            × AreLongest toks bytes at win found)
  find_all-AreLongest bytes at win hb w i =
      let (m, e, f) = from_dictionary-IsFrozen toks v r sorted token_bytes complete in
      let (found, e', h) =
        find_all-AreFound toks v r sorted token_bytes complete m f bytes at win hb w in
      (m, e, (found, e', inside-AreLongest toks bytes at win found w i h))
