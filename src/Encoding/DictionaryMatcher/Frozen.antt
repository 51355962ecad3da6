-- ===== src/Encoding/DictionaryMatcher/Frozen.antt =====
-- encoding/dictionary_matcher.rs, `from_dictionary`: what the matcher holds.
use onpair.Common.{
  ℕ, zero, suc, ◌+◌, ◌-◌, ◌*◌, ◌/◌, ◌^◌, ◌≤◌, ◌<◌, ◌≡◌, ◌∙◌, refl, sym, ap, subst, some, none,
  arith, List, [], ◌∷◌, ◌++◌, Bytes, length, length-append, length-replicate, get_elem?, get_or,
  replicate, map, dec_lt, ℕ_discrete,
}
use onpair.Common.Memory.{get_or-replicate}
use onpair.Core.Types.{Token}
use onpair.Dictionary.View.{DictionaryView, Tokens, tok, Represents, IsSorted, IsComplete, AreBytes}
use onpair.Encoding.DictionaryMatcher.{
  DictionaryMatcher, PrefixChain, Building, block_keys, prefix_slots, key_max, from_be_bytes,
  buffer, first_block, chunks, count_starts, sum_starts, from_dictionary, token_loop, retain_max,
  new_chain, first_keys,
}
use onpair.Encoding.DictionaryMatcher.Keys.{
  from_be_bytes_lt, length-buffer, buffer-AreBytes, buffer-LexLe,
}
use onpair.Encoding.DictionaryMatcher.Records.{Records, new_chain-Records}
use onpair.Encoding.DictionaryMatcher.Built.{
  token_key, IsChainOf, HasSingles, IsBuilt, token_loop-IsBuilt,
}
use onpair.Encoding.DictionaryMatcher.Sorted.{
  first_keys-chunks, get_elem?-append_left, get_elem?-append_right, get_elem?-replicate,
}
use onpair.Encoding.DictionaryMatcher.Counts.{
  AreKeys, before_prefix, before_prefix_zero, with_prefix, count_starts_lem, sum_starts_lem,
}
use onpair.Encoding.DictionaryMatcher.Placed.{IsSearchable}
use onpair.Encoding.DictionaryMatcher.Start.{IsAscending, IsTable}
use onpair.Encoding.DictionaryMatcher.Covering.{IsPads, from_be_bytes-LexLe}
use onpair.Encoding.DictionaryMatcher.Pads.{retain_max-IsPads}

-- The matcher holds the keys of the tokens and the pads, with their records.
pub record IsFrozen (toks : Tokens) (m : DictionaryMatcher) : Type 0 where
  pub tokens : List ℕ
  pub keys : List ℕ
  pub num_blocks : ℕ
  pub searchable : IsSearchable keys num_blocks m
  pub table : IsTable tokens keys num_blocks m searchable
  pub count : length tokens ≡ length toks
  pub enough : length tokens ≤ length keys
  pub tokens_lem : (k : ℕ) → k < length toks → get_or keys k 0 ≡ token_key toks k
  pub pads_lem : (k : ℕ) → length toks ≤ k → k < length keys → get_or keys k 0 ≡ key_max
  pub chains_lem :
      (k : ℕ)
      → k < length toks
      → (c : PrefixChain) × (get_elem? m.chains k ≡ some c) × IsChainOf toks k c
  pub pad_chains_lem :
      (k : ℕ)
      → length toks ≤ k
      → k < length keys
      → (c : PrefixChain) × (get_elem? m.chains k ≡ some c)
        × ((stack : List Token) × IsPads toks stack × Records toks c stack)
  pub singles_lem : HasSingles toks (length toks) m.singles

get_or_of : (xs : List ℕ) (k x : ℕ) → get_elem? xs k ≡ some x → get_or xs k 0 ≡ x
get_or_of [] k x e = absurd (none_some e)
  where
    none_some : none ≡ some x → ⊥
    none_some q = ground (arith, q)
get_or_of (y ∷ xs) zero x e = ground (arith, e)
get_or_of (y ∷ xs) (suc k) x e = get_or_of xs k x e

AreKeys-all : (xs : List ℕ) → ((k : ℕ) → k < length xs → get_or xs k 0 < 2 ^ 128) → AreKeys xs
AreKeys-all [] h = tt
AreKeys-all (x ∷ xs) h = (h 0 (omega arith), AreKeys-all xs (λ k l. h (suc k) (omega arith)))

get_elem?-map :
    (f : ℕ → ℕ) (xs : List ℕ) (k : ℕ)
    → k < length xs
    → get_elem? (map f xs) k ≡ some (f (get_or xs k 0))
get_elem?-map f [] k l = absurd (omega arith)
get_elem?-map f (x ∷ xs) zero l = refl
get_elem?-map f (x ∷ xs) (suc k) l = get_elem?-map f xs k (omega arith)

abbrev begin : Building
begin = record { keys = []; chain = []; chains = []; singles = replicate 256 0 }

abbrev blocks_of : ℕ → ℕ
blocks_of n = n / block_keys + 1

abbrev padded_keys : ℕ → Building → List ℕ
padded_keys n b = b.keys ++ replicate (blocks_of n * block_keys - n) key_max

abbrev assembled : ℕ → Building → List ℕ → PrefixChain → List ℕ → DictionaryMatcher
assembled n b starts pad samples = record {
  blocks = chunks (blocks_of n) (padded_keys n b);
  samples = samples;
  first_blocks = map first_block starts;
  chains = b.chains ++ replicate (length (padded_keys n b) - n) pad;
  singles = b.singles;
}

-- The parts of a matcher of `n` tokens.
module _ (v : DictionaryView) (b : Building) (counts starts : List ℕ) (kept : List Token)
    (pad : PrefixChain) (samples : List ℕ) where
  abbrev IsAssembled : ℕ → Type 0
  IsAssembled n =
      token_loop v n 0 begin ≡ some b
      → first_keys (chunks (blocks_of n) (padded_keys n b)) ≡ some samples
      → from_dictionary v ≡ some (assembled n b starts pad samples)

  from_dictionary-IsAssembled :
      (n : ℕ)
      → v.num_tokens ≡ n
      → count_starts b.keys (replicate (prefix_slots + 1) 0) ≡ some counts
      → sum_starts prefix_slots 0 counts ≡ some starts
      → retain_max v b.chain ≡ some kept
      → new_chain v kept ≡ some pad
      → IsAssembled n
  unfolding from_dictionary
  from_dictionary-IsAssembled n en ec es ek ep =
      subst IsAssembled en (λ e ef. rw (from_dictionary, e, ec, es, ek, ep, ef))

module _ (toks : Tokens) (v : DictionaryView) (r : Represents v toks) (sorted : IsSorted toks)
    (bytes : (i : ℕ) → i < length toks → AreBytes (tok toks i)) (complete : IsComplete toks) where
  key_small : (k : ℕ) → k < length toks → token_key toks k < 2 ^ 128
  key_small k l =
      let small =
        from_be_bytes_lt (buffer 16 (tok toks k)) (buffer-AreBytes 16 (tok toks k) (bytes k l)) in
      let power : 256 ^ length (buffer 16 (tok toks k)) ≡ 2 ^ 128 =
        ap (λ (n : ℕ). 256 ^ n) (length-buffer 16 (tok toks k)) in
      omega arith

  key_mono : (i j : ℕ) → i ≤ j → j < length toks → token_key toks i ≤ token_key toks j
  key_mono i j le l = elim (ℕ_discrete i j) [
    | yes e ↦ let q = ap (token_key toks) e in omega arith
    | no ne ↦
        from_be_bytes-LexLe (buffer 16 (tok toks i)) (buffer 16 (tok toks j))
          (length-buffer 16 (tok toks i) ∙ sym (length-buffer 16 (tok toks j)))
          (buffer-AreBytes 16 (tok toks i) (bytes i (omega arith)))
          (buffer-AreBytes 16 (tok toks j) (bytes j l))
          (buffer-LexLe 16 (tok toks i) (tok toks j) (r.bounded i (omega arith))
            (sorted i j (omega arith) l))
  ]

  not_empty : 1 ≤ length toks
  not_empty = let (t, l, e) = complete 0 (omega arith) in omega arith

  -- The first key is zero.
  first_zero : token_key toks 0 ≡ 0
  first_zero =
      let (t, l, e) = complete 0 (omega arith) in
      let z : token_key toks t ≡ 0 = ap (λ (x : Bytes). from_be_bytes (buffer 16 x)) e in
      let le = key_mono 0 t (omega arith) l in omega arith

  -- What the loop over the tokens built, with pads behind it.
  module _ (b : Building) (hb : IsBuilt toks (length toks) b) where
    abbrev blocks : ℕ
    blocks = blocks_of (length toks)

    abbrev padded : List ℕ
    padded = padded_keys (length toks) b

    length-padded : length padded ≡ blocks * block_keys
    length-padded =
        length-append b.keys (replicate (blocks * block_keys - length toks) key_max)
        ∙ omega (arith, hb.num_keys, length-replicate (blocks * block_keys - length toks) key_max)

    key_token : (k : ℕ) → k < length toks → get_or b.keys k 0 ≡ token_key toks k
    key_token k l = get_or_of b.keys k (token_key toks k) (hb.keys_lem k l)

    padded_token : (k : ℕ) → k < length toks → get_or padded k 0 ≡ token_key toks k
    padded_token k l = get_or_of padded k (token_key toks k) (
        get_elem?-append_left b.keys (replicate (blocks * block_keys - length toks) key_max) k
          (omega (arith, hb.num_keys))
        ∙ hb.keys_lem k l)

    padded_pad : (k : ℕ) → length toks ≤ k → k < length padded → get_or padded k 0 ≡ key_max
    padded_pad k le l = get_or_of padded k key_max (
        get_elem?-append_right b.keys (replicate (blocks * block_keys - length toks) key_max) k
          (omega (arith, hb.num_keys))
        ∙ get_elem?-replicate (blocks * block_keys - length toks) (k - length b.keys) key_max
            (omega (arith, hb.num_keys, length-padded)))

    padded-IsAscending : IsAscending padded
    padded-IsAscending i j le l = elim (dec_lt j (length toks)) [
      | yes inside ↦
          let a = padded_token i (omega arith) in
          let c = padded_token j inside in let d = key_mono i j le inside in omega arith
      | no past ↦
          let c = padded_pad j (omega arith) l in
          elim (dec_lt i (length toks)) [
            | yes before ↦
                let a = padded_token i before in let d = key_small i before in omega arith
            | no pad ↦ let a = padded_pad i (omega arith) (omega arith) in omega arith
          ]
    ]

    tokens-IsAscending : IsAscending b.keys
    tokens-IsAscending i j le l =
        let n = hb.num_keys in
        let a = key_token i (omega arith) in
        let c = key_token j (omega arith) in let d = key_mono i j le (omega arith) in omega arith

    keys-AreKeys : AreKeys b.keys
    keys-AreKeys = AreKeys-all b.keys (λ k l.
        let n = hb.num_keys in
        let a = key_token k (omega arith) in let d = key_small k (omega arith) in omega arith)

  begin-IsBuilt : IsBuilt toks 0 begin
  begin-IsBuilt = record {
    num_keys = refl;
    keys_lem = λ k l. absurd (omega arith);
    num_chains = refl;
    chains_lem = λ k l. absurd (omega arith);
    stack_lem = record {
      nested = tt;
      seen = λ u h. absurd h;
      complete = λ j u q. absurd (omega arith);
    };
    num_singles = length-replicate {A = ℕ} 256 0;
    singles_lem = λ u l. absurd (omega arith);
  }

  -- The first token of each prefix.
  sums_of :
      (keys : List ℕ)
      → AreKeys keys
      → (counts starts : List ℕ) × (count_starts keys (replicate (prefix_slots + 1) 0)
          ≡ some counts)
        × (sum_starts prefix_slots 0 counts ≡ some starts)
        × (length starts ≡ prefix_slots + 1)
        × ((p : ℕ) → p ≤ prefix_slots → get_or starts p 0 ≡ before_prefix p keys)
  sums_of keys h =
      let (counts, ec, sc, c0, ce) =
        count_starts_lem keys (replicate (prefix_slots + 1) 0) h
          (length-replicate {A = ℕ} (prefix_slots + 1) 0) in
      let (starts, es, ss, se) =
        sum_starts_lem prefix_slots 0 keys counts refl sc
          (λ q l. first q counts l (c0 ∙ get_or-replicate (prefix_slots + 1) 0))
          (λ q l l'.
            ce q l'
            ∙ ap (λ (x : ℕ). x + with_prefix q keys) (get_or-replicate (prefix_slots + 1) (q + 1))
            ∙ zero_left (with_prefix q keys)) in
      (counts, starts, ec, es, ss, se)
    where
      zero_left : (x : ℕ) → 0 + x ≡ x
      zero_left x = omega arith

      first :
          (q : ℕ) (counts : List ℕ)
          → q ≤ 0
          → get_or counts 0 0 ≡ 0
          → get_or counts q 0 ≡ before_prefix q keys
      first zero counts l e = e ∙ sym (before_prefix_zero keys)
      first (suc q) counts l e = absurd (omega arith)

  pub from_dictionary-IsFrozen :
      (m : DictionaryMatcher) × (from_dictionary v ≡ some m) × IsFrozen toks m
  from_dictionary-IsFrozen =
      let (b, e, hb) =
        token_loop-IsBuilt toks v r sorted bytes (length toks) 0 begin (omega arith)
          begin-IsBuilt in
      let (counts, starts, ec, es, ss, se) = sums_of b.keys (keys-AreKeys b hb) in
      let (last, el) = pred (length toks) not_empty in
      let (kept, ek, pads) =
        retain_max-IsPads toks v r sorted bytes last b.chain (sym el) hb.stack_lem in
      let (pad, ep, lt, R) = new_chain-Records toks v r kept pads.nested in
      let (samples, ef, hs) =
        first_keys-chunks (blocks b hb) (padded b hb) (omega (arith, length-padded b hb)) in
      let m = assembled (length toks) b starts pad samples in
      let searchable : IsSearchable (padded b hb) (blocks b hb) m = record {
        blocks_lem = refl;
        samples_lem = hs;
        size_lem = length-padded b hb;
        ascending = padded-IsAscending b hb;
      } in
      (
        m,
        from_dictionary-IsAssembled v b counts starts kept pad samples (length toks) r.counted ec es
            ek ep e ef,
        record {
          tokens = b.keys;
          keys = padded b hb;
          num_blocks = blocks b hb;
          searchable = searchable;
          table = record {
            not_empty = omega (arith, hb.num_keys, not_empty);
            few = omega (arith, hb.num_keys, r.addressable);
            num_blocks = ap (λ (x : ℕ). x / block_keys + 1) (sym hb.num_keys);
            tokens_lem = λ k l.
                padded_token b hb k (omega (arith, hb.num_keys))
                ∙ sym (key_token b hb k (omega (arith, hb.num_keys)));
            sorted = tokens-IsAscending b hb;
            zero_first = padded_token b hb 0 (omega (arith, not_empty)) ∙ first_zero;
            first_blocks_lem = λ p l.
                get_elem?-map first_block starts p (omega (arith, ss))
                ∙ ap (λ (x : ℕ). some (first_block x)) (se p l);
          };
          count = hb.num_keys;
          enough = omega (arith, hb.num_keys, length-padded b hb);
          tokens_lem = padded_token b hb;
          pads_lem = padded_pad b hb;
          chains_lem = λ k l.
              let (c, ec, hc) = hb.chains_lem k l in
              (
                c,
                get_elem?-append_left b.chains (replicate (length (padded b hb) - length toks) pad)
                      k (omega (arith, hb.num_chains))
                    ∙ ec,
                hc,
              );
          pad_chains_lem = λ k le l. (
            pad,
            get_elem?-append_right b.chains (replicate (length (padded b hb) - length toks) pad) k
                  (omega (arith, hb.num_chains))
                ∙ get_elem?-replicate (length (padded b hb) - length toks) (k - length b.chains) pad
                    (omega (arith, hb.num_chains)),
            (kept, pads, R),
          );
          singles_lem = hb.singles_lem;
        },
      )
    where
      pred : (n : ℕ) → 1 ≤ n → (k : ℕ) × (n ≡ suc k)
      pred zero h = absurd (omega arith)
      pred (suc n) h = (n, refl)
