-- ===== src/Dictionary/Compact/Access.antt =====
-- core/dictionary/compact.rs, the `DictionaryView` of the compact form: on buffers that satisfy the
-- structural invariants the accessors never panic and never read out of bounds.
use onpair.Common.{
  ℕ, zero, suc, ◌+◌, ◌-◌, ◌≤◌, ◌<◌, ◌≡◌, refl, some, [], ◌∷◌, ◌++◌, Bytes, length, get_elem?, take,
  drop, arith, sym, ◌∙◌, ap, length-take, length-drop, get_elem?-eq-get_or, take-add, le→leb,
}
use onpair.Core.Types.{max_token_size}
use onpair.Dictionary.View.{Tokens, tok, Represents}
use onpair.Dictionary.Compact.{
  Offsets, CompactDictionary, slice, token, token_len, token_ptr, as_view, from_raw,
}
use onpair.Dictionary.Compact.Safety.{offset, AreU32, HasSteps, IsSafe}

-- The token table that the buffers hold: token `i` is `bytes[offsets[i]..offsets[i + 1]]`.
abbrev pub tokens_of : Bytes → Offsets → Tokens
tokens_of bytes (a ∷ b ∷ rest) = take (b - a) (drop a bytes) ∷ tokens_of bytes (b ∷ rest)
tokens_of bytes _ = []

pub length-tokens_of :
    (bytes : Bytes) (offsets : Offsets) → length (tokens_of bytes offsets) ≡ length offsets - 1
length-tokens_of bytes [] = refl
length-tokens_of bytes (a ∷ []) = refl
length-tokens_of bytes (a ∷ b ∷ rest) = omega (arith, length-tokens_of bytes (b ∷ rest))

pub tok-tokens_of :
    (bytes : Bytes) (offsets : Offsets) (i : ℕ)
    → suc i < length offsets
    → tok (tokens_of bytes offsets) i
      ≡ take (offset offsets (suc i) - offset offsets i) (drop (offset offsets i) bytes)
tok-tokens_of bytes [] i h = elim h [ ]
tok-tokens_of bytes (a ∷ []) i h = absurd (omega arith)
tok-tokens_of bytes (a ∷ b ∷ rest) zero h = refl
tok-tokens_of bytes (a ∷ b ∷ rest) (suc i) h = tok-tokens_of bytes (b ∷ rest) i (omega arith)

-- Offsets ascend.
pub offset_mono :
    (offsets : Offsets)
    → HasSteps offsets
    → (k i : ℕ) → i + k < length offsets
    → offset offsets i ≤ offset offsets (i + k)
offset_mono offsets h zero i l = omega (arith, ap (offset offsets) (omega_zero i))
  where
    omega_zero : (i : ℕ) → i + 0 ≡ i
    omega_zero i = omega arith
offset_mono offsets h (suc k) i l =
    let e : i + suc k ≡ suc (i + k) = omega arith in
    omega (
      arith,
      offset_mono offsets h k i (omega arith),
      h (i + k) (omega arith),
      ap (offset offsets) e,
    )

pub slice_lem :
    (bytes : Bytes) (b e : ℕ)
    → b ≤ e
    → e ≤ length bytes
    → slice bytes b e ≡ some (take (e - b) (drop b bytes))
slice_lem bytes b e h k = rw (le→leb b e h, le→leb e (length bytes) k)

module _ (bytes : Bytes) (offsets : Offsets) (u : AreU32 offsets) (s : IsSafe bytes offsets) where
  abbrev d : CompactDictionary
  d = from_raw bytes offsets

  pub start_padded :
      (i : ℕ) → suc i < length offsets → offset offsets i + max_token_size ≤ length bytes
  start_padded i l =
      let k : ℕ = length offsets - 2 - i in
      let e : i + k ≡ length offsets - 2 = omega arith in
      omega (arith, s.padded, offset_mono offsets s.steps k i (omega arith), ap (offset offsets) e)

  module _ (i : ℕ) (l : suc i < length offsets) where
    next_index : offset offsets (i + 1) ≡ offset offsets (suc i)
    next_index = ap (offset offsets) (omega arith)

    read_begin : get_elem? offsets i ≡ some (offset offsets i)
    read_begin = get_elem?-eq-get_or offsets i 0 (omega arith)

    read_end : get_elem? offsets (i + 1) ≡ some (offset offsets (suc i))
    read_end = get_elem?-eq-get_or offsets (i + 1) 0 (omega arith) ∙ ap some next_index

    length-tok :
        length (tok (tokens_of bytes offsets) i) ≡ offset offsets (suc i) - offset offsets i
    length-tok =
        ap length (tok-tokens_of bytes offsets i l)
        ∙ omega (
          arith,
          length-take (offset offsets (suc i) - offset offsets i) (drop (offset offsets i) bytes),
          length-drop (offset offsets i) bytes,
          s.steps i l,
          start_padded i l,
        )

    token-tok : token d i ≡ some (tok (tokens_of bytes offsets) i)
    token-tok =
        rw (read_begin, read_end)
          (slice_lem bytes (offset offsets i) (offset offsets (suc i)) (omega (arith, s.steps i l))
              (omega (arith, s.steps i l, start_padded i l))
            ∙ ap some (sym (tok-tokens_of bytes offsets i l)))

    token_len-tok : token_len d i ≡ some (length (tok (tokens_of bytes offsets) i))
    token_len-tok =
        rw (read_begin, read_end)
          (ap some (omega (arith, length-tok, s.steps i l, u i (omega arith), u (suc i) l)))

    abbrev rest_of : Bytes
    rest_of =
        take (max_token_size - (offset offsets (suc i) - offset offsets i))
          (drop (offset offsets (suc i) - offset offsets i) (drop (offset offsets i) bytes))

    window :
        take max_token_size (drop (offset offsets i) bytes)
        ≡ tok (tokens_of bytes offsets) i ++ rest_of
    window =
        let n : ℕ = offset offsets (suc i) - offset offsets i in
        let e : max_token_size ≡ n + (max_token_size - n) = omega (arith, s.steps i l) in
        ap (λ (k : ℕ). take k (drop (offset offsets i) bytes)) e
        ∙ take-add n (max_token_size - n) (drop (offset offsets i) bytes)
        ∙ ap (λ (t : Bytes). t ++ rest_of) (sym (tok-tokens_of bytes offsets i l))

    width : offset offsets i + max_token_size - offset offsets i ≡ max_token_size
    width = omega arith

    token_ptr-tok :
        (rest : Bytes) × (token_ptr d i ≡ some (tok (tokens_of bytes offsets) i ++ rest))
        × (length (tok (tokens_of bytes offsets) i ++ rest) ≡ max_token_size)
    token_ptr-tok = (
      rest_of,
      rw read_begin (
          slice_lem bytes (offset offsets i) (offset offsets i + max_token_size) (omega arith)
            (start_padded i l)
          ∙ ap some (ap (λ (k : ℕ). take k (drop (offset offsets i) bytes)) width ∙ window)),
      ap length (sym window)
          ∙ omega (
            arith,
            length-take max_token_size (drop (offset offsets i) bytes),
            length-drop (offset offsets i) bytes,
            start_padded i l,
          ),
    )

  index : (i : ℕ) → i < length (tokens_of bytes offsets) → suc i < length offsets
  index i l = omega (arith, length-tokens_of bytes offsets)

  -- On safe buffers with u32 offsets the accessors of the compact view do not panic or read out
  -- of bounds, and give the tokens and lengths of the table that the buffers hold, each of 1 to
  -- 16 bytes and readable for 16.
  pub as_view-Represents : Represents (as_view d) (tokens_of bytes offsets)
  unfolding as_view
  as_view-Represents = record {
    counted = sym (length-tokens_of bytes offsets);
    addressable = omega (arith, length-tokens_of bytes offsets, s.addressable);
    token_lem = λ i l. token-tok i (index i l);
    token_len_lem = λ i l. token_len-tok i (index i l);
    nonempty = λ i l. omega (arith, length-tok i (index i l), s.steps i (index i l));
    bounded = λ i l. omega (arith, length-tok i (index i l), s.steps i (index i l));
    token_ptr_lem = λ i l. token_ptr-tok i (index i l);
    token_len_unchecked_lem = λ i l. token_len-tok i (index i l);
  }
