-- ===== src/Dictionary/Compact/Violation.antt =====
-- core/dictionary/compact.rs, `validate_safety`: what each error means.
use onpair.Common.{
  ℕ, zero, suc, ◌+◌, ◌-◌, ◌≤◌, ◌<◌, ◌≡◌, ◌⊎◌, inl, inr, Bool, true, false, ◌||◌, refl, [], ◌∷◌,
  Bytes, length, arith, ltb, ◌==◌, subst, Bool-cases, sym, ◌∙◌,
}
use onpair.Core.Types.{token_mod, max_token_size, sub32}
use onpair.Core.Validate.{InvalidColumn, Checked}
use onpair.Core.Validate.Checked.{err}
use onpair.Core.Validate.InvalidColumn.{
  empty_dictionary, code_out_of_range, first_offset_not_zero, decreasing_offsets, empty_token,
  token_too_large, missing_padding, unsorted_tokens, incomplete_alphabet, bad_row_offsets,
}
use onpair.Dictionary.Compact.{
  Offsets, Flags, no_flags, scan_pair, scan_pairs, check_flags, check_padding, validate_safety,
  checked_add,
}
use onpair.Dictionary.Compact.Safety.{offset, AreU32, body, last_offset}

module _ (P : ℕ → ℕ → Type 0) where
  -- Some pair of neighbours satisfies `P`.
  abbrev pub SomePair : Offsets → Type 0
  SomePair offsets =
      (i : ℕ) × (suc i < length offsets) × P (offset offsets i) (offset offsets (suc i))

  SomePair-cons : (a : ℕ) (offsets : Offsets) → SomePair offsets → SomePair (a ∷ offsets)
  SomePair-cons a offsets (i, l, p) = (suc i, omega arith, p)

abbrev pub Decreases : ℕ → ℕ → Type 0
Decreases a b = b < a

abbrev pub Equals : ℕ → ℕ → Type 0
Equals a b = a ≡ b

abbrev pub Overlong : ℕ → ℕ → Type 0
Overlong a b = a + max_token_size < b

or_cases : (x y : Bool) → (x || y) ≡ true → (x ≡ true) ⊎ (y ≡ true)
or_cases true y h = inl refl
or_cases false y h = inr h

-- A flag that the scan raises was raised before it, or by a pair of neighbours.
module _ (flag : Flags → Bool) (test : ℕ → ℕ → Bool)
    (step : (f : Flags) (a b : ℕ) → flag (scan_pair f a b) ≡ (flag f || test a b)) where
  abbrev Raises : ℕ → ℕ → Type 0
  Raises a b = test a b ≡ true

  scan_pairs-raised :
      (offsets : Offsets) (f : Flags)
      → flag (scan_pairs f offsets) ≡ true
      → (flag f ≡ true) ⊎ SomePair Raises offsets
  unfolding scan_pairs
  scan_pairs-raised [] f h = inl h
  scan_pairs-raised (a ∷ []) f h = inl h
  scan_pairs-raised (a ∷ b ∷ rest) f h = elim (scan_pairs-raised (b ∷ rest) (scan_pair f a b) h) [
    | inr p ↦ inr (SomePair-cons Raises a (b ∷ rest) p)
    | inl e ↦ elim (or_cases (flag f) (test a b) (sym (step f a b) ∙ e)) [
      | inl old ↦ inl old
      | inr new ↦ inr (0, omega arith, new)
    ]
  ]

  -- A flag that stays clear was raised by no pair.
  scan_pairs-clear_flag :
      (offsets : Offsets) (f : Flags)
      → flag (scan_pairs f offsets) ≡ false
      → (flag f ≡ false)
        × ((i : ℕ)
            → suc i < length offsets
            → test (offset offsets i) (offset offsets (suc i)) ≡ false)
  unfolding scan_pairs
  scan_pairs-clear_flag [] f h = (h, λ i l. elim l [ ])
  scan_pairs-clear_flag (a ∷ []) f h = (h, λ i l. absurd (omega arith))
  scan_pairs-clear_flag (a ∷ b ∷ rest) f h =
      let ih = scan_pairs-clear_flag (b ∷ rest) (scan_pair f a b) h in
      let here : (flag f || test a b) ≡ false = sym (step f a b) ∙ ih.0 in
      (
        ground (arith, here),
        λ i.
            elim i
              as (λ i.
                suc i < length (a ∷ b ∷ rest)
                → test (offset (a ∷ b ∷ rest) i) (offset (a ∷ b ∷ rest) (suc i)) ≡ false) [
                  | zero ↦ λ l. ground (arith, here)
                  | suc j ↦ λ l. ih.1 j (omega arith)
                ],
      )

-- What each error of the offset check says of the offsets.
abbrev pub Violates : InvalidColumn → Bytes → Offsets → Type 0
Violates empty_dictionary bytes offsets = length offsets ≤ 1
Violates code_out_of_range bytes offsets = token_mod + 1 < length offsets
Violates first_offset_not_zero bytes offsets = 0 < offset offsets 0
Violates decreasing_offsets bytes offsets = SomePair Decreases offsets
Violates empty_token bytes offsets = SomePair Equals offsets
Violates token_too_large bytes offsets = SomePair Overlong offsets
Violates missing_padding bytes offsets =
    length bytes < offset offsets (length offsets - 2) + max_token_size
Violates bad_row_offsets bytes offsets = ⊥
Violates unsorted_tokens bytes offsets = ⊥
Violates incomplete_alphabet bytes offsets = ⊥

module _ (bytes : Bytes) (offsets : Offsets) where
  recast :
      (x e : InvalidColumn)
      → ◌≡◌ {A = Checked (Unit {0})} (err x) (err e)
      → Violates x bytes offsets
      → Violates e bytes offsets
  recast x e h v = subst (λ y. Violates y bytes offsets) (cc) v

  decreasing_pair : (scan_pairs no_flags offsets).bad_decreasing ≡ true → SomePair Decreases offsets
  decreasing_pair h =
      elim (scan_pairs-raised (λ f. f.bad_decreasing) (λ a b. ltb b a) (λ f a b. refl) offsets
        no_flags h) [ inl e ↦ cc | inr (i, l, t) ↦ (i, l, ground arith) ]

  empty_pair : (scan_pairs no_flags offsets).bad_empty ≡ true → SomePair Equals offsets
  empty_pair h =
      elim (scan_pairs-raised (λ f. f.bad_empty) (λ a b. b == a) (λ f a b. refl) offsets no_flags
        h) [ inl e ↦ cc | inr (i, l, t) ↦ (i, l, ground arith) ]

  Overlong-pair :
      AreU32 offsets
      → (scan_pairs no_flags offsets).bad_decreasing ≡ false
      → (scan_pairs no_flags offsets).bad_length ≡ true
      → SomePair Overlong offsets
  Overlong-pair u d h =
      elim (scan_pairs-raised (λ f. f.bad_length) (λ a b. ltb max_token_size (sub32 b a))
        (λ f a b. refl) offsets no_flags h) [
          | inl e ↦ cc
          | inr (i, l, t) ↦
              let up =
                (scan_pairs-clear_flag (λ f. f.bad_decreasing) (λ a b. ltb b a) (λ f a b. refl)
                    offsets no_flags d).1
                  i l in
              (i, l, ground (arith, up, u i (omega arith), u (suc i) l))
        ]

  scan-Violates :
      AreU32 offsets
      → (e : InvalidColumn) → check_flags (scan_pairs no_flags offsets) ≡ err e
      → Violates e bytes offsets
  unfolding check_flags
  scan-Violates u e h = elim (Bool-cases (scan_pairs no_flags offsets).bad_decreasing) [
    | inl d ↦ recast decreasing_offsets e (rw d at h) (decreasing_pair d)
    | inr d ↦ elim (Bool-cases (scan_pairs no_flags offsets).bad_empty) [
      | inl m ↦ recast empty_token e (rw (d, m) at h) (empty_pair m)
      | inr m ↦ elim (Bool-cases (scan_pairs no_flags offsets).bad_length) [
        | inl l ↦ recast token_too_large e (rw (d, m, l) at h) (Overlong-pair u d l)
        | inr l ↦ absurd (ground arith)
      ]
    ]
  ]

  check_padding-Violates :
      AreU32 offsets
      → (i : ℕ) → i < length offsets
      → (e : InvalidColumn)
      → check_padding bytes (checked_add (offset offsets i) max_token_size) ≡ err e
      → (missing_padding ≡ e) × (length bytes < offset offsets i + max_token_size)
  unfolding check_padding
  check_padding-Violates u i l e h = ground (arith, u i l)

module _ (bytes : Bytes) (first : ℕ) (ends : Offsets) where
  -- The guard that an error comes from, or the body.
  guards-err :
      (e : InvalidColumn)
      → validate_safety bytes (first ∷ ends) ≡ err e
      → ((length ends ≡ 0) × (empty_dictionary ≡ e))
        ⊎ ((token_mod < length ends) × (code_out_of_range ≡ e))
        ⊎ ((0 < first) × (first_offset_not_zero ≡ e))
        ⊎ ((0 < length ends) × (body bytes first ends ≡ err e))
  unfolding validate_safety
  guards-err e h = ground arith

  body-err :
      (e : InvalidColumn)
      → body bytes first ends ≡ err e
      → (check_flags (scan_pairs no_flags (first ∷ ends)) ≡ err e)
        ⊎ (check_padding bytes
              (checked_add (offset (first ∷ ends) (length ends - 1)) max_token_size)
            ≡ err e)
  body-err e h = ground arith

  named :
      {x e : InvalidColumn}
      → x ≡ e
      → Violates x bytes (first ∷ ends)
      → Violates e bytes (first ∷ ends)
  named p v = subst (λ y. Violates y bytes (first ∷ ends)) p v

  rejected :
      AreU32 (first ∷ ends)
      → (e : InvalidColumn) → validate_safety bytes (first ∷ ends) ≡ err e
      → Violates e bytes (first ∷ ends)
  rejected u e h = elim (guards-err e h) [
    | inl (z, q) ↦ named q (omega arith)
    | inr (inl (z, q)) ↦ named q (omega arith)
    | inr (inr (inl (z, q))) ↦ named q (omega arith)
    | inr (inr (inr (z, q))) ↦ elim (body-err e q) [
      | inl c ↦ scan-Violates bytes (first ∷ ends) u e c
      | inr c ↦
          let v =
            check_padding-Violates bytes (first ∷ ends) u (length ends - 1) (omega arith) e c in
          named v.0 (rw (last_offset bytes first ends) v.1)
    ]
  ]

-- On u32 offsets, each error of validate_safety names a violation that the buffers have.
pub validate_safety-Violates :
    (bytes : Bytes) (offsets : Offsets) (e : InvalidColumn)
    → AreU32 offsets
    → validate_safety bytes offsets ≡ err e
    → Violates e bytes offsets
validate_safety-Violates bytes [] e u h =
    recast bytes [] empty_dictionary e (unfold validate_safety in h) (omega arith)
validate_safety-Violates bytes (first ∷ ends) e u h = rejected bytes first ends u e h
