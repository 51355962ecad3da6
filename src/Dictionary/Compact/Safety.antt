-- ===== src/Dictionary/Compact/Safety.antt =====
-- core/dictionary/compact.rs, `validate_safety`: what it accepts.
use onpair.Common.{
  ℕ, zero, suc, ◌+◌, ◌-◌, ◌≤◌, ◌<◌, ◌≡◌, ◌↔◌, false, refl, [], ◌∷◌, Bytes, length, get_or, arith,
  ap,
}
use onpair.Core.Types.{token_mod, u32_mod, max_token_size}
use onpair.Core.Validate
use onpair.Core.Validate.{InvalidColumn, Checked}
use onpair.Core.Validate.Checked.{ok, err}
use onpair.Core.Validate.InvalidColumn.{
  empty_dictionary, code_out_of_range, first_offset_not_zero, decreasing_offsets, empty_token,
  token_too_large, missing_padding, unsorted_tokens, incomplete_alphabet, bad_row_offsets,
}
use onpair.Dictionary.Compact.{
  Offsets, Flags, no_flags, scan_pair, scan_pairs, check_flags, check_padding, validate_safety,
  checked_add,
}

-- Offset `i`.
abbrev pub offset : Offsets → ℕ → ℕ
offset offsets i = get_or offsets i 0

-- The offsets are `u32` values.
abbrev pub AreU32 : Offsets → Type 0
AreU32 offsets = (i : ℕ) → i < length offsets → offset offsets i < u32_mod

-- Every pair of neighbours delimits a token of `1..=max_token_size` bytes.
abbrev pub HasSteps : Offsets → Type 0
HasSteps offsets =
    (i : ℕ)
    → suc i < length offsets
    → (offset offsets i < offset offsets (suc i))
      × (offset offsets (suc i) ≤ offset offsets i + max_token_size)

-- The structural invariants of the module's documentation.
pub record IsSafe (bytes : Bytes) (offsets : Offsets) : Type 0 where
  pub enough : 2 ≤ length offsets
  pub addressable : length offsets ≤ token_mod + 1
  pub first : offset offsets 0 ≡ 0
  pub steps : HasSteps offsets
  pub padded : offset offsets (length offsets - 2) + max_token_size ≤ length bytes

pub AreU32-tail : (a : ℕ) (offsets : Offsets) → AreU32 (a ∷ offsets) → AreU32 offsets
AreU32-tail a offsets h i p = h (suc i) (omega arith)

pub HasSteps-cons :
    (a b : ℕ) (rest : Offsets)
    → a < b
    → b ≤ a + max_token_size
    → HasSteps (b ∷ rest)
    → HasSteps (a ∷ b ∷ rest)
HasSteps-cons a b rest p q h zero l = (p, q)
HasSteps-cons a b rest p q h (suc i) l = h i (omega arith)

pub HasSteps-tail : (a : ℕ) (offsets : Offsets) → HasSteps (a ∷ offsets) → HasSteps offsets
HasSteps-tail a offsets h i l = h (suc i) (omega arith)

abbrev pub AllClear : Flags → Type 0
AllClear f = (f.bad_decreasing ≡ false) × (f.bad_empty ≡ false) × (f.bad_length ≡ false)

-- The scan leaves every flag clear exactly on well-formed steps.
pub scan_pairs-clear :
    (offsets : Offsets) (f : Flags)
    → AreU32 offsets
    → AllClear (scan_pairs f offsets)
    → AllClear f × HasSteps offsets
unfolding scan_pairs
scan_pairs-clear [] f u h = (h, λ i l. elim l [ ])
scan_pairs-clear (a ∷ []) f u h = (h, λ i l. absurd (omega arith))
scan_pairs-clear (a ∷ b ∷ rest) f u h =
    let ih = scan_pairs-clear (b ∷ rest) (scan_pair f a b) (AreU32-tail a (b ∷ rest) u) h in
    (
      ground (arith, ih.0),
      HasSteps-cons a b rest (ground (arith, ih.0))
          (ground (arith, ih.0, u 0 (omega arith), u 1 (omega arith))) ih.1,
    )

clear-scan_pairs :
    (offsets : Offsets) (f : Flags)
    → AreU32 offsets
    → AllClear f
    → HasSteps offsets
    → AllClear (scan_pairs f offsets)
unfolding scan_pairs
clear-scan_pairs [] f u c h = c
clear-scan_pairs (a ∷ []) f u c h = c
clear-scan_pairs (a ∷ b ∷ rest) f u c h =
    clear-scan_pairs (b ∷ rest) (scan_pair f a b) (AreU32-tail a (b ∷ rest) u)
      (ground (arith, h 0 (omega arith))) (HasSteps-tail a (b ∷ rest) h)

module _ (bytes : Bytes) (offsets : Offsets) where
  pub check_flags-clear :
      check_flags (scan_pairs no_flags offsets) ≡ ok tt → AllClear (scan_pairs no_flags offsets)
  unfolding check_flags
  check_flags-clear h = ground arith

  clear-check_flags :
      AllClear (scan_pairs no_flags offsets) → check_flags (scan_pairs no_flags offsets) ≡ ok tt
  unfolding check_flags
  clear-check_flags h = ground arith

  pub check_padding-ok :
      AreU32 offsets
      → (i : ℕ) → i < length offsets
      → (check_padding bytes (checked_add (offset offsets i) max_token_size) ≡ ok tt)
        ↔ (offset offsets i + max_token_size ≤ length bytes)
  unfolding check_padding
  check_padding-ok u i l = (λ h. ground (arith, u i l), λ h. ground (arith, u i l))

module _ (bytes : Bytes) (first : ℕ) (ends : Offsets) where
  -- The checks behind the guards.
  abbrev pub body : Checked (Unit {0})
  body = Validate.◌>>=◌ (check_flags (scan_pairs no_flags (first ∷ ends))) (λ _.
      check_padding bytes (checked_add (offset (first ∷ ends) (length ends - 1)) max_token_size))

  guards :
      validate_safety bytes (first ∷ ends) ≡ ok tt
      → (0 < length ends) × (length ends ≤ token_mod) × (first ≡ 0) × (body ≡ ok tt)
  unfolding validate_safety
  guards h = ground arith

  guards_hold :
      0 < length ends
      → length ends ≤ token_mod
      → first ≡ 0
      → body ≡ ok tt
      → validate_safety bytes (first ∷ ends) ≡ ok tt
  unfolding validate_safety
  guards_hold p q e h = ground arith

  body-ok :
      body ≡ ok tt
      → (check_flags (scan_pairs no_flags (first ∷ ends)) ≡ ok tt)
        × (check_padding bytes
              (checked_add (offset (first ∷ ends) (length ends - 1)) max_token_size)
            ≡ ok tt)
  body-ok h = ground arith

  pub last_offset :
      offset (first ∷ ends) (length (first ∷ ends) - 2) ≡ offset (first ∷ ends) (length ends - 1)
  last_offset = ap (offset (first ∷ ends)) (omega arith)

  accepted :
      AreU32 (first ∷ ends)
      → validate_safety bytes (first ∷ ends) ≡ ok tt
      → IsSafe bytes (first ∷ ends)
  accepted u h =
      let g = guards h in
      let b = body-ok g.3 in
      record {
        enough = omega arith;
        addressable = omega arith;
        first = g.2;
        steps =
            (scan_pairs-clear (first ∷ ends) no_flags u
              (check_flags-clear bytes (first ∷ ends) b.0)).1;
        padded =
            rw last_offset
              ((check_padding-ok bytes (first ∷ ends) u (length ends - 1) (omega arith)).0 b.1);
      }

  accepts :
      AreU32 (first ∷ ends)
      → IsSafe bytes (first ∷ ends)
      → validate_safety bytes (first ∷ ends) ≡ ok tt
  accepts u s = guards_hold (omega (arith, s.enough)) (omega (arith, s.addressable)) s.first (
      let c =
        clear-check_flags bytes (first ∷ ends)
          (clear-scan_pairs (first ∷ ends) no_flags u (refl, refl, refl) s.steps) in
      let p =
        (check_padding-ok bytes (first ∷ ends) u (length ends - 1) (omega (arith, s.enough))).1
          (rw last_offset at s.padded) in
      rw c p)

-- On u32 offsets, validate_safety accepts exactly the buffers that satisfy the structural
-- invariants.
pub validate_safety-IsSafe :
    (bytes : Bytes) (offsets : Offsets)
    → AreU32 offsets
    → (validate_safety bytes offsets ≡ ok tt) ↔ IsSafe bytes offsets
validate_safety-IsSafe bytes [] u =
    (unfold validate_safety in λ h. cc, λ s. absurd (omega (arith, s.enough)))
validate_safety-IsSafe bytes (first ∷ ends) u =
    (accepted bytes first ends u, accepts bytes first ends u)
