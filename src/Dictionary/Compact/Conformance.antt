-- ===== src/Dictionary/Compact/Conformance.antt =====
-- core/dictionary/compact.rs, `validate_conformance` and `validate`: on safe buffers they accept
-- exactly the sorted and complete token tables.
use onpair.Common.{
  ℕ, zero, suc, ◌+◌, ◌-◌, ◌/◌, ◌%◌, ◌≤◌, ◌<◌, ◌≡◌, ◌↔◌, ◌∙◌, Bool, true, some, List, [], ◌∷◌, arith,
  refl, ap, sym, subst, Bytes, length, get_or, get_or-take, get_or-drop, take, drop, if◌then◌else◌,
  replicate, lex_lt,
}
use onpair.Common.Bits.{bit}
use onpair.Core.Validate
use onpair.Core.Validate.{InvalidColumn, Checked}
use onpair.Core.Validate.Checked.{ok, err}
use onpair.Core.Validate.InvalidColumn.{unsorted_tokens, incomplete_alphabet}
use onpair.Dictionary.View.{Tokens, tok, IsSorted, IsComplete, AreBytes}
use onpair.Dictionary.Compact.{
  Offsets, from_raw, scan_tokens, is_complete, validate_conformance, validate, validate_safety,
}
use onpair.Dictionary.Compact.Safety.{AreU32, IsSafe, validate_safety-IsSafe}
use onpair.Dictionary.Compact.Access.{tokens_of, start_padded, as_view-Represents}
use onpair.Dictionary.Compact.Alphabet.{IsBitset, seen_bit, is_complete_iff}
use onpair.Dictionary.Compact.Scan.{
  scan_list, AreReadable, scan_tokens-scan_list, marks, scan_list-ok, ok-scan_list, HeadsAreBytes,
  has_single, marks-IsBitset, marks-bit, has_single-token, token-has_single, Ascends-IsSorted,
  IsSorted-Ascends,
}

byte_at : (bytes : Bytes) → AreBytes bytes → (i : ℕ) → get_or bytes i 0 < 256
byte_at [] a i = omega arith
byte_at (b ∷ bytes) a zero = a 0 (omega arith)
byte_at (b ∷ bytes) a (suc i) = byte_at bytes (λ j l. a (suc j) (omega arith)) i

tokens_of-HeadsAreBytes :
    (bytes : Bytes) → AreBytes bytes → (offsets : Offsets) → HeadsAreBytes (tokens_of bytes offsets)
tokens_of-HeadsAreBytes bytes a [] = tt
tokens_of-HeadsAreBytes bytes a (x ∷ []) = tt
tokens_of-HeadsAreBytes bytes a (x ∷ y ∷ rest) =
    (head (y - x), tokens_of-HeadsAreBytes bytes a (y ∷ rest))
  where
    head : (n : ℕ) → get_or (take n (drop x bytes)) 0 0 < 256
    head zero = omega arith
    head (suc n) = omega (
      arith,
      get_or-take (suc n) (drop x bytes) 0 (omega arith),
      get_or-drop bytes x 0 0,
      byte_at bytes a (x + 0),
    )

module _ (bytes : Bytes) (offsets : Offsets) (u : AreU32 offsets) (s : IsSafe bytes offsets)
    (a : AreBytes bytes) where
  abbrev toks : Tokens
  toks = tokens_of bytes offsets

  abbrev blank : List ℕ
  blank = replicate 4 0

  readable : AreReadable bytes offsets
  readable i l = omega (arith, s.steps i l, start_padded bytes offsets u s i l)

  heads : HeadsAreBytes toks
  heads = tokens_of-HeadsAreBytes bytes a offsets

  blank-IsBitset : IsBitset blank
  blank-IsBitset = record { words = refl; fits = fits }
    where
      fits : (i : ℕ) → i < 4 → get_or blank i 0 < 18446744073709551616
      fits zero l = omega arith
      fits (suc zero) l = omega arith
      fits (suc (suc zero)) l = omega arith
      fits (suc (suc (suc zero))) l = omega arith
      fits (suc (suc (suc (suc i)))) l = absurd (omega arith)

  blank_bit : (b : ℕ) → b < 256 → seen_bit blank b ≡ 0
  blank_bit b l = zero_word (get_or blank (b / 64) 0) (b % 64) (zero_at (b / 64))
    where
      zero_at : (i : ℕ) → get_or blank i 0 ≡ 0
      zero_at zero = refl
      zero_at (suc zero) = refl
      zero_at (suc (suc zero)) = refl
      zero_at (suc (suc (suc zero))) = refl
      zero_at (suc (suc (suc (suc i)))) = refl

      zero_bit : (j : ℕ) → bit 0 j ≡ 0
      zero_bit zero = refl
      zero_bit (suc j) = zero_bit j

      zero_word : (x j : ℕ) → x ≡ 0 → bit x j ≡ 0
      zero_word x j e = ap (λ (y : ℕ). bit y j) e ∙ zero_bit j

  -- The set that the scan leaves is full exactly if the alphabet is.
  IsComplete-iff : (is_complete (marks blank toks) ≡ true) ↔ IsComplete toks
  IsComplete-iff =
      let set =
        is_complete_iff (marks blank toks) (marks-IsBitset toks blank heads blank-IsBitset) in
      (
        λ h b l. has_single-token b toks (
            present (has_single b toks) (seen_bit blank b)
              (sym (marks-bit toks blank b heads blank-IsBitset) ∙ set.0 h b l) (blank_bit b l)),
        λ c. set.1 (λ b l.
            let (t, k, e) = c b l in
            marks-bit toks blank b heads blank-IsBitset
            ∙ ap (λ (x : Bool). if x then 1 else seen_bit blank b) (token-has_single b toks t k e)),
      )
    where
      present : (x : Bool) (n : ℕ) → (if x then 1 else n) ≡ 1 → n ≡ 0 → x ≡ true
      present x n h k = ground arith

  first_nonempty : 0 < length toks → lex_lt [] (tok toks 0) ≡ true
  first_nonempty l = nonempty (tok toks 0) ((as_view-Represents bytes offsets u s).nonempty 0 l)
    where
      nonempty : (w : Bytes) → 1 ≤ length w → lex_lt [] w ≡ true
      nonempty [] h = absurd (omega arith)
      nonempty (b ∷ w) h = refl

  after_scan : Checked (List ℕ) → Checked (Unit {0})
  after_scan r =
      Validate.◌>>=◌ r (λ seen. if is_complete seen then ok tt else err incomplete_alphabet)

  -- The result of the conformance check, in terms of the scan of the token table.
  verdict : Checked (Unit {0})
  verdict = after_scan (scan_list [] blank toks)

  validate_conformance-verdict : validate_conformance bytes offsets ≡ some verdict
  unfolding verdict after_scan validate_conformance
  validate_conformance-verdict =
      by_offsets offsets s.enough (scan_tokens-scan_list bytes offsets [] blank readable)
    where
      by_offsets :
          (os : Offsets)
          → 2 ≤ length os
          → scan_tokens bytes [] blank os ≡ some (scan_list [] blank (tokens_of bytes os))
          → validate_conformance bytes os
            ≡ some (after_scan (scan_list [] blank (tokens_of bytes os)))
      by_offsets [] l e = absurd (omega arith)
      by_offsets (o ∷ os) l e = rw e refl

  verdict-ok : (verdict ≡ ok tt) ↔ (IsSorted toks × IsComplete toks)
  unfolding verdict after_scan
  verdict-ok = (
    λ h. by_result (scan_list [] blank toks) refl h,
    λ (sorted, complete).
        let e = ok-scan_list toks [] blank (IsSorted-Ascends toks [] first_nonempty sorted) in
        let c = IsComplete-iff.1 complete in rw (e, c) refl,
  )
    where
      by_result :
          (r : Checked (List ℕ))
          → scan_list [] blank toks ≡ r
          → after_scan r ≡ ok tt
          → IsSorted toks × IsComplete toks
      by_result (err x) e h = absurd (ground arith)
      by_result (ok seen) e h =
          let (ascends, same) = scan_list-ok toks [] blank seen e in
          let full : is_complete seen ≡ true = ground arith in
          (
            Ascends-IsSorted toks [] ascends,
            IsComplete-iff.0 (subst (λ x. is_complete x ≡ true) same full),
          )

  -- On safe buffers of u32 offsets and u8 bytes validate_conformance does not panic, and accepts
  -- exactly the strictly sorted token tables with every single byte.
  pub validate_conformance_iff :
      (validate_conformance bytes offsets ≡ some (ok tt)) ↔ (IsSorted toks × IsComplete toks)
  validate_conformance_iff = (
    λ h.
        verdict-ok.0
          (let e : some verdict ≡ some (ok tt) = sym validate_conformance-verdict ∙ h in cc),
    λ h. validate_conformance-verdict ∙ ap some (verdict-ok.1 h),
  )

-- On u32 offsets and u8 bytes, validate returns the dictionary exactly if the buffers are
-- structurally safe and their token table is strictly sorted and has every single byte.
pub validate_iff :
    (bytes : Bytes) (offsets : Offsets)
    → AreU32 offsets
    → AreBytes bytes
    → (validate bytes offsets ≡ some (ok (from_raw bytes offsets))) ↔ (
        IsSafe bytes offsets
        × IsSorted (tokens_of bytes offsets)
        × IsComplete (tokens_of bytes offsets))
unfolding validate
validate_iff bytes offsets u a = (
  λ h.
      let safe = both (validate_safety bytes offsets) refl h in
      let s = (validate_safety-IsSafe bytes offsets u).0 safe.0 in
      let c = (validate_conformance_iff bytes offsets u s a).0 safe.1 in (s, c.0, c.1),
  λ (s, sorted, complete).
      let e = (validate_safety-IsSafe bytes offsets u).1 s in
      let c = (validate_conformance_iff bytes offsets u s a).1 (sorted, complete) in
      ground (arith, e, c),
)
  where
    both :
        (r : Checked (Unit {0}))
        → validate_safety bytes offsets ≡ r
        → validate bytes offsets ≡ some (ok (from_raw bytes offsets))
        → (validate_safety bytes offsets ≡ ok tt)
          × (validate_conformance bytes offsets ≡ some (ok tt))
    both (err x) e h = absurd (ground arith)
    both (ok t) e h = (e, ground arith)
