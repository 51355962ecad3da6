-- ===== src/Dictionary/Wide/Agree.antt =====
-- core/dictionary/wide.rs, `WideDictionary::validate_safety`: it agrees with validating the compact
-- form and widening it.
use onpair.Common.{
  ℕ, suc, ◌+◌, ◌-◌, ◌*◌, ◌≤◌, ◌<◌, ◌≡◌, ◌∙◌, ◌⊎◌, inl, inr, true, false, Option, some, [], ◌∷◌,
  arith, refl, ap, sym, subst, dec_lt, Bytes, length, length-replicate, get_elem?-eq-get_or,
  replicate, ◌>>=◌,
}
use mathlib.Core.Option
use onpair.Core.Types.{token_mod, max_token_size}
use onpair.Core.Validate.{InvalidColumn, Checked}
use onpair.Core.Validate.Checked.{ok, err}
use onpair.Core.Validate.InvalidColumn.{missing_padding}
use onpair.Dictionary.Compact
use onpair.Dictionary.Compact.{
  Offsets, Flags, no_flags, scan_pair, scan_pairs, check_flags, check_padding, checked_add,
}
use onpair.Dictionary.Compact.{from_raw as compact}
use onpair.Dictionary.Compact.Safety.{
  offset, AreU32, IsSafe, body, scan_pairs-clear, check_flags-clear, validate_safety-IsSafe,
}
use onpair.Dictionary.View.{Represents}
use onpair.Dictionary.Compact.Access.{tokens_of}
use onpair.Dictionary.Wide.Build.{to_wide-Represents}
use onpair.Dictionary.Wide.{
  WideDictionary, fill_rows, to_wide, BuildState, source_is_readable, build_rows, check_build,
  source_of, start_build, validate_safety, as_view,
}
use onpair.Dictionary.Wide.Check.{build_rows_total, HasBuilt}
use onpair.Dictionary.Wide.Fill.{all_readable, build_rows-fill_rows}

-- Validating the compact form, and widening it.
abbrev pub then_wide : Bytes → Offsets → Checked (Unit {0}) → Option (Checked WideDictionary)
then_wide bytes offsets (err e) = some (err e)
then_wide bytes offsets (ok _) = Option.map ok (to_wide (compact bytes offsets))

checked-cases : (c : Checked (Unit {0})) → ((e : InvalidColumn) × (c ≡ err e)) ⊎ (c ≡ ok tt)
checked-cases (err e) = inl (e, refl)
checked-cases (ok t) = inr refl

module _ (bytes : Bytes) (first : ℕ) (ends : Offsets) (u : AreU32 (first ∷ ends)) where
  abbrev offsets : Offsets
  offsets = first ∷ ends

  abbrev last : ℕ
  last = offset offsets (length ends - 1)

  -- The guards before the loop agree, or none of them rejects.
  same_guards :
      (validate_safety bytes offsets
        ≡ then_wide bytes offsets (Compact.validate_safety bytes offsets))
      ⊎ ((0 < length ends)
          × (length ends ≤ token_mod)
          × (first ≡ 0)
          × (Compact.validate_safety bytes offsets ≡ body bytes first ends)
          × (validate_safety bytes offsets ≡ (do
            built ←
                build_rows
                  (source_of bytes offsets last)
                  (length ends)
                  0
                  (start_build (length ends) (source_of bytes offsets last))
            some (check_build built))))
  unfolding validate_safety Compact.validate_safety
  same_guards = ground (arith, get_elem?-eq-get_or offsets (length ends - 1) 0)

  abbrev flags : Checked (Unit {0})
  flags = check_flags (scan_pairs no_flags offsets)

  unreadable_padding :
      length bytes < last + max_token_size
      → 0 < length ends
      → check_padding bytes (checked_add last max_token_size) ≡ err missing_padding
  unfolding check_padding
  unreadable_padding h l = ground (arith, u (length ends - 1) (omega arith))

  readable_padding :
      last + max_token_size ≤ length bytes
      → 0 < length ends
      → check_padding bytes (checked_add last max_token_size) ≡ ok tt
  unfolding check_padding
  readable_padding h l = ground (arith, u (length ends - 1) (omega arith))

  last_eq : offset offsets (length offsets - 2) ≡ last
  last_eq = ap (offset offsets) (omega arith)

  flags-cases : ((e : InvalidColumn) × (flags ≡ err e)) ⊎ (flags ≡ ok tt)
  flags-cases = checked-cases flags

  module _ (some_ends : 0 < length ends) (few : length ends ≤ token_mod) (zeroth : first ≡ 0) where
    abbrev start : BuildState
    start = start_build (length ends) (source_of bytes offsets last)

    built :
        (b : BuildState) × (build_rows (source_of bytes offsets last) (length ends) 0 start
          ≡ some b)
        × HasBuilt bytes offsets last 0 start b
    built =
        build_rows_total bytes offsets last (length ends) 0 start (omega arith)
          (omega (arith, length-replicate {A = ℕ} (length ends * max_token_size) 0))
          (omega (arith, length-replicate {A = ℕ} (length ends) 0))

    check_build-err : (e : InvalidColumn) → flags ≡ err e → check_build built.0 ≡ err e
    check_build-err e q =
        let (b, _, h) = built in
        let cf : check_flags b.flags ≡ err e = ap check_flags h.flags_lem ∙ q in rw cf refl

    check_build-padding :
        flags ≡ ok tt
        → length bytes < last + max_token_size
        → check_build built.0 ≡ err missing_padding
    check_build-padding q short =
        let (b, _, h) = built in
        let cf : check_flags b.flags ≡ ok tt = ap check_flags h.flags_lem ∙ q in
        let bad : b.bad_padding ≡ true = h.stays_bad (ground arith) in rw (cf, bad) refl

    all-IsSafe : flags ≡ ok tt → last + max_token_size ≤ length bytes → IsSafe bytes offsets
    all-IsSafe q long = record {
      enough = omega arith;
      addressable = omega arith;
      first = zeroth;
      steps = (scan_pairs-clear offsets no_flags u (check_flags-clear bytes offsets q)).1;
      padded = omega (arith, last_eq);
    }

    check_build-ok :
        flags ≡ ok tt → last + max_token_size ≤ length bytes → check_build built.0 ≡ ok built.0.wide
    check_build-ok q long =
        let (b, _, h) = built in
        let cf : check_flags b.flags ≡ ok tt = ap check_flags h.flags_lem ∙ q in
        let readable : (i : ℕ)
            → i < length offsets - 1
            → source_is_readable (source_of bytes offsets last) (offset offsets i) ≡ true =
          λ i l.
            rw (sym last_eq) (all_readable bytes offsets u (all-IsSafe q long) i (omega arith)) in
        let good : b.bad_padding ≡ false = h.stays_good (ground arith) readable in
        rw (cf, good) refl

    widened :
        flags ≡ ok tt
        → last + max_token_size ≤ length bytes
        → to_wide (compact bytes offsets) ≡ some built.0.wide
    unfolding to_wide
    widened q long =
        let (b, r, h) = built in
        let e : suc (length ends) - 1 ≡ length ends = omega arith in
        let filled : Option WideDictionary =
          fill_rows (compact bytes offsets) (length ends) 0 start.wide.data_bytes start.wide.lens in
        let rows : Option.map (λ (b : BuildState). b.wide)
              (build_rows (source_of bytes offsets last) (length ends) 0 start)
            ≡ filled =
          subst
            (λ (x : ℕ).
              Option.map (λ (b : BuildState). b.wide)
                (build_rows (source_of bytes offsets x) (length ends) 0 start)
              ≡ filled)
            last_eq
            (build_rows-fill_rows bytes offsets u (all-IsSafe q long) (length ends) 0 start
              (omega arith)
              (omega (arith, length-replicate {A = ℕ} (length ends * max_token_size) 0))
              (omega (arith, length-replicate {A = ℕ} (length ends) 0))) in
        ap
          (λ (m : ℕ).
            fill_rows (compact bytes offsets) m 0 (replicate (m * max_token_size) 0)
              (replicate m 0))
          e
        ∙ sym rows
        ∙ ap (Option.map (λ (b : BuildState). b.wide)) r

    same_body :
        (do
          built ← build_rows (source_of bytes offsets last) (length ends) 0 start
          some (check_build built))
        ≡ then_wide bytes offsets (body bytes first ends)
    same_body =
        let r = built.1 in
        elim flags-cases [
          | inl (e, q) ↦ rw (r, check_build-err e q, q) refl
          | inr q ↦ elim (dec_lt (length bytes) (last + max_token_size)) [
            | yes short ↦
                rw (r, check_build-padding q short, q, unreadable_padding short some_ends) refl
            | no long ↦
                rw
                  (
                    r,
                    check_build-ok q (omega arith),
                    q,
                    readable_padding (omega arith) some_ends,
                    widened q (omega arith),
                  )
                  refl
          ]
        ]

-- Validating and building in one pass is validating, then widening.
validate_safety-then_wide :
    (bytes : Bytes) (offsets : Offsets)
    → AreU32 offsets
    → validate_safety bytes offsets
      ≡ then_wide bytes offsets (Compact.validate_safety bytes offsets)
validate_safety-then_wide bytes [] u = unfold validate_safety Compact.validate_safety in refl
validate_safety-then_wide bytes (first ∷ ends) u = elim (same_guards bytes first ends u) [
  | inl e ↦ e
  | inr (l, few, z, c, w) ↦
      w ∙ same_body bytes first ends u l few z ∙ ap (then_wide bytes (first ∷ ends)) (sym c)
]

-- On u32 offsets and any bytes, WideDictionary::validate_safety stays in bounds: it returns the
-- error of the compact validation, or, where that accepts, the dictionary that to_wide makes of
-- the buffers, whose view represents their token table.
pub validate_safety-to_wide :
    (bytes : Bytes) (offsets : Offsets)
    → AreU32 offsets
    → ((e : InvalidColumn) × (Compact.validate_safety bytes offsets ≡ err e)
        × (validate_safety bytes offsets ≡ some (err e)))
      ⊎ ((w : WideDictionary) × (Compact.validate_safety bytes offsets ≡ ok tt)
          × (validate_safety bytes offsets ≡ some (ok w))
          × (to_wide (compact bytes offsets) ≡ some w)
          × Represents (as_view w) (tokens_of bytes offsets))
validate_safety-to_wide bytes offsets u =
    let both = validate_safety-then_wide bytes offsets u in
    elim (checked-cases (Compact.validate_safety bytes offsets)) [
      | inl (e, q) ↦ inl (e, q, both ∙ ap (then_wide bytes offsets) q)
      | inr q ↦
          let safe : IsSafe bytes offsets = (validate_safety-IsSafe bytes offsets u).0 q in
          let (w, filled, rep) = to_wide-Represents bytes offsets u safe in
          inr (w, q, both ∙ ap (then_wide bytes offsets) q ∙ ap (Option.map ok) filled, filled, rep)
    ]
