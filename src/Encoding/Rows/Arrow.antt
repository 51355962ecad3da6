-- ===== src/Encoding/Rows/Arrow.antt =====
-- encoding/rows.rs, `ArrowRows`: a validated Arrow pair gives the same rows as the list of its slices.
use onpair.Common.{
  ℕ, zero, suc, ◌+◌, ◌-◌, ◌≤◌, ◌<◌, ◌≡◌, ◌∙◌, sym, ap, arith, some, [], ◌∷◌, Bytes, length, drop,
  get_elem?, get_elem?-eq-get_or, length-take, length-drop,
}
use onpair.Core.Types.{usize_mod}
use onpair.Dictionary.View.{tok}
use onpair.Dictionary.Compact.{Offsets}
use onpair.Dictionary.Compact.Safety.{offset}
use onpair.Dictionary.Compact.Access.{tokens_of, length-tokens_of, tok-tokens_of, slice_lem}
use onpair.Encoding.Config.{ok}
use onpair.Encoding.Rows.{
  Rows, arrow_rows, arrow_total, arrow_row, slice_rows, sum_lengths, validate_offsets,
}

-- The Arrow contract: neighbours do not decrease.
abbrev pub IsMonotone : Offsets → Type 0
IsMonotone offsets = (i : ℕ) → suc i < length offsets → offset offsets i ≤ offset offsets (suc i)

-- Two sources of rows give the same answers.
pub record SameRows (r q : Rows) : Type 0 where
  pub count : r.num_rows ≡ q.num_rows
  pub total : r.total_bytes ≡ q.total_bytes
  pub each : (i : ℕ) → i < q.num_rows → r.row i ≡ q.row i

below_end : (a : ℕ) (rest : Offsets) → IsMonotone (a ∷ rest) → a ≤ offset (a ∷ rest) (length rest)
below_end a [] m = omega arith
below_end a (b ∷ rest) m =
    omega (arith, m 0 (omega arith), below_end b rest (λ i l. m (suc i) (omega arith)))

sum_lengths-tokens_of :
    (bytes : Bytes) (a : ℕ) (rest : Offsets)
    → IsMonotone (a ∷ rest)
    → offset (a ∷ rest) (length rest) ≤ length bytes
    → sum_lengths (tokens_of bytes (a ∷ rest)) ≡ offset (a ∷ rest) (length rest) - a
sum_lengths-tokens_of bytes a [] m w = omega arith
sum_lengths-tokens_of bytes a (b ∷ rest) m w =
    let tail : IsMonotone (b ∷ rest) = λ i l. m (suc i) (omega arith) in
    omega (
      arith,
      m 0 (omega arith),
      below_end b rest tail,
      sum_lengths-tokens_of bytes b rest tail w,
      length-take (b - a) (drop a bytes),
      length-drop a bytes,
    )

offset_below :
    (offsets : Offsets) (bound i : ℕ)
    → IsMonotone offsets
    → offset offsets (length offsets - 1) ≤ bound
    → i < length offsets
    → offset offsets i ≤ bound
offset_below [] bound i m w l = elim l [ ]
offset_below (a ∷ rest) bound zero m w l =
    let e : length (a ∷ rest) - 1 ≡ length rest = omega arith in
    omega (arith, below_end a rest m, ap (offset (a ∷ rest)) e)
offset_below (a ∷ []) bound (suc i) m w l = absurd (omega arith)
offset_below (a ∷ b ∷ rest) bound (suc i) m w l =
    let e : length (a ∷ b ∷ rest) - 1 ≡ suc (length (b ∷ rest) - 1) = omega arith in
    offset_below (b ∷ rest) bound i (λ j k. m (suc j) (omega arith))
      (omega (arith, ap (offset (a ∷ b ∷ rest)) e)) (omega arith)

accepted :
    (bytes : Bytes) (offsets : Offsets) (last : ℕ)
    → get_elem? offsets (length offsets - 1) ≡ some last
    → validate_offsets bytes offsets ≡ ok tt
    → last ≤ length bytes
unfolding validate_offsets
accepted bytes offsets last e h = ground arith

module _ (bytes : Bytes) (a : ℕ) (rest : Offsets) where
  abbrev offsets : Offsets
  offsets = a ∷ rest

  last_entry : get_elem? offsets (length offsets - 1) ≡ some (offset offsets (length rest))
  last_entry =
      let e : length offsets - 1 ≡ length rest = omega arith in
      ap (get_elem? offsets) e ∙ get_elem?-eq-get_or offsets (length rest) 0 (omega arith)

  validated : validate_offsets bytes offsets ≡ ok tt → offset offsets (length rest) ≤ length bytes
  validated h = accepted bytes offsets (offset offsets (length rest)) last_entry h

  module _ (m : IsMonotone offsets) (w : offset offsets (length rest) ≤ length bytes) where
    arrow_row-tok :
        (i : ℕ)
        → suc i < length offsets
        → arrow_row bytes offsets i ≡ some (tok (tokens_of bytes offsets) i)
    arrow_row-tok i l =
        let e : offset offsets (i + 1) ≡ offset offsets (suc i) =
          let q : i + 1 ≡ suc i = omega arith in ap (offset offsets) q in
        let f : length offsets - 1 ≡ length rest = omega arith in
        let within : offset offsets (suc i) ≤ length bytes =
          offset_below offsets (length bytes) (suc i) m (omega (arith, ap (offset offsets) f)) l in
        rw
          (
            get_elem?-eq-get_or offsets i 0 (omega arith),
            get_elem?-eq-get_or offsets (i + 1) 0 (omega arith),
            e,
          )
          (slice_lem bytes (offset offsets i) (offset offsets (suc i)) (m i l) within
            ∙ ap some (sym (tok-tokens_of bytes offsets i l)))

    arrow_total-sum_lengths :
        length bytes < usize_mod
        → arrow_total offsets ≡ some (sum_lengths (tokens_of bytes offsets))
    arrow_total-sum_lengths small =
        rw last_entry
          (ap some (omega (arith, sum_lengths-tokens_of bytes a rest m w, below_end a rest m)))

-- An Arrow pair of fewer than 2^64 bytes and offsets that validate_offsets accepts and whose
-- offsets do not decrease gives the same rows, count and total as the list of its slices, and no
-- access to a row panics.
pub validate_offsets-SameRows :
    (bytes : Bytes) (offsets : Offsets)
    → IsMonotone offsets
    → length bytes < usize_mod
    → length offsets < usize_mod
    → validate_offsets bytes offsets ≡ ok tt
    → SameRows (arrow_rows bytes offsets) (slice_rows (tokens_of bytes offsets))
unfolding arrow_rows slice_rows
validate_offsets-SameRows bytes [] m small few h = absurd (unfold validate_offsets in cc)
validate_offsets-SameRows bytes (a ∷ rest) m small few h =
    let w = validated bytes a rest h in
    let n = length-tokens_of bytes (a ∷ rest) in
    record {
      count = omega (arith, n);
      total = arrow_total-sum_lengths bytes a rest m w small;
      each = λ i l.
          arrow_row-tok bytes a rest m w i (omega (arith, n))
          ∙ sym (get_elem?-eq-get_or (tokens_of bytes (a ∷ rest)) i [] l);
    }
