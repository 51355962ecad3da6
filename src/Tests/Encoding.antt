-- ===== src/Tests/Encoding.antt =====
-- The theorem of the encoder's input, on the rows `ab`, the empty row and `c` behind an unused byte.
use onpair.Common.{zero, suc, ◌≡◌, [], ◌∷◌, refl, arith, Bytes}
use onpair.Dictionary.Compact.{Offsets}
use onpair.Encoding.Config.{ok}
use onpair.Encoding.Rows.{arrow_rows, slice_rows, validate_offsets}
use onpair.Encoding.Rows.Arrow.{IsMonotone, SameRows, validate_offsets-SameRows}

abbrev input : Bytes
input = 120 ∷ 97 ∷ 98 ∷ 99 ∷ []

abbrev input_offsets : Offsets
input_offsets = 1 ∷ 3 ∷ 3 ∷ 4 ∷ []

input-IsMonotone : IsMonotone input_offsets
input-IsMonotone zero l = ground arith
input-IsMonotone (suc zero) l = ground arith
input-IsMonotone (suc (suc zero)) l = ground arith
input-IsMonotone (suc (suc (suc i))) l = absurd (omega (arith, l))

input_valid : validate_offsets input input_offsets ≡ ok tt
unfolding validate_offsets
input_valid = refl

validate_offsets-SameRows_example :
    SameRows (arrow_rows input input_offsets) (slice_rows ((97 ∷ 98 ∷ []) ∷ [] ∷ (99 ∷ []) ∷ []))
validate_offsets-SameRows_example =
    validate_offsets-SameRows input input_offsets input-IsMonotone (ground arith) (ground arith)
      input_valid
