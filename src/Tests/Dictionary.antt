-- ===== src/Tests/Dictionary.antt =====
-- The dictionary theorems, on concrete buffers.
use onpair.Common.{
  ◌+◌, ℕ, ◌^◌, ◌≤◌, ◌<◌, arith, ◌≡◌, ◌⊎◌, ◌↔◌, [], ◌∷◌, refl, some, replicate, Bytes,
}
use onpair.Core.Types.{u32_mod}
use onpair.Core.Validate.{InvalidColumn}
use onpair.Core.Validate.InvalidColumn.{decreasing_offsets}
use onpair.Core.Validate.Checked.{ok, err}
use onpair.Dictionary.View.{IsSorted, IsComplete, Represents}
use onpair.Dictionary.Compact.{
  from_raw, validate, validate_safety, validate_conformance, as_view, scan_pairs, check_flags,
  check_padding, Offsets,
}
use onpair.Dictionary.Compact.Safety.{AreU32, IsSafe, validate_safety-IsSafe}
use onpair.Dictionary.Compact.Violation.{Violates, validate_safety-Violates}
use onpair.Dictionary.Compact.Access.{tokens_of, as_view-Represents}
use onpair.Dictionary.Compact.Conformance.{validate_iff, validate_conformance_iff}
use onpair.Dictionary.Wide
use onpair.Dictionary.Wide.{WideDictionary, to_wide}
use onpair.Dictionary.Compact
use onpair.Dictionary.Compact.{pad_raw}
use onpair.Dictionary.Compact.Padding.{IsPayload, pad_raw-IsSafe}
use onpair.Dictionary.Compact.{token_payload, code_bits_for_num_tokens}
use onpair.Dictionary.Compact.Payload.{token_payload-joined}
use onpair.Dictionary.Compact.Width.{code_bits_for_num_tokens-bounds}
use onpair.Dictionary.Wide.Agree.{validate_safety-to_wide}
use onpair.Dictionary.Wide.Build.{to_wide-Represents}
use onpair.Tests.Data.{
  alphabet_bytes, alphabet_offsets, alphabet-AreU32, alphabet-AreBytes, alphabet-laws, alphabet,
  all_below-get_or,
}

-- Two tokens, `ab` and `b`, with the padding.
abbrev pair_bytes : Bytes
pair_bytes = 97 ∷ 98 ∷ 98 ∷ replicate 15 0

abbrev pair_offsets : Offsets
pair_offsets = 0 ∷ 2 ∷ 3 ∷ []

abbrev crossed_offsets : Offsets
crossed_offsets = 0 ∷ 5 ∷ 3 ∷ []

pair-AreU32 : AreU32 pair_offsets
pair-AreU32 = all_below-get_or u32_mod pair_offsets refl

crossed-AreU32 : AreU32 crossed_offsets
crossed-AreU32 = all_below-get_or u32_mod crossed_offsets refl

pair-IsSafe : IsSafe pair_bytes pair_offsets
unfolding validate_safety scan_pairs check_flags check_padding
pair-IsSafe = (validate_safety-IsSafe pair_bytes pair_offsets pair-AreU32).0 refl

crossed-err : validate_safety pair_bytes crossed_offsets ≡ err decreasing_offsets
unfolding validate_safety scan_pairs check_flags check_padding
crossed-err = refl

validate_iff_example :
    (validate alphabet_bytes alphabet_offsets
      ≡ some (ok (from_raw alphabet_bytes alphabet_offsets)))
    ↔ (IsSafe alphabet_bytes alphabet_offsets × IsSorted alphabet × IsComplete alphabet)
validate_iff_example =
    validate_iff alphabet_bytes alphabet_offsets alphabet-AreU32 alphabet-AreBytes

validate_safety-IsSafe_example :
    (validate_safety pair_bytes pair_offsets ≡ ok tt) ↔ IsSafe pair_bytes pair_offsets
validate_safety-IsSafe_example = validate_safety-IsSafe pair_bytes pair_offsets pair-AreU32

validate_safety-Violates_example : Violates decreasing_offsets pair_bytes crossed_offsets
validate_safety-Violates_example =
    validate_safety-Violates pair_bytes crossed_offsets decreasing_offsets crossed-AreU32
      crossed-err

validate_conformance_iff_example :
    (validate_conformance alphabet_bytes alphabet_offsets ≡ some (ok tt))
    ↔ (IsSorted alphabet × IsComplete alphabet)
validate_conformance_iff_example =
    validate_conformance_iff alphabet_bytes alphabet_offsets alphabet-AreU32 alphabet-laws.0
      alphabet-AreBytes

as_view-Represents_example :
    Represents (as_view (from_raw pair_bytes pair_offsets)) ((97 ∷ 98 ∷ []) ∷ (98 ∷ []) ∷ [])
as_view-Represents_example = as_view-Represents pair_bytes pair_offsets pair-AreU32 pair-IsSafe

to_wide-Represents_example :
    (w : WideDictionary) × (to_wide (from_raw pair_bytes pair_offsets) ≡ some w)
    × Represents (Wide.as_view w) ((97 ∷ 98 ∷ []) ∷ (98 ∷ []) ∷ [])
to_wide-Represents_example = to_wide-Represents pair_bytes pair_offsets pair-AreU32 pair-IsSafe

validate_safety-to_wide_example :
    ((e : InvalidColumn) × (Compact.validate_safety pair_bytes pair_offsets ≡ err e)
      × (Wide.validate_safety pair_bytes pair_offsets ≡ some (err e)))
    ⊎ ((w : WideDictionary) × (Compact.validate_safety pair_bytes pair_offsets ≡ ok tt)
        × (Wide.validate_safety pair_bytes pair_offsets ≡ some (ok w))
        × (to_wide (from_raw pair_bytes pair_offsets) ≡ some w)
        × Represents (Wide.as_view w) ((97 ∷ 98 ∷ []) ∷ (98 ∷ []) ∷ []))
validate_safety-to_wide_example = validate_safety-to_wide pair_bytes pair_offsets pair-AreU32

abbrev bare_bytes : Bytes
bare_bytes = 97 ∷ 98 ∷ 98 ∷ []

bare-IsPayload : IsPayload bare_bytes pair_offsets
bare-IsPayload = record {
  enough = ground arith;
  addressable = ground arith;
  first = refl;
  steps = pair-IsSafe.steps;
  whole = λ i l. ground arith;
}

pad_raw-IsSafe_example :
    (padded : Bytes) × (pad_raw bare_bytes pair_offsets ≡ some padded)
    × IsSafe padded pair_offsets
    × (tokens_of padded pair_offsets ≡ tokens_of bare_bytes pair_offsets)
    × (pad_raw padded pair_offsets ≡ some padded)
pad_raw-IsSafe_example = pad_raw-IsSafe bare_bytes pair_offsets pair-AreU32 bare-IsPayload

token_payload-joined_example :
    token_payload (from_raw pair_bytes pair_offsets) ≡ some (97 ∷ 98 ∷ 98 ∷ [])
token_payload-joined_example = token_payload-joined pair_bytes pair_offsets pair-IsSafe

code_bits_for_num_tokens-bounds_example :
    (bits : ℕ) × (code_bits_for_num_tokens 257 ≡ bits + 1)
    × (2 ^ bits < 257)
    × (257 ≤ 2 ^ (bits + 1))
code_bits_for_num_tokens-bounds_example =
    code_bits_for_num_tokens-bounds 257 (ground arith) (ground arith)
