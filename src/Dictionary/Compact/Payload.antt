-- ===== src/Dictionary/Compact/Payload.antt =====
-- core/dictionary/compact.rs, `token_payload`: the payload is the tokens, one behind the other.
use onpair.Common.{
  ℕ, suc, ◌+◌, ◌-◌, ◌≤◌, ◌≡◌, ◌∙◌, sym, ap, some, Option, get_elem?, arith, [], ◌∷◌, ◌++◌, Bytes,
  length, take, drop, get_elem?-eq-get_or, take-add, drop-drop,
}
use mathlib.Core.Option
use onpair.Dictionary.View.{Tokens}
use onpair.Dictionary.Compact.{Offsets, slice, token_payload, logical_len, from_raw}
use onpair.Dictionary.Compact.Safety.{offset, HasSteps, HasSteps-tail, IsSafe}
use onpair.Dictionary.Compact.Access.{tokens_of, offset_mono, slice_lem}

abbrev pub joined : Tokens → Bytes
joined [] = []
joined (t ∷ toks) = t ++ joined toks

joined-tokens_of :
    (bytes : Bytes) (a : ℕ) (rest : Offsets)
    → HasSteps (a ∷ rest)
    → joined (tokens_of bytes (a ∷ rest))
      ≡ take (offset (a ∷ rest) (length rest) - a) (drop a bytes)
joined-tokens_of bytes a [] s =
    let e : 0 ≡ a - a = omega arith in ap (λ (n : ℕ). take n (drop a bytes)) e
joined-tokens_of bytes a (b ∷ rest) s =
    let up = s 0 (omega arith) in
    let last : ℕ = offset (b ∷ rest) (length rest) in
    let z : 0 + length rest ≡ length rest = omega arith in
    let le : b ≤ last = omega (
      arith,
      offset_mono (b ∷ rest) (HasSteps-tail a (b ∷ rest) s) (length rest) 0 (omega arith),
      ap (offset (b ∷ rest)) z,
    ) in
    let e : b - a + (last - b) ≡ last - a = omega arith in
    let f : a + (b - a) ≡ b = omega arith in
    ap (λ (t : Bytes). take (b - a) (drop a bytes) ++ t)
      (joined-tokens_of bytes b rest (HasSteps-tail a (b ∷ rest) s)
        ∙ ap (λ (n : ℕ). take (last - b) (drop n bytes)) (sym f)
        ∙ ap (take (last - b)) (sym (drop-drop (b - a) a bytes)))
    ∙ sym (take-add (b - a) (last - b) (drop a bytes))
    ∙ ap (λ (n : ℕ). take n (drop a bytes)) e

-- On safe buffers token_payload does not panic, and is the concatenation of the tokens.
pub token_payload-joined :
    (bytes : Bytes) (offsets : Offsets)
    → IsSafe bytes offsets
    → token_payload (from_raw bytes offsets) ≡ some (joined (tokens_of bytes offsets))
unfolding token_payload
token_payload-joined bytes [] s = absurd (omega (arith, s.enough))
token_payload-joined bytes (a ∷ rest) s =
    let last : ℕ = offset (a ∷ rest) (length rest) in
    let e : length rest ≡ suc (length rest - 1) = omega (arith, s.enough) in
    let f : length (a ∷ rest) - 2 ≡ length rest - 1 = omega (arith, s.enough) in
    let within : last ≤ length bytes = omega (
      arith,
      s.steps (length rest - 1) (omega (arith, s.enough)),
      s.padded,
      ap (offset (a ∷ rest)) e,
      ap (offset (a ∷ rest)) f,
    ) in
    let g : length (a ∷ rest) - 1 ≡ length rest = omega arith in
    let read : logical_len (a ∷ rest) ≡ last =
      ap (λ (i : ℕ). Option.get_or (get_elem? (a ∷ rest) i) 0) g
      ∙ ap (λ (o : Option ℕ). Option.get_or o 0)
          (get_elem?-eq-get_or (a ∷ rest) (length rest) 0 (omega arith)) in
    let z : a ≡ 0 = s.first in
    ap (slice bytes 0) read
    ∙ slice_lem bytes 0 last (omega arith) within
    ∙ ap some (
        sym (
          joined-tokens_of bytes a rest s.steps ∙ ap (λ (n : ℕ). take (last - n) (drop n bytes)) z))
