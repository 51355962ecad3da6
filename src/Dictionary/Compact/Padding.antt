-- ===== src/Dictionary/Compact/Padding.antt =====
-- core/dictionary/compact.rs, `pad_raw`: the padding makes well-formed buffers safe, and keeps the
-- token table.
use onpair.Common.{
  ℕ, zero, suc, ◌+◌, ◌-◌, ◌≤◌, ◌<◌, ◌≡◌, ◌∙◌, refl, some, [], ◌∷◌, ◌++◌, Bytes, length, take, drop,
  replicate, arith, ap, length-append, length-replicate, length-drop, take-append_le, lt→ltb,
  le→ltb, lt→leb, get_elem?-eq-get_or, dec_lt,
}
use onpair.Core.Types.{token_mod, usize_mod, max_token_size}
use onpair.Dictionary.Compact.{Offsets, pad_raw}
use onpair.Dictionary.Compact.Safety.{offset, AreU32, HasSteps, IsSafe}
use onpair.Dictionary.Compact.Access.{tokens_of}

-- The buffers before padding: the tokens are well formed, and their bytes are there.
pub record IsPayload (bytes : Bytes) (offsets : Offsets) : Type 0 where
  pub enough : 2 ≤ length offsets
  pub addressable : length offsets ≤ token_mod + 1
  pub first : offset offsets 0 ≡ 0
  pub steps : HasSteps offsets
  pub whole : (i : ℕ) → i < length offsets → offset offsets i ≤ length bytes

drop-append_le : (n : ℕ) (xs ys : Bytes) → n ≤ length xs → drop n (xs ++ ys) ≡ drop n xs ++ ys
drop-append_le zero xs ys h = refl
drop-append_le (suc n) [] ys h = elim h [ ]
drop-append_le (suc n) (x ∷ xs) ys h = drop-append_le n xs ys (omega arith)

-- Bytes behind the last offset do not matter.
tokens_of-append :
    (bytes zs : Bytes) (offsets : Offsets)
    → HasSteps offsets
    → ((i : ℕ) → i < length offsets → offset offsets i ≤ length bytes)
    → tokens_of (bytes ++ zs) offsets ≡ tokens_of bytes offsets
tokens_of-append bytes zs [] s h = refl
tokens_of-append bytes zs (a ∷ []) s h = refl
tokens_of-append bytes zs (a ∷ b ∷ rest) s h =
    let here : take (b - a) (drop a (bytes ++ zs)) ≡ take (b - a) (drop a bytes) =
      ap (λ (x : Bytes). take (b - a) x) (drop-append_le a bytes zs (h 0 (omega arith)))
      ∙ take-append_le (b - a) (drop a bytes) zs
          (omega (arith, length-drop a bytes, h 1 (omega arith))) in
    let there : tokens_of (bytes ++ zs) (b ∷ rest) ≡ tokens_of bytes (b ∷ rest) =
      tokens_of-append bytes zs (b ∷ rest) (λ i l. s (suc i) (omega arith))
        (λ i l. h (suc i) (omega arith)) in
    rw (here, there) refl

module _ (bytes : Bytes) (offsets : Offsets) (u : AreU32 offsets)
    (p : IsPayload bytes offsets) where
  abbrev required : ℕ
  required = offset offsets (length offsets - 2) + max_token_size

  pad_raw-long : required ≤ length bytes → pad_raw bytes offsets ≡ some bytes
  unfolding pad_raw
  pad_raw-long h =
      rw
        (
          le→ltb (length offsets) 2 p.enough,
          get_elem?-eq-get_or offsets (length offsets - 2) 0 (omega (arith, p.enough)),
          lt→ltb (offset offsets (length offsets - 2) + max_token_size) usize_mod
              (omega (arith, u (length offsets - 2) (omega (arith, p.enough)))),
          le→ltb (length bytes) required h,
        )
        refl

  pad_raw-short :
      length bytes < required
      → pad_raw bytes offsets ≡ some (bytes ++ replicate (required - length bytes) 0)
  unfolding pad_raw
  pad_raw-short h =
      rw
        (
          le→ltb (length offsets) 2 p.enough,
          get_elem?-eq-get_or offsets (length offsets - 2) 0 (omega (arith, p.enough)),
          lt→ltb (offset offsets (length offsets - 2) + max_token_size) usize_mod
              (omega (arith, u (length offsets - 2) (omega (arith, p.enough)))),
          lt→ltb (length bytes) required h,
          lt→leb required (length bytes) h,
        )
        refl

  padded-IsSafe : (zs : Bytes) → required ≤ length (bytes ++ zs) → IsSafe (bytes ++ zs) offsets
  padded-IsSafe zs h = record {
    enough = p.enough;
    addressable = p.addressable;
    first = p.first;
    steps = p.steps;
    padded = h;
  }

  unpadded-IsSafe : required ≤ length bytes → IsSafe bytes offsets
  unpadded-IsSafe h = record {
    enough = p.enough;
    addressable = p.addressable;
    first = p.first;
    steps = p.steps;
    padded = h;
  }

  padded-IsPayload : (zs : Bytes) → IsPayload (bytes ++ zs) offsets
  padded-IsPayload zs = record {
    enough = p.enough;
    addressable = p.addressable;
    first = p.first;
    steps = p.steps;
    whole = λ i l. omega (arith, length-append bytes zs, p.whole i l);
  }

-- On well-formed u32 offsets whose tokens are in the buffer, pad_raw does not panic; its buffer
-- is safe and holds the same token table, and padding it again changes nothing.
pub pad_raw-IsSafe :
    (bytes : Bytes) (offsets : Offsets)
    → AreU32 offsets
    → IsPayload bytes offsets
    → (padded : Bytes) × (pad_raw bytes offsets ≡ some padded)
      × IsSafe padded offsets
      × (tokens_of padded offsets ≡ tokens_of bytes offsets)
      × (pad_raw padded offsets ≡ some padded)
pad_raw-IsSafe bytes offsets u p = elim (dec_lt (length bytes) (required bytes offsets u p)) [
  | no long ↦
      let e : pad_raw bytes offsets ≡ some bytes = pad_raw-long bytes offsets u p (omega arith) in
      (bytes, e, unpadded-IsSafe bytes offsets u p (omega arith), refl, e)
  | yes short ↦
      let zs : Bytes = replicate (required bytes offsets u p - length bytes) 0 in
      let room : required bytes offsets u p ≤ length (bytes ++ zs) = omega (
        arith,
        length-append bytes zs,
        length-replicate {A = ℕ} (required bytes offsets u p - length bytes) 0,
      ) in
      (
        bytes ++ zs,
        pad_raw-short bytes offsets u p short,
        padded-IsSafe bytes offsets u p zs room,
        tokens_of-append bytes zs offsets p.steps p.whole,
        pad_raw-long (bytes ++ zs) offsets u (padded-IsPayload bytes offsets u p zs) room,
      )
]
