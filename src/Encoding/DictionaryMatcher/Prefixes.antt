-- ===== src/Encoding/DictionaryMatcher/Prefixes.antt =====
-- encoding/dictionary_matcher.rs: the number of leading bytes that two keys share.
use onpair.Common.{
  ℕ, zero, suc, ◌+◌, ◌-◌, ◌*◌, ◌/◌, ◌^◌, ◌≤◌, ◌<◌, ◌≡◌, ◌∙◌, inl, inr, refl, sym, ap, arith, [],
  ◌∷◌, ◌++◌, Bytes, length, length-append, lex_lt, lex_lt-total, Bool-cases,
}
use native.Mathlib.Nat.{mul-add-div_right, div-eq_of_lt, mul_assoc, add-mul}
use native.Mathlib.Omega.{pow_step}
use onpair.Dictionary.View.{AreBytes}
use onpair.Encoding.DictionaryMatcher.{from_be_bytes}
use onpair.Encoding.DictionaryMatcher.Keys.{AreBytes-tail, from_be_bytes_lt, from_be_bytes-lex_lt}
use onpair.Encoding.DictionaryMatcher.Bits.{bit_length_le, shared-bit_length, bit_length-shared}
use onpair.Encoding.DictionaryMatcher.Find.{xor, bit_length}

-- The number of leading bytes that two keys share.
abbrev pub common_bytes : ℕ → ℕ → ℕ
common_bytes a b = (128 - bit_length 128 (xor 128 a b)) / 8

pow_pos : (n : ℕ) → 0 < 256 ^ n
pow_pos zero = ground arith
pow_pos (suc n) = omega (arith, pow_step 256 n, pow_pos n)

pow_append : (n m : ℕ) → 256 ^ (n + m) ≡ 256 ^ n * 256 ^ m
pow_append zero m = ap (λ (k : ℕ). 256 ^ k) (omega arith) ∙ one_mul (256 ^ m)
  where
    one_mul : (x : ℕ) → x ≡ 256 ^ 0 * x
    one_mul x = omega arith
pow_append (suc n) m =
    ap (λ (k : ℕ). 256 ^ k) (next n m)
    ∙ pow_step 256 (n + m)
    ∙ ap (λ (k : ℕ). 256 * k) (pow_append n m)
    ∙ sym (mul_assoc 256 (256 ^ n) (256 ^ m))
    ∙ ap (λ (k : ℕ). k * 256 ^ m) (sym (pow_step 256 n))
  where
    next : (n m : ℕ) → suc n + m ≡ suc (n + m)
    next n m = omega arith

from_be_bytes-append :
    (p r : Bytes) → from_be_bytes (p ++ r) ≡ from_be_bytes p * 256 ^ length r + from_be_bytes r
from_be_bytes-append [] r = omega arith
from_be_bytes-append (b ∷ p) r =
    let ih = from_be_bytes-append p r in
    let size : b * 256 ^ length (p ++ r) ≡ b * 256 ^ length p * 256 ^ length r =
      ap (λ (n : ℕ). b * 256 ^ n) (length-append p r)
      ∙ ap (λ (n : ℕ). b * n) (pow_append (length p) (length r))
      ∙ sym (mul_assoc b (256 ^ length p) (256 ^ length r)) in
    let both = add-mul (b * 256 ^ length p) (from_be_bytes p) (256 ^ length r) in omega arith

-- The number of the leading bytes.
from_be_bytes-div :
    (p r : Bytes) → AreBytes r → from_be_bytes (p ++ r) / 256 ^ length r ≡ from_be_bytes p
from_be_bytes-div p r h =
    ap (λ (n : ℕ). n / 256 ^ length r) (from_be_bytes-append p r)
    ∙ mul-add-div_right (pow_pos (length r)) (from_be_bytes p) (from_be_bytes r)
    ∙ ap (λ (n : ℕ). from_be_bytes p + n) (div-eq_of_lt (from_be_bytes_lt r h))
    ∙ zero_right (from_be_bytes p)
  where
    zero_right : (n : ℕ) → n + 0 ≡ n
    zero_right n = omega arith

pub from_be_bytes_inj :
    (s t : Bytes)
    → length s ≡ length t
    → AreBytes s
    → AreBytes t
    → from_be_bytes s ≡ from_be_bytes t
    → s ≡ t
from_be_bytes_inj s t e hs ht q = elim (Bool-cases (lex_lt s t)) [
  | inl l ↦ let c = from_be_bytes-lex_lt s t e hs ht l in absurd (omega arith)
  | inr a ↦ elim (Bool-cases (lex_lt t s)) [
    | inl l ↦ let c = from_be_bytes-lex_lt t s (sym e) ht hs l in absurd (omega arith)
    | inr b ↦ lex_lt-total s t a b
  ]
]

pow_bits : (n : ℕ) → 2 ^ (8 * n) ≡ 256 ^ n
pow_bits zero = refl
pow_bits (suc n) =
    let e : 8 * suc n ≡ suc (suc (suc (suc (suc (suc (suc (suc (8 * n)))))))) = omega arith in
    let q = ap (λ (k : ℕ). 2 ^ k) e in
    omega (
      arith,
      pow_bits n,
      pow_step 256 n,
      pow_step 2 (8 * n),
      pow_step 2 (suc (8 * n)),
      pow_step 2 (suc (suc (8 * n))),
      pow_step 2 (suc (suc (suc (8 * n)))),
      pow_step 2 (suc (suc (suc (suc (8 * n))))),
      pow_step 2 (suc (suc (suc (suc (suc (8 * n)))))),
      pow_step 2 (suc (suc (suc (suc (suc (suc (8 * n))))))),
      pow_step 2 (suc (suc (suc (suc (suc (suc (suc (8 * n)))))))),
    )

AreBytes-append_left : (p r : Bytes) → AreBytes (p ++ r) → AreBytes p
AreBytes-append_left [] r h i l = absurd (omega arith)
AreBytes-append_left (b ∷ p) r h zero l = h 0 (omega arith)
AreBytes-append_left (b ∷ p) r h (suc i) l =
    AreBytes-append_left p r (AreBytes-tail b (p ++ r) h) i (omega arith)

AreBytes-append_right : (p r : Bytes) → AreBytes (p ++ r) → AreBytes r
AreBytes-append_right [] r h = h
AreBytes-append_right (b ∷ p) r h = AreBytes-append_right p r (AreBytes-tail b (p ++ r) h)

-- Two keys, split at the same byte.
module _ (p r p' r' : Bytes) (size : length p + length r ≡ 16) (same : length p ≡ length p')
    (same' : length r ≡ length r') (h : AreBytes (p ++ r)) (h' : AreBytes (p' ++ r')) where
  small : from_be_bytes (p ++ r) < 2 ^ 128
  small =
      let l = from_be_bytes_lt (p ++ r) h in
      let e : 256 ^ length (p ++ r) ≡ 2 ^ 128 =
        ap (λ (n : ℕ). 256 ^ n) (length-append p r ∙ size) in
      omega arith

  small' : from_be_bytes (p' ++ r') < 2 ^ 128
  small' =
      let l = from_be_bytes_lt (p' ++ r') h' in
      let size' : length (p' ++ r') ≡ 16 = omega (arith, length-append p' r') in
      let e : 256 ^ length (p' ++ r') ≡ 2 ^ 128 = ap (λ (n : ℕ). 256 ^ n) size' in omega arith

  scale : 2 ^ (8 * length r) ≡ 256 ^ length r
  scale = pow_bits (length r)

  leading : from_be_bytes (p ++ r) / 2 ^ (8 * length r) ≡ from_be_bytes p
  leading =
      ap (λ (n : ℕ). from_be_bytes (p ++ r) / n) scale
      ∙ from_be_bytes-div p r (AreBytes-append_right p r h)

  leading' : from_be_bytes (p' ++ r') / 2 ^ (8 * length r) ≡ from_be_bytes p'
  leading' =
      ap (λ (n : ℕ). from_be_bytes (p' ++ r') / n) (scale ∙ ap (λ (n : ℕ). 256 ^ n) same')
      ∙ from_be_bytes-div p' r' (AreBytes-append_right p' r' h')

  pub shared-common_bytes :
      p ≡ p' → length p ≤ common_bytes (from_be_bytes (p ++ r)) (from_be_bytes (p' ++ r'))
  shared-common_bytes e =
      let b =
        shared-bit_length 128 (8 * length r) (from_be_bytes (p ++ r)) (from_be_bytes (p' ++ r'))
          small small' (leading ∙ ap from_be_bytes e ∙ sym leading') in
      omega arith

  pub common_bytes-shared :
      length p ≤ common_bytes (from_be_bytes (p ++ r)) (from_be_bytes (p' ++ r')) → p ≡ p'
  common_bytes-shared l =
      let b =
        bit_length-shared 128 (8 * length r) (from_be_bytes (p ++ r)) (from_be_bytes (p' ++ r'))
          small small'
          (omega (
            arith,
            bit_length_le 128 (xor 128 (from_be_bytes (p ++ r)) (from_be_bytes (p' ++ r'))),
          )) in
      from_be_bytes_inj p p' same (AreBytes-append_left p r h) (AreBytes-append_left p' r' h')
        (sym leading ∙ b ∙ leading')
