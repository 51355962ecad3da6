-- ===== src/Encoding/DictionaryMatcher/Bits.antt =====
-- encoding/dictionary_matcher.rs: the leading bits that two keys share.
use onpair.Common.{
  ℕ, zero, suc, ◌/◌, ◌%◌, ◌^◌, ◌≤◌, ◌<◌, ◌≡◌, ◌∙◌, inl, inr, refl, sym, ap, arith, ◌==◌, Bool-cases,
}
use native.Mathlib.Nat.{div-div-eq-div-mul}
use native.Mathlib.Omega.{pow_step}
use onpair.Encoding.DictionaryMatcher.Find.{xor, bit_length}

pub bit_length_zero : (n : ℕ) → bit_length n 0 ≡ 0
bit_length_zero zero = refl
bit_length_zero (suc n) = refl

pub bit_length_le : (n x : ℕ) → bit_length n x ≤ n
bit_length_le zero x = omega arith
bit_length_le (suc n) x = ground (arith, bit_length_le n (x / 2))

-- The lowest bit aside.
xor_half : (n a b : ℕ) → xor (suc n) a b / 2 ≡ xor n (a / 2) (b / 2)
xor_half n a b = ground arith

bit_length_next : (n m x : ℕ) → bit_length n (x / 2) ≤ m → bit_length (suc n) x ≤ suc m
bit_length_next n m x h = ground (arith, h)

bit_length_half : (n m x : ℕ) → bit_length (suc n) x ≤ suc m → bit_length n (x / 2) ≤ m
bit_length_half n m x h = elim (Bool-cases (x == 0)) [
  | inl e ↦
      let z : x / 2 ≡ 0 = ground (arith, e) in
      let q = ap (bit_length n) z ∙ bit_length_zero n in omega arith
  | inr e ↦ ground (arith, h, e)
]

-- Two values without a differing bit are equal.
xor_eq : (n a b : ℕ) → a < 2 ^ n → b < 2 ^ n → xor n a b ≡ 0 → a ≡ b
xor_eq zero a b ha hb e = omega arith
xor_eq (suc n) a b ha hb e =
    let scale = pow_step 2 n in
    let low : a % 2 ≡ b % 2 = ground (arith, e) in
    let high : xor n (a / 2) (b / 2) ≡ 0 = ground (arith, e) in
    let ih = xor_eq n (a / 2) (b / 2) (omega arith) (omega arith) high in omega arith

xor_self : (n a : ℕ) → xor n a a ≡ 0
xor_self zero a = refl
xor_self (suc n) a = ground (arith, xor_self n (a / 2))

bit_length_none : (n x : ℕ) → x < 2 ^ n → bit_length n x ≤ 0 → x ≡ 0
bit_length_none zero x l h = omega arith
bit_length_none (suc n) x l h = ground (arith, h)

half_div : (a m : ℕ) → a / 2 / 2 ^ m ≡ a / 2 ^ suc m
half_div a m = div-div-eq-div-mul a 2 (2 ^ m) ∙ ap (λ (k : ℕ). a / k) (sym (pow_step 2 m))

xor_lt : (n a b : ℕ) → xor n a b < 2 ^ n
xor_lt zero a b = ground arith
xor_lt (suc n) a b =
    let scale = pow_step 2 n in let ih = xor_lt n (a / 2) (b / 2) in ground (arith, ih, scale)

-- If the values share their bits from `m` on, the differing bits are the `m` lowest; and back.
pub shared-bit_length :
    (n m a b : ℕ) → a < 2 ^ n → b < 2 ^ n → a / 2 ^ m ≡ b / 2 ^ m → bit_length n (xor n a b) ≤ m
shared-bit_length zero m a b ha hb e = omega arith
shared-bit_length (suc n) zero a b ha hb e =
    let same : a ≡ b = omega (arith, e) in
    let z = ap (λ (x : ℕ). xor (suc n) a x) (sym same) ∙ xor_self (suc n) a in
    let q = ap (bit_length (suc n)) z in omega arith
shared-bit_length (suc n) (suc m) a b ha hb e =
    let scale = pow_step 2 n in
    let ih =
      shared-bit_length n m (a / 2) (b / 2) (omega arith) (omega arith)
        (half_div a m ∙ e ∙ sym (half_div b m)) in
    let half = ap (bit_length n) (xor_half n a b) in
    bit_length_next n m (xor (suc n) a b) (omega arith)

pub bit_length-shared :
    (n m a b : ℕ) → a < 2 ^ n → b < 2 ^ n → bit_length n (xor n a b) ≤ m → a / 2 ^ m ≡ b / 2 ^ m
bit_length-shared zero m a b ha hb h =
    let same : a ≡ b = omega arith in ap (λ (x : ℕ). x / 2 ^ m) same
bit_length-shared (suc n) zero a b ha hb h =
    let same =
      xor_eq (suc n) a b ha hb (bit_length_none (suc n) (xor (suc n) a b) (xor_lt (suc n) a b) h) in
    ap (λ (x : ℕ). x / 2 ^ 0) same
bit_length-shared (suc n) (suc m) a b ha hb h =
    let scale = pow_step 2 n in
    let half = ap (bit_length n) (xor_half n a b) in
    let low = bit_length_half n m (xor (suc n) a b) h in
    let ih = bit_length-shared n m (a / 2) (b / 2) (omega arith) (omega arith) (omega arith) in
    sym (half_div a m) ∙ ih ∙ half_div b m
