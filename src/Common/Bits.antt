-- ===== src/Common/Bits.antt =====
-- Single bits of words: what setting a bit does, and the word whose bits are all set.
use Prim.Native.Nat.{
  ℕ, zero, suc, ◌+◌, ◌*◌, ◌/◌, ◌%◌, ◌^◌, ◌≤◌, ◌<◌, max, digits, bit_or, bit_or-bitwise,
}
use mathlib.Core.Path.{◌≡◌, refl, ap, ◌∙◌}
use native.Mathlib.Nat.{pow-suc}
use native.Mathlib.Omega.{arith}
use onpair.Common.Tests.{◌==◌, if◌then◌else◌}

-- Bit `j` of `x`, as 0 or 1.
abbrev pub bit : ℕ → ℕ → ℕ
bit x zero = x % 2
bit x (suc j) = bit (x / 2) j

or_rounds : (m n a b : ℕ) → a ≤ m → a ≤ n → digits (λ y. y) max m a b ≡ digits (λ y. y) max n a b
or_rounds zero zero a b h k = refl
or_rounds zero (suc n) zero b h k = refl
or_rounds zero (suc n) (suc a) b h k = elim h [ ]
or_rounds (suc m) zero zero b h k = refl
or_rounds (suc m) zero (suc a) b h k = elim k [ ]
or_rounds (suc m) (suc n) zero b h k = refl
or_rounds (suc m) (suc n) (suc a) b h k =
    omega (arith, or_rounds m n (suc a / 2) (b / 2) (omega arith) (omega arith))

zero-bit_or : (b : ℕ) → bit_or 0 b ≡ b
zero-bit_or b = bit_or-bitwise 0 b

pub bit_or_halves : (a b : ℕ) → bit_or a b ≡ bit_or (a / 2) (b / 2) * 2 + max (a % 2) (b % 2)
bit_or_halves zero b = omega (arith, zero-bit_or b, zero-bit_or (b / 2))
bit_or_halves (suc a) b = omega (
  arith,
  bit_or-bitwise (suc a) b,
  bit_or-bitwise (suc a / 2) (b / 2),
  or_rounds a (suc a / 2) (suc a / 2) (b / 2) (omega arith) (omega arith),
)

pub bit-bit_or : (j a b : ℕ) → bit (bit_or a b) j ≡ max (bit a j) (bit b j)
bit-bit_or zero a b = omega (arith, bit_or_halves a b)
bit-bit_or (suc j) a b =
    let e : bit_or a b / 2 ≡ bit_or (a / 2) (b / 2) = omega (arith, bit_or_halves a b) in
    ap (λ (x : ℕ). bit x j) e ∙ bit-bit_or j (a / 2) (b / 2)

pow_half : (k : ℕ) → 2 ^ suc k ≡ 2 * 2 ^ k
pow_half k = omega (arith, pow-suc 2 k)

bit-zero : (j : ℕ) → bit 0 j ≡ 0
bit-zero zero = refl
bit-zero (suc j) = bit-zero j

-- The bits of `1 << k`.
pub bit-pow : (k j : ℕ) → bit (2 ^ k) j ≡ (if j == k then 1 else 0)
bit-pow zero zero = refl
bit-pow zero (suc j) = bit-zero j ∙ ground arith
bit-pow (suc k) zero = omega (arith, pow_half k) ∙ tail k
  where
    tail : (k : ℕ) → ◌≡◌ {A = ℕ} 0 (if 0 == suc k then 1 else 0)
    tail k = ground arith
bit-pow (suc k) (suc j) =
    let e : 2 ^ suc k / 2 ≡ 2 ^ k = omega (arith, pow_half k) in
    ap (λ (x : ℕ). bit x j) e ∙ bit-pow k j ∙ ground arith

-- Setting bit `k` sets that bit and leaves the others.
pub bit-set : (x k j : ℕ) → bit (bit_or x (2 ^ k)) j ≡ (if j == k then 1 else bit x j)
bit-set x k j = bit-bit_or j x (2 ^ k) ∙ ground (arith, bit-pow k j, bit_le x j)
  where
    bit_le : (x j : ℕ) → bit x j ≤ 1
    bit_le x zero = omega arith
    bit_le x (suc j) = bit_le (x / 2) j

pub bit_or-lt : (n a b : ℕ) → a < 2 ^ n → b < 2 ^ n → bit_or a b < 2 ^ n
bit_or-lt zero a b h k =
    let a0 : a ≡ 0 = omega arith in let b0 : b ≡ 0 = omega arith in ap₀ a b a0 b0
  where
    ap₀ : (a b : ℕ) → a ≡ 0 → b ≡ 0 → bit_or a b < 1
    ap₀ a b p q = omega (arith, ap (λ (x : ℕ). bit_or x b) p, zero-bit_or b)
bit_or-lt (suc n) a b h k = omega (
  arith,
  pow_half n,
  bit_or_halves a b,
  bit_or-lt n (a / 2) (b / 2) (omega (arith, pow_half n)) (omega (arith, pow_half n)),
)

pub pow-lt : (k n : ℕ) → k < n → 2 ^ k < 2 ^ n
pow-lt k zero h = elim h [ ]
pow-lt zero (suc n) h = omega (arith, pow_half n, positive n)
  where
    positive : (n : ℕ) → 0 < 2 ^ n
    positive zero = omega arith
    positive (suc n) = omega (arith, positive n, pow_half n)
pow-lt (suc k) (suc n) h = omega (arith, pow_half k, pow_half n, pow-lt k n (omega arith))

-- A word with all its bits set is the greatest.
pub all_bits : (n x : ℕ) → x < 2 ^ n → ((j : ℕ) → j < n → bit x j ≡ 1) → x + 1 ≡ 2 ^ n
all_bits zero x h f = omega arith
all_bits (suc n) x h f = omega (
  arith,
  pow_half n,
  f 0 (omega arith),
  all_bits n (x / 2) (omega (arith, pow_half n)) (λ j l. f (suc j) (omega arith)),
)

pub bit-all : (n x : ℕ) → x + 1 ≡ 2 ^ n → (j : ℕ) → j < n → bit x j ≡ 1
bit-all zero x h j l = elim l [ ]
bit-all (suc n) x h zero l = omega (arith, pow_half n)
bit-all (suc n) x h (suc j) l = bit-all n (x / 2) (omega (arith, pow_half n)) j (omega arith)
