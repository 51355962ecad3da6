-- ===== src/Encoding/DictionaryMatcher/Keys.antt =====
-- encoding/dictionary_matcher.rs: big-endian keys are ordered as their bytes.
use onpair.Common.{
  ℕ, zero, suc, ◌+◌, ◌*◌, ◌^◌, ◌≤◌, ◌<◌, ◌≡◌, ◌∙◌, ◌⊎◌, inl, inr, refl, ap, true, false, arith, [],
  ◌∷◌, Bytes, length, lex_lt, is_prefix, dec_lt,
}
use native.Mathlib.Nat.{mul-le-mul_right}
use native.Mathlib.Omega.{pow_step}
use onpair.Dictionary.View.{AreBytes}
use onpair.Encoding.DictionaryMatcher.{from_be_bytes, buffer}

-- The order of strings, or equality.
abbrev pub LexLe : Bytes → Bytes → Type 0
LexLe a b = (a ≡ b) ⊎ (lex_lt a b ≡ true)

pub AreBytes-tail : (b : ℕ) (s : Bytes) → AreBytes (b ∷ s) → AreBytes s
AreBytes-tail b s h i l = h (suc i) (omega arith)

pub AreBytes-first : (b : ℕ) (s : Bytes) → AreBytes (b ∷ s) → b < 256
AreBytes-first b s h = h 0 (omega arith)

pub from_be_bytes_lt : (s : Bytes) → AreBytes s → from_be_bytes s < 256 ^ length s
from_be_bytes_lt [] h = ground arith
from_be_bytes_lt (b ∷ s) h =
    let small = from_be_bytes_lt s (AreBytes-tail b s h) in
    let step : 256 ^ suc (length s) ≡ 256 * 256 ^ length s = pow_step 256 (length s) in
    let digit : b * 256 ^ length s ≤ 255 * 256 ^ length s =
      mul-le-mul_right (256 ^ length s) (le_of (AreBytes-first b s h)) in
    omega arith
  where
    le_of : b < 256 → b ≤ 255
    le_of l = omega arith

-- A smaller string of the same length has the smaller key.
pub from_be_bytes-lex_lt :
    (s t : Bytes)
    → length s ≡ length t
    → AreBytes s
    → AreBytes t
    → lex_lt s t ≡ true
    → from_be_bytes s < from_be_bytes t
from_be_bytes-lex_lt [] [] e hs ht l = ground arith
from_be_bytes-lex_lt [] (c ∷ t) e hs ht l = absurd (omega arith)
from_be_bytes-lex_lt (b ∷ s) [] e hs ht l = absurd (omega arith)
from_be_bytes-lex_lt (b ∷ s) (c ∷ t) e hs ht l = elim (dec_lt b c) [
  | yes less ↦
      let small = from_be_bytes_lt s (AreBytes-tail b s hs) in
      let size : length s ≡ length t = omega arith in
      let scale : 256 ^ length s ≡ 256 ^ length t = ap (λ (n : ℕ). 256 ^ n) size in
      let digit : suc b * 256 ^ length s ≤ c * 256 ^ length s =
        mul-le-mul_right (256 ^ length s) less in
      let same : c * 256 ^ length s ≡ c * 256 ^ length t = ap (λ (n : ℕ). c * n) scale in
      let split : suc b * 256 ^ length s ≡ b * 256 ^ length s + 256 ^ length s = omega arith in
      omega arith
  | no ge ↦
      let same : b ≡ c = ground (arith, l, ge) in
      let rest : lex_lt s t ≡ true = ground (arith, l, ge) in
      let ih =
        from_be_bytes-lex_lt s t (omega arith) (AreBytes-tail b s hs) (AreBytes-tail c t ht) rest in
      let size : length s ≡ length t = omega arith in
      let scale : b * 256 ^ length s ≡ c * 256 ^ length t =
        ap (λ (n : ℕ). n * 256 ^ length s) same ∙ ap (λ (n : ℕ). c * 256 ^ n) size in
      omega arith
]

pub length-buffer : (n : ℕ) (s : Bytes) → length (buffer n s) ≡ n
length-buffer zero s = refl
length-buffer (suc n) [] = ap suc (length-buffer n [])
length-buffer (suc n) (b ∷ s) = ap suc (length-buffer n s)

pub buffer-AreBytes : (n : ℕ) (s : Bytes) → AreBytes s → AreBytes (buffer n s)
buffer-AreBytes zero s h i l = absurd (omega arith)
buffer-AreBytes (suc n) [] h zero l = ground arith
buffer-AreBytes (suc n) [] h (suc i) l = buffer-AreBytes n [] h i (omega arith)
buffer-AreBytes (suc n) (b ∷ s) h zero l = h 0 (omega arith)
buffer-AreBytes (suc n) (b ∷ s) h (suc i) l =
    buffer-AreBytes n s (AreBytes-tail b s h) i (omega arith)

-- Zeros are the smallest.
buffer-nil_le : (n : ℕ) (s : Bytes) → LexLe (buffer n []) (buffer n s)
buffer-nil_le zero s = inl refl
buffer-nil_le (suc n) [] = inl refl
buffer-nil_le (suc n) (zero ∷ s) = elim (buffer-nil_le n s) [
  | inl e ↦ inl (ap (λ (x : Bytes). 0 ∷ x) e)
  | inr l ↦ inr (ground (arith, l))
]
buffer-nil_le (suc n) (suc b ∷ s) = inr (ground arith)

-- Padding keeps the order.
pub buffer-LexLe :
    (n : ℕ) (s t : Bytes) → length s ≤ n → lex_lt s t ≡ true → LexLe (buffer n s) (buffer n t)
buffer-LexLe zero s t fit l = inl refl
buffer-LexLe (suc n) [] t fit l = buffer-nil_le (suc n) t
buffer-LexLe (suc n) (b ∷ s) [] fit l = absurd (ground arith)
buffer-LexLe (suc n) (b ∷ s) (c ∷ t) fit l = elim (dec_lt b c) [
  | yes less ↦ inr (ground (arith, less))
  | no ge ↦
      let same : b ≡ c = ground (arith, l, ge) in
      let rest : lex_lt s t ≡ true = ground (arith, l, ge) in
      elim (buffer-LexLe n s t (omega arith) rest) [
        | inl e ↦ inl (cc)
        | inr h ↦ inr (ground (arith, same, h))
      ]
]

-- A string between `p` and one that starts with `p` starts with `p`.
pub between-is_prefix :
    (n : ℕ) (p q w : Bytes)
    → length p ≤ n
    → lex_lt q p ≡ false
    → is_prefix p w ≡ true
    → lex_lt (buffer n w) (buffer n q) ≡ false
    → is_prefix p q ≡ true
between-is_prefix n [] q w fit l h le = refl
between-is_prefix zero (a ∷ p) q w fit l h le = absurd (omega arith)
between-is_prefix (suc n) (a ∷ p) [] w fit l h le = absurd (ground arith)
between-is_prefix (suc n) (a ∷ p) (b ∷ q) [] fit l h le = absurd (ground arith)
between-is_prefix (suc n) (a ∷ p) (b ∷ q) (c ∷ w) fit l h le =
    let first : a ≡ c = ground (arith, h) in
    let same : a ≡ b = ground (arith, l, le, first) in
    let ih =
      between-is_prefix n p q w (omega arith) (ground (arith, l, same)) (ground (arith, h))
        (ground (arith, le, same, first)) in
    ground (arith, ih, same)
