-- ===== src/Dictionary/Compact/Alphabet.antt =====
-- core/dictionary/compact.rs, the alphabet bitset of `validate_conformance`: bit `b & 63` of word
-- `b >> 6` says whether byte `b` is a token.
use onpair.Common.{
  ℕ, zero, suc, ◌+◌, ◌*◌, ◌/◌, ◌%◌, ◌^◌, ◌<◌, ◌≡◌, ◌↔◌, ◌∙◌, true, List, [], ◌∷◌, arith, ap, sym,
  subst, length, get_or, get_or-set_self, get_or-set_ne, length-set, ◌==◌, if◌then◌else◌, ◌≢◌,
  ℕ_discrete,
}
use Prim.Native.Nat.{bit_or}
use onpair.Common.Bits.{bit, bit-set, bit_or-lt, pow-lt, all_bits, bit-all}
use onpair.Dictionary.Compact.{mark, is_complete, u64_max}

-- Whether byte `b` is in the set, as 0 or 1.
abbrev pub seen_bit : List ℕ → ℕ → ℕ
seen_bit seen b = bit (get_or seen (b / 64) 0) (b % 64)

-- Four `u64` words.
pub record IsBitset (seen : List ℕ) : Type 0 where
  pub words : length seen ≡ 4
  pub fits : (i : ℕ) → i < 4 → get_or seen i 0 < 2 ^ 64

pub mark-IsBitset : (seen : List ℕ) (b : ℕ) → b < 256 → IsBitset seen → IsBitset (mark seen b)
mark-IsBitset seen b small s = record {
  words = length-set seen (b / 64) _ ∙ s.words;
  fits = λ i l. elim (ℕ_discrete (b / 64) i) [
    | yes e ↦
        subst (λ (x : ℕ). x < 2 ^ 64)
          (sym (
            ap (λ (j : ℕ). get_or (mark seen b) j 0) (sym e)
            ∙ get_or-set_self seen (b / 64) _ 0 (omega (arith, s.words))))
          (bit_or-lt 64 (get_or seen (b / 64) 0) (2 ^ (b % 64)) (s.fits (b / 64) (omega arith))
            (pow-lt (b % 64) 64 (omega arith)))
    | no n ↦ subst (λ (x : ℕ). x < 2 ^ 64) (sym (get_or-set_ne seen (b / 64) i _ 0 n)) (s.fits i l)
  ];
}

-- Marking a byte adds it to the set.
pub seen_bit-mark :
    (seen : List ℕ) (b c : ℕ)
    → b < 256
    → IsBitset seen
    → seen_bit (mark seen b) c ≡ (if c == b then 1 else seen_bit seen c)
seen_bit-mark seen b c small s = elim (ℕ_discrete (b / 64) (c / 64)) [
  | yes e ↦
      let word : get_or (mark seen b) (c / 64) 0 ≡ bit_or (get_or seen (c / 64) 0) (2 ^ (b % 64)) =
        ap (λ (j : ℕ). get_or (mark seen b) j 0) (sym e)
        ∙ get_or-set_self seen (b / 64) _ 0 (omega (arith, s.words))
        ∙ ap (λ (j : ℕ). bit_or (get_or seen j 0) (2 ^ (b % 64))) e in
      ap (λ (x : ℕ). bit x (c % 64)) word
      ∙ bit-set (get_or seen (c / 64) 0) (b % 64) (c % 64)
      ∙ same_test (seen_bit seen c) (omega arith) (omega arith)
  | no n ↦
      ap (λ (x : ℕ). bit x (c % 64)) (get_or-set_ne seen (b / 64) (c / 64) _ 0 n)
      ∙ other (seen_bit seen c) (λ e. n (ap (λ (x : ℕ). x / 64) (sym e)))
]
  where
    same_test :
        (x : ℕ)
        → (c % 64 ≡ b % 64 → c ≡ b)
        → (c ≡ b → c % 64 ≡ b % 64)
        → (if c % 64 == b % 64 then 1 else x) ≡ (if c == b then 1 else x)
    same_test x f g = ground (arith, f, g)

    other : (x : ℕ) → c ≢ b → x ≡ (if c == b then 1 else x)
    other x n = ground arith

complete_words :
    (seen : List ℕ) → is_complete seen ≡ true → (i : ℕ) → i < 4 → get_or seen i 0 ≡ u64_max
complete_words [] h i l = cc
complete_words (w₀ ∷ []) h i l = cc
complete_words (w₀ ∷ w₁ ∷ []) h i l = cc
complete_words (w₀ ∷ w₁ ∷ w₂ ∷ []) h i l = cc
complete_words (w₀ ∷ w₁ ∷ w₂ ∷ w₃ ∷ v ∷ vs) h i l = cc
complete_words (w₀ ∷ w₁ ∷ w₂ ∷ w₃ ∷ []) h zero l = ground arith
complete_words (w₀ ∷ w₁ ∷ w₂ ∷ w₃ ∷ []) h (suc zero) l = ground arith
complete_words (w₀ ∷ w₁ ∷ w₂ ∷ w₃ ∷ []) h (suc (suc zero)) l = ground arith
complete_words (w₀ ∷ w₁ ∷ w₂ ∷ w₃ ∷ []) h (suc (suc (suc zero))) l = ground arith
complete_words (w₀ ∷ w₁ ∷ w₂ ∷ w₃ ∷ []) h (suc (suc (suc (suc i)))) l = absurd (omega arith)

words_complete :
    (seen : List ℕ)
    → length seen ≡ 4
    → ((i : ℕ) → i < 4 → get_or seen i 0 ≡ u64_max)
    → is_complete seen ≡ true
words_complete [] n f = absurd (omega arith)
words_complete (w₀ ∷ []) n f = absurd (omega arith)
words_complete (w₀ ∷ w₁ ∷ []) n f = absurd (omega arith)
words_complete (w₀ ∷ w₁ ∷ w₂ ∷ []) n f = absurd (omega arith)
words_complete (w₀ ∷ w₁ ∷ w₂ ∷ w₃ ∷ v ∷ vs) n f = absurd (omega arith)
words_complete (w₀ ∷ w₁ ∷ w₂ ∷ w₃ ∷ []) n f =
    let a : w₀ ≡ u64_max = f 0 (omega arith) in
    let b : w₁ ≡ u64_max = f 1 (omega arith) in
    let c : w₂ ≡ u64_max = f 2 (omega arith) in
    let d : w₃ ≡ u64_max = f 3 (omega arith) in ground (arith, a, b, c, d)

-- The final test of the four words holds exactly if every byte is in the set.
pub is_complete_iff :
    (seen : List ℕ)
    → IsBitset seen
    → (is_complete seen ≡ true) ↔ ((b : ℕ) → b < 256 → seen_bit seen b ≡ 1)
is_complete_iff seen s = (
  λ h b l.
      bit-all 64 (get_or seen (b / 64) 0)
        (omega (arith, complete_words seen h (b / 64) (omega arith))) (b % 64) (omega arith),
  λ f. words_complete seen s.words (λ i l.
      let full = all_bits 64 (get_or seen i 0) (s.fits i l) (λ j k.
        let word : (i * 64 + j) / 64 ≡ i = omega arith in
        let place : (i * 64 + j) % 64 ≡ j = omega arith in
        ap (λ (x : ℕ). bit (get_or seen x 0) j) (sym word)
        ∙ ap (λ (x : ℕ). bit (get_or seen ((i * 64 + j) / 64) 0) x) (sym place)
        ∙ f (i * 64 + j) (omega arith)) in
      omega (arith, full)),
)
