-- ===== src/Dictionary/Compact/Width.antt =====
-- core/dictionary/compact.rs, `code_bits_for_num_tokens`: the least width that addresses the tokens.
use onpair.Common.{
  ℕ, zero, suc, ◌+◌, ◌-◌, ◌*◌, ◌/◌, ◌%◌, ◌^◌, ◌≤◌, ◌<◌, ◌≡◌, ◌∙◌, refl, false, arith, dec_lt, ltb,
  le→ltb, lt→leb, ap,
}
use native.Mathlib.Omega.{pow_step}
use onpair.Core.Types.{u32_mod, sub32}
use onpair.Dictionary.Compact.{log_loop, code_bits_for_num_tokens}

succ_add : (k : ℕ) → suc k + 1 ≡ suc (k + 1)
succ_add k = omega arith

log_loop-bounds :
    (fuel n : ℕ)
    → 1 ≤ n
    → n < 2 ^ fuel
    → (2 ^ log_loop fuel n ≤ n) × (n < 2 ^ (log_loop fuel n + 1)) × (log_loop fuel n < fuel)
log_loop-bounds zero n l h = absurd (omega (arith, h))
log_loop-bounds (suc fuel) n l h = elim (dec_lt n 2) [
  | yes one ↦ ground (arith, one)
  | no more ↦
      let (a, b, c) =
        log_loop-bounds fuel (n / 2) (omega arith) (omega (arith, h, pow_step 2 fuel)) in
      let e : ltb n 2 ≡ false = le→ltb n 2 (omega arith) in
      let k : ℕ = log_loop fuel (n / 2) in
      let up : 2 ^ suc k ≡ 2 * 2 ^ k = pow_step 2 k in
      let up' : 2 ^ (suc k + 1) ≡ 2 * 2 ^ (k + 1) =
        ap (λ (i : ℕ). 2 ^ i) (succ_add k) ∙ pow_step 2 (k + 1) in
      let lower : 2 ^ suc k ≤ n = omega (arith, a, up) in
      let upper : n < 2 ^ (suc k + 1) = omega (arith, b, up') in
      let small : suc k < suc fuel = omega (arith, c) in rw e (lower, upper, small)
]

-- For 2 to 2^32 - 1 tokens, code_bits_for_num_tokens is the least number of bits that address
-- them all.
pub code_bits_for_num_tokens-bounds :
    (n : ℕ)
    → 2 ≤ n
    → n < u32_mod
    → (bits : ℕ) × (code_bits_for_num_tokens n ≡ bits + 1) × (2 ^ bits < n) × (n ≤ 2 ^ (bits + 1))
unfolding code_bits_for_num_tokens
code_bits_for_num_tokens-bounds n l h =
    let m : sub32 (n % u32_mod) 1 ≡ n - 1 = omega arith in
    let (a, b, c) = log_loop-bounds 32 (n - 1) (omega arith) (omega arith) in
    let bits : ℕ = log_loop 32 (n - 1) in
    let small : (bits + 1) % 256 ≡ bits + 1 = omega (arith, c) in
    (bits, rw (lt→leb n 1 (omega arith), m, small) refl, omega (arith, a), omega (arith, b))
