-- ===== src/Search/Build/Advance.antt =====
-- search/substring/dfa.rs: where the `while` loops over positions stop.
use onpair.Common.{
  ℕ, zero, suc, ◌+◌, ◌≤◌, ◌<◌, ◌≡◌, ◌∙◌, Bool, true, false, some, Option, arith, Bool-cases, inl,
  inr, refl, ℕ_discrete, ap,
}
use onpair.Search.Build.{advance}

-- `end` is the first position from `i` on at which `test` fails.
pub record Stops (test : ℕ → Bool) (i end : ℕ) : Type 0 where
  pub from : i ≤ end
  pub passed : (k : ℕ) → i ≤ k → k < end → test k ≡ true
  pub stopped : test end ≡ false

pub Stops-later : (test : ℕ → Bool) (i end : ℕ) → Stops test i end → test i ≡ true → i < end
Stops-later test i end s h = elim (ℕ_discrete i end) [
  | yes e ↦ let q = s.stopped in absurd (ground (arith, ap test e))
  | no ne ↦ omega (arith, s.from)
]

module _ (cond : ℕ → Option Bool) (test : ℕ → Bool) (start n : ℕ)
    (reads : (k : ℕ) → start ≤ k → k ≤ n → cond k ≡ some (test k)) (over : test n ≡ false) where
  -- On a condition that does not panic up to a position where it fails.
  pub advance-Stops :
      (fuel i : ℕ)
      → start ≤ i
      → i ≤ n
      → n < fuel + i
      → (end : ℕ) × (advance cond fuel i ≡ some end) × (end ≤ n) × Stops test i end
  unfolding advance
  advance-Stops zero i b l f = absurd (omega arith)
  advance-Stops (suc fuel) i below l f = elim (Bool-cases (test i)) [
    | inr h ↦ (
      i,
      rw (reads i below l, h, advance) refl,
      l,
      record { from = omega arith; passed = λ k a b. absurd (omega arith); stopped = h },
    )
    | inl h ↦
        let ne : i < n = elim (ℕ_discrete i n) [
          | yes e ↦ absurd (ground (arith, ap test e))
          | no ne ↦ omega arith
        ] in
        let (end, e, u, s) = advance-Stops fuel (i + 1) (omega arith) (omega arith) (omega arith) in
        (
          end,
          rw (reads i below l, h, advance) e,
          u,
          record {
            from = omega (arith, s.from);
            passed = λ k a b. elim (ℕ_discrete k i) [
              | yes q ↦ ap test q ∙ h
              | no q ↦ s.passed k (omega arith) b
            ];
            stopped = s.stopped;
          },
        )
  ]
