-- ===== src/Search/Lookup/Bisect.antt =====
-- search/lookup.rs, the loops of `narrow`: the cut between the ids where a monotone test holds and
-- those where it does not.
use onpair.Common.{
  ℕ, zero, suc, ◌-◌, ◌/◌, ◌≤◌, ◌<◌, ◌≡◌, ◌∙◌, Bool, true, false, Option, some, arith, ltb,
  Bool-cases, ap, sym, inl, inr, dec_lt, false≢true,
}
use onpair.Core.Types.{Token, token_mod, add16}
use onpair.Search.Lookup.{bisect}

abbrev pub mid : ℕ → ℕ → ℕ
mid lo hi = add16 lo ((hi - lo) / 2)

module _ (test : Token → Option Bool) (fuel lo hi : ℕ) where
  bisect_stop : ltb lo hi ≡ false → bisect test (suc fuel) lo hi ≡ some lo
  unfolding bisect
  bisect_stop h = ground arith

  bisect_right :
      ltb lo hi ≡ true
      → test (mid lo hi) ≡ some true
      → bisect test (suc fuel) lo hi ≡ bisect test fuel (add16 (mid lo hi) 1) hi
  unfolding bisect
  bisect_right h t = ground arith

  bisect_left :
      ltb lo hi ≡ true
      → test (mid lo hi) ≡ some false
      → bisect test (suc fuel) lo hi ≡ bisect test fuel lo (mid lo hi)
  unfolding bisect
  bisect_left h t = ground arith

-- The test `g` holds below `r` and fails from `r` on.
pub record Cuts (g : ℕ → Bool) (lo hi r : ℕ) : Type 0 where
  pub at_least : lo ≤ r
  pub at_most : r ≤ hi
  pub holds : (i : ℕ) → lo ≤ i → i < r → g i ≡ true
  pub fails : (i : ℕ) → r ≤ i → i < hi → g i ≡ false

abbrev pub IsMonotone : (ℕ → Bool) → ℕ → ℕ → Type 0
IsMonotone g lo hi = (i j : ℕ) → lo ≤ i → i < j → j < hi → g j ≡ true → g i ≡ true

-- With fuel above the width of a range inside u16 and a test that is defined and monotone on it,
-- the binary search ends and returns the cut.
pub bisect-Cuts :
    (test : Token → Option Bool) (g : ℕ → Bool) (fuel lo hi : ℕ)
    → hi < token_mod
    → lo ≤ hi
    → hi - lo < fuel
    → ((i : ℕ) → lo ≤ i → i < hi → test i ≡ some (g i))
    → IsMonotone g lo hi
    → (r : ℕ) × (bisect test fuel lo hi ≡ some r) × Cuts g lo hi r
bisect-Cuts test g zero lo hi small p f def mono = elim f [ ]
bisect-Cuts test g (suc fuel) lo hi small p f def mono = elim (Bool-cases (ltb lo hi)) [
  | inl h ↦
      let inside : lo < hi = ground arith in
      elim (Bool-cases (g (mid lo hi))) [
        | inl t ↦
            let (r, e, c) =
              bisect-Cuts test g fuel (add16 (mid lo hi) 1) hi small (omega arith) (omega arith)
                (λ i l u. def i (omega arith) u) (λ i j l. mono i j (omega arith)) in
            (
              r,
              bisect_right test fuel lo hi h
                    (def (mid lo hi) (omega arith) (omega arith) ∙ ap some t)
                  ∙ e,
              record {
                at_least = omega (arith, c.at_least);
                at_most = c.at_most;
                holds = λ i l u. elim (dec_lt i (mid lo hi)) [
                  | yes below ↦ mono i (mid lo hi) l below (omega arith) t
                  | no above ↦ elim (dec_lt (mid lo hi) i) [
                    | yes over ↦ c.holds i (omega arith) u
                    | no same ↦ let eq : i ≡ mid lo hi = omega arith in ap g eq ∙ t
                  ]
                ];
                fails = c.fails;
              },
            )
        | inr t ↦
            let (r, e, c) =
              bisect-Cuts test g fuel lo (mid lo hi) (omega arith) (omega arith) (omega arith)
                (λ i l u. def i l (omega arith)) (λ i j l k u. mono i j l k (omega arith)) in
            (
              r,
              bisect_left test fuel lo hi h
                    (def (mid lo hi) (omega arith) (omega arith) ∙ ap some t)
                  ∙ e,
              record {
                at_least = c.at_least;
                at_most = omega (arith, c.at_most);
                holds = c.holds;
                fails = λ i l u. elim (dec_lt i (mid lo hi)) [
                  | yes below ↦ c.fails i l below
                  | no above ↦ elim (Bool-cases (g i)) [
                    | inr no_hold ↦ no_hold
                    | inl hold ↦ elim (dec_lt (mid lo hi) i) [
                      | yes over ↦
                          absurd (false≢true (sym t ∙ mono (mid lo hi) i (omega arith) over u hold))
                      | no same ↦ let eq : i ≡ mid lo hi = omega arith in ap g eq ∙ t
                    ]
                  ]
                ];
              },
            )
      ]
  | inr h ↦ (
    lo,
    bisect_stop test fuel lo hi h,
    record {
      at_least = omega arith;
      at_most = p;
      holds = λ i l u. absurd (omega arith);
      fails = λ i l u. let c : hi ≤ lo = ground arith in absurd (omega arith);
    },
  )
]
