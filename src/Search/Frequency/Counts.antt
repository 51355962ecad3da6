-- ===== src/Search/Frequency/Counts.antt =====
-- search/index/frequency.rs, `TokenFrequencyIndex::build`: the entries are the numbers of codes
-- below each token.
use onpair.Common.{
  ℕ, zero, suc, ◌+◌, ◌%◌, ◌≤◌, ◌<◌, ◌≡◌, ◌≢◌, ◌∙◌, Bool, some, List, [], ◌∷◌, arith, refl, ap, sym,
  ltb, ◌==◌, if◌then◌else◌, length, get_or, set, length-set, get_elem?-eq-get_or, get_or-set_self,
  get_or-set_ne, ℕ_discrete,
}
use onpair.Core.Types.{Token, u32_mod}
use onpair.Search.Frequency.{ok, count_codes, add_up}

-- How many codes satisfy `p`.
abbrev pub occurs : (Token → Bool) → List Token → ℕ
occurs p [] = 0
occurs p (c ∷ codes) = if p c then suc (occurs p codes) else occurs p codes

-- How many codes are below `t`.
abbrev pub below : List Token → ℕ → ℕ
below codes t = occurs (λ c. ltb c t) codes

abbrev pub AreBelow : ℕ → List Token → Type 0
AreBelow n [] = Unit
AreBelow n (c ∷ codes) = (c < n) × AreBelow n codes

-- The prefix sums of `codes` over `n` tokens.
pub record IsIndex (codes : List Token) (n : ℕ) (cumulative : List ℕ) : Type 0 where
  pub size : length cumulative ≡ n + 1
  pub sums : (t : ℕ) → t ≤ n → get_or cumulative t 0 ≡ below codes t

pub occurs-length : (p : Token → Bool) (codes : List Token) → occurs p codes ≤ length codes
occurs-length p [] = omega arith
occurs-length p (c ∷ codes) = ground (arith, occurs-length p codes)

pub below_zero : (codes : List Token) → below codes 0 ≡ 0
below_zero [] = refl
below_zero (c ∷ codes) = ground (arith, below_zero codes)

pub below_suc :
    (codes : List Token) (t : ℕ) → below codes (t + 1) ≡ below codes t + occurs (λ c. c == t) codes
below_suc [] t = refl
below_suc (c ∷ codes) t = ground (arith, below_suc codes t)

pub AreBelow-below : (n : ℕ) (codes : List Token) → AreBelow n codes → below codes n ≡ length codes
AreBelow-below n [] h = refl
AreBelow-below n (c ∷ codes) h = ground (arith, AreBelow-below n codes h.1)

-- The counting loop adds to entry `t + 1` the number of codes `t`.
pub record HasCounted (codes : List Token) (cumulative counted : List ℕ) : Type 0 where
  pub size : length counted ≡ length cumulative
  pub first : get_or counted 0 0 ≡ get_or cumulative 0 0
  pub counts :
      (t : ℕ)
      → t + 1 < length cumulative
      → get_or counted (t + 1) 0 ≡ get_or cumulative (t + 1) 0 + occurs (λ c. c == t) codes

module _ (c : Token) (cumulative : List ℕ) (l : c + 1 < length cumulative)
    (small : get_or cumulative (c + 1) 0 + 1 < u32_mod) where
  abbrev counted_once : List ℕ
  counted_once = set cumulative (c + 1) ((get_or cumulative (c + 1) 0 + 1) % u32_mod)

  counted_once_cell :
      (j : ℕ) → get_or counted_once j 0 ≡ get_or cumulative j 0 + (if j == c + 1 then 1 else 0)
  counted_once_cell j = elim (ℕ_discrete (c + 1) j) [
    | yes e ↦
        ap (λ (i : ℕ). get_or counted_once i 0) (sym e)
        ∙ get_or-set_self cumulative (c + 1) _ 0 l
        ∙ ground (arith, small, ap (λ (i : ℕ). get_or cumulative i 0) e)
    | no ne ↦ get_or-set_ne cumulative (c + 1) j _ 0 ne ∙ ground arith
  ]

  count_codes_step :
      (codes : List Token) → count_codes (c ∷ codes) cumulative ≡ count_codes codes counted_once
  unfolding count_codes
  count_codes_step codes = rw (get_elem?-eq-get_or cumulative (c + 1) 0 l, count_codes) refl

pub count_codes-HasCounted :
    (codes : List Token) (cumulative : List ℕ) (n : ℕ)
    → length cumulative ≡ n + 1
    → ((t : ℕ) → t < length cumulative → get_or cumulative t 0 + length codes < u32_mod)
    → AreBelow n codes
    → (counted : List ℕ) × (count_codes codes cumulative ≡ ok counted)
      × HasCounted codes cumulative counted
unfolding count_codes
count_codes-HasCounted [] cumulative n size small h =
    (cumulative, refl, record { size = refl; first = refl; counts = λ t l. omega arith })
count_codes-HasCounted (c ∷ codes) cumulative n size small (l, h) =
    let k : c + 1 < length cumulative = omega arith in
    let m : get_or cumulative (c + 1) 0 + 1 < u32_mod = omega (arith, small (c + 1) k) in
    let cell = counted_once_cell c cumulative k m in
    let same : length (counted_once c cumulative k m) ≡ length cumulative =
      length-set cumulative (c + 1) _ in
    let (counted, e, r) =
      count_codes-HasCounted codes (counted_once c cumulative k m) n (same ∙ size)
        (λ t q. ground (arith, cell t, small t (omega arith))) h in
    (
      counted,
      count_codes_step c cumulative k m codes ∙ e,
      record {
        size = r.size ∙ same;
        first = r.first ∙ ground (arith, cell 0);
        counts = λ t q. ground (arith, r.counts t (omega arith), cell (t + 1));
      },
    )

-- The summing loop, after `t` rounds.
pub record HasSummed (codes : List Token) (n t : ℕ) (cumulative : List ℕ) : Type 0 where
  pub size : length cumulative ≡ n + 1
  pub done : (j : ℕ) → j ≤ t → get_or cumulative j 0 ≡ below codes j
  pub left : (j : ℕ) → t ≤ j → j < n → get_or cumulative (j + 1) 0 ≡ occurs (λ c. c == j) codes

module _ (codes : List Token) (n : ℕ) (small : length codes < u32_mod) where
  module _ (t : ℕ) (cumulative : List ℕ) (l : t < n) (h : HasSummed codes n t cumulative) where
    abbrev summed_once : List ℕ
    summed_once =
        set cumulative (t + 1) ((get_or cumulative (t + 1) 0 + get_or cumulative t 0) % u32_mod)

    add_up_step : (k : ℕ) → add_up (suc k) t cumulative ≡ add_up k (t + 1) summed_once
    unfolding add_up
    add_up_step k =
        rw
          (
            get_elem?-eq-get_or cumulative t 0 (omega (arith, h.size)),
            get_elem?-eq-get_or cumulative (t + 1) 0 (omega (arith, h.size)),
            add_up,
          )
          refl

    summed_entry :
        (get_or cumulative (t + 1) 0 + get_or cumulative t 0) % u32_mod ≡ below codes (t + 1)
    summed_entry = omega (
      arith,
      small,
      h.done t (omega arith),
      h.left t (omega arith) l,
      below_suc codes t,
      occurs-length (λ c. ltb c (t + 1)) codes,
    )

    summed_done : (j : ℕ) → j ≤ t + 1 → get_or summed_once j 0 ≡ below codes j
    summed_done j q = elim (ℕ_discrete (t + 1) j) [
      | yes e ↦
          ap (λ (i : ℕ). get_or summed_once i 0) (sym e)
          ∙ get_or-set_self cumulative (t + 1) _ 0 (omega (arith, h.size))
          ∙ summed_entry
          ∙ ap (below codes) e
      | no ne ↦ get_or-set_ne cumulative (t + 1) j _ 0 ne ∙ h.done j (omega arith)
    ]

    summed-HasSummed : HasSummed codes n (t + 1) summed_once
    summed-HasSummed = record {
      size = length-set cumulative (t + 1) _ ∙ h.size;
      done = summed_done;
      left = λ j q r.
          let ne : t + 1 ≢ j + 1 = λ e. absurd (omega arith) in
          get_or-set_ne cumulative (t + 1) (j + 1) _ 0 ne ∙ h.left j (omega arith) r;
    }

  pub add_up-IsIndex :
      (k t : ℕ) (cumulative : List ℕ)
      → t + k ≡ n
      → HasSummed codes n t cumulative
      → (summed : List ℕ) × (add_up k t cumulative ≡ some summed) × IsIndex codes n summed
  unfolding add_up
  add_up-IsIndex zero t cumulative e h =
      (cumulative, refl, record { size = h.size; sums = λ j q. h.done j (omega arith) })
  add_up-IsIndex (suc k) t cumulative e h =
      let l : t < n = omega arith in
      let (summed, r, i) =
        add_up-IsIndex k (t + 1) (summed_once t cumulative l h) (omega arith)
          (summed-HasSummed t cumulative l h) in
      (summed, add_up_step t cumulative l h k ∙ r, i)
