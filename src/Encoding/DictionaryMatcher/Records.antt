-- ===== src/Encoding/DictionaryMatcher/Records.antt =====
-- encoding/dictionary_matcher.rs: the record of a stack of prefix tokens, `PrefixChain::new`.
use onpair.Common.{
  ℕ, zero, suc, ◌+◌, ◌-◌, ◌*◌, ◌/◌, ◌%◌, ◌^◌, max, ◌≤◌, ◌<◌, ◌≡◌, ◌∙◌, ◌⊎◌, inl, inr, refl, sym, ap,
  subst, some, arith, List, [], ◌∷◌, ◌++◌, length, length-append, length-take, length-replicate,
  take, replicate, get_elem?, dec_lt,
}
use native.Mathlib.Nat.{mod-eq_of_lt, add-mul-mod_self_right, div-eq_of_lt}
use native.Mathlib.Omega.{pow_step}
use onpair.Core.Types.{Token, max_token_size}
use onpair.Dictionary.View.{DictionaryView, Tokens, tok, Represents}
use onpair.Encoding.DictionaryMatcher.{PrefixChain, new_chain, set_bit, fill_from}
use onpair.Encoding.DictionaryMatcher.Bits.{bit_length_zero}
use onpair.Encoding.DictionaryMatcher.Chains.{
  IsNested, IsStack, IsNested-IsStack, Holds, Holds-IsNested,
}
use onpair.Encoding.DictionaryMatcher.Find.{bit_length}

bit_length_exact : (n m x : ℕ) → m < n → 2 ^ m ≤ x → x < 2 ^ suc m → bit_length n x ≡ suc m
bit_length_exact zero m x l h k = absurd (omega arith)
bit_length_exact (suc n) zero x l h k =
    let one : x ≡ 1 = omega (arith, pow_step 2 0) in
    ap (bit_length (suc n)) one ∙ ap suc (bit_length_zero n)
bit_length_exact (suc n) (suc m) x l h k =
    let ih : bit_length n (x / 2) ≡ suc m =
      bit_length_exact n m (x / 2) (omega arith) (omega (arith, pow_step 2 m))
        (omega (arith, pow_step 2 m, pow_step 2 (suc m))) in
    let some_bit : 0 < x = omega (arith, positive m, pow_step 2 m) in ground (arith, ih, some_bit)
  where
    positive : (m : ℕ) → 0 < 2 ^ m
    positive zero = ground arith
    positive (suc m) = omega (arith, positive m, pow_step 2 m)

pow_pos : (m : ℕ) → 0 < 2 ^ m
pow_pos zero = ground arith
pow_pos (suc m) = omega (arith, pow_pos m, pow_step 2 m)

pow_le : (a b : ℕ) → a ≤ b → 2 ^ a ≤ 2 ^ b
pow_le zero b h = pow_pos b
pow_le (suc a) zero h = absurd (omega arith)
pow_le (suc a) (suc b) h = omega (arith, pow_le a b (omega arith), pow_step 2 a, pow_step 2 b)

-- A higher power of two is a multiple of a lower one.
pow_split : (L m : ℕ) → L ≤ m → (q : ℕ) × (2 ^ m ≡ q * 2 ^ L)
pow_split zero m h = (2 ^ m, omega arith)
pow_split (suc L) zero h = absurd (omega arith)
pow_split (suc L) (suc m) h =
    let (q, e) = pow_split L m (omega arith) in
    (
      q,
      pow_step 2 m
          ∙ ap (λ (x : ℕ). 2 * x) e
          ∙ swap q (2 ^ L)
          ∙ ap (λ (x : ℕ). q * x) (sym (pow_step 2 L)),
    )
  where
    swap : (q x : ℕ) → 2 * (q * x) ≡ q * (2 * x)
    swap zero x = omega arith
    swap (suc q) x = let ih = swap q x in omega arith

mask_high : (c m L : ℕ) → L ≤ m → (c + 2 ^ m) % 2 ^ L ≡ c % 2 ^ L
mask_high c m L h =
    let (q, e) = pow_split L m h in
    ap (λ (x : ℕ). (c + x) % 2 ^ L) e ∙ add-mul-mod_self_right c q (2 ^ L)

set_bit_lem : (lens k : ℕ) → k < 16 → lens < 2 ^ k → set_bit lens (suc k) ≡ some (lens + 2 ^ k)
set_bit_lem lens k h l = ground (arith, h, div-eq_of_lt l)

module _ {ℓ} {A : Type ℓ} where
  filled_before :
      (xs : List A) (i j n : ℕ) (a : A)
      → j < i
      → i ≤ length xs
      → get_elem? (take i xs ++ replicate n a) j ≡ get_elem? xs j
  filled_before [] i j n a h l = absurd (omega arith)
  filled_before (x ∷ xs) zero j n a h l = absurd (omega arith)
  filled_before (x ∷ xs) (suc i) zero n a h l = refl
  filled_before (x ∷ xs) (suc i) (suc j) n a h l =
      filled_before xs i j n a (omega arith) (omega arith)

  filled_from :
      (xs : List A) (i n : ℕ) (a : A)
      → i ≤ length xs
      → 0 < n
      → get_elem? (take i xs ++ replicate n a) i ≡ some a
  filled_from xs zero zero a l h = absurd (omega arith)
  filled_from xs zero (suc n) a l h = refl
  filled_from [] (suc i) n a l h = absurd (omega arith)
  filled_from (x ∷ xs) (suc i) n a l h = filled_from xs i n a (omega arith) h

-- The token `u` is the longest of the stack that is not longer than `L`.
pub record IsLongest (toks : Tokens) (L : ℕ) (u : Token) (stack : List Token) : Type 0 where
  pub held : Holds u stack
  pub fits : length (tok toks u) ≤ L
  pub longest :
      (w : Token)
      → Holds w stack
      → length (tok toks w) ≤ L
      → length (tok toks w) ≤ length (tok toks u)

-- The bits of a record below `L` give the length of the longest token that is not longer, and the
-- entry of that length gives the token.
pub record Records (toks : Tokens) (c : PrefixChain) (stack : List Token) : Type 0 where
  pub entries : length c.ids ≡ max_token_size - 1
  pub lens_lem :
      (L : ℕ) (u : Token)
      → IsLongest toks L u stack
      → bit_length 32 (c.lens % 2 ^ L) ≡ length (tok toks u)
  pub ids_lem :
      (u : Token)
      → Holds u stack
      → 2 ≤ length (tok toks u)
      → get_elem? c.ids (length (tok toks u) - 2) ≡ some u

-- The length of the token on top.
abbrev top_len : Tokens → List Token → ℕ
top_len toks [] = 0
top_len toks (t ∷ below) = length (tok toks t)

module _ (toks : Tokens) (v : DictionaryView) (r : Represents v toks) where
  -- The token `t` above a nested stack whose record is `c`; its length is `k + 1`.
  module _ (t : Token) (below : List Token) (l : t < length toks)
      (n : IsNested toks (tok toks t) below) (c : PrefixChain) (R : Records toks c below) (k : ℕ)
      (size : length (tok toks t) ≡ suc k) (small : c.lens < 2 ^ k) where
    abbrev slot : ℕ
    slot = max (length (tok toks t)) 2 - 2

    abbrev above : PrefixChain
    above = record {
      lens = c.lens + 2 ^ k;
      ids = take slot c.ids ++ replicate (length c.ids - slot) t;
    }

    slot_lt : slot < length c.ids
    slot_lt = let b = r.bounded t l in let e = R.entries in ground (arith, b, e)

    above_lt : c.lens + 2 ^ k < 2 ^ suc k
    above_lt = omega (arith, pow_step 2 k, small)

    shorter : (u : Token) → Holds u below → length (tok toks u) < length (tok toks t)
    shorter u h = let (a, p, s) = Holds-IsNested toks (tok toks t) below u n h in s

    lens_top :
        (L : ℕ)
        → length (tok toks t) ≤ L
        → bit_length 32 ((c.lens + 2 ^ k) % 2 ^ L) ≡ length (tok toks t)
    lens_top L fit =
        let bound = r.bounded t l in
        ap (bit_length 32) (mod-eq_of_lt (lt_le above_lt (pow_le (suc k) L (omega arith))))
        ∙ bit_length_exact 32 k (c.lens + 2 ^ k) (omega arith) (omega arith) above_lt
        ∙ sym size
      where
        lt_le : {a b d : ℕ} → a < b → b ≤ d → a < d
        lt_le h h' = omega arith

    lens_above :
        (L : ℕ) (u : Token)
        → IsLongest toks L u (t ∷ below)
        → (u ≡ t) ⊎ Holds u below
        → bit_length 32 ((c.lens + 2 ^ k) % 2 ^ L) ≡ length (tok toks u)
    lens_above L u lg (inl e) =
        lens_top L (subst (λ (x : ℕ). length (tok toks x) ≤ L) e lg.fits)
        ∙ ap (λ (x : ℕ). length (tok toks x)) (sym e)
    lens_above L u lg (inr h) = elim (dec_lt L (length (tok toks t))) [
      | yes less ↦
          ap (bit_length 32) (mask_high c.lens k L (omega arith))
          ∙ R.lens_lem L u
              (record { held = h; fits = lg.fits; longest = λ w hw fw. lg.longest w (inr hw) fw })
      | no ge ↦
          let a = lg.longest t (inl refl) (omega arith) in
          let b = shorter u h in absurd (omega arith)
    ]

    ids_above :
        (u : Token)
        → Holds u (t ∷ below)
        → 2 ≤ length (tok toks u)
        → get_elem? above.ids (length (tok toks u) - 2) ≡ some u
    ids_above u (inl e) two =
        let same : length (tok toks u) ≡ length (tok toks t) =
          ap (λ (x : ℕ). length (tok toks x)) e in
        let at_slot : length (tok toks u) - 2 ≡ slot = ground (arith, same, two) in
        ap (get_elem? above.ids) at_slot
        ∙ filled_from c.ids slot (length c.ids - slot) t (omega (arith, slot_lt))
            (omega (arith, slot_lt))
        ∙ ap some (sym e)
    ids_above u (inr h) two =
        let s = shorter u h in
        filled_before c.ids slot (length (tok toks u) - 2) (length c.ids - slot) t
          (ground (arith, s, two)) (omega (arith, slot_lt))
        ∙ R.ids_lem u h two

    above-Records : Records toks above (t ∷ below)
    above-Records = record {
      entries =
          length-append (take slot c.ids) (replicate (length c.ids - slot) t)
          ∙ omega (
            arith,
            length-take slot c.ids,
            length-replicate (length c.ids - slot) t,
            slot_lt,
            R.entries,
          );
      lens_lem = λ L u lg. lens_above L u lg lg.held;
      ids_lem = ids_above;
    }

    above-new_chain : new_chain v below ≡ some c → new_chain v (t ∷ below) ≡ some above
    unfolding new_chain
    above-new_chain e =
        let bound = r.bounded t l in
        let set = ap (set_bit c.lens) size ∙ set_bit_lem c.lens k (omega arith) small in
        rw (new_chain, e, r.token_len_lem t l, set, filled)
      where
        filled : fill_from c.ids slot t ≡ some above.ids
        filled = ground (arith, slot_lt)

  -- `PrefixChain::new` succeeds on a nested stack.
  pub new_chain-Records :
      (stack : List Token)
      → IsStack toks stack
      → (c : PrefixChain) × (new_chain v stack ≡ some c)
        × (c.lens < 2 ^ top_len toks stack)
        × Records toks c stack
  unfolding new_chain
  new_chain-Records [] s = (
    record { lens = 0; ids = replicate (max_token_size - 1) 0 },
    refl,
    pow_pos 0,
    record {
      entries = length-replicate {A = ℕ} 15 0;
      lens_lem = λ L u lg. absurd lg.held;
      ids_lem = λ u h two. absurd h;
    },
  )
  new_chain-Records (t ∷ below) (l, n) =
      let (c, e, lt, R) = new_chain-Records below (IsNested-IsStack toks (tok toks t) below n) in
      let (k, size) = pred (length (tok toks t)) (r.nonempty t l) in
      let small = lt_le lt (pow_le (top_len toks below) k (top_lt below t k size n)) in
      (
        above t below l n c R k size small,
        above-new_chain t below l n c R k size small e,
        ap_lt size (above_lt t below l n c R k size small),
        above-Records t below l n c R k size small,
      )
    where
      pred : (n : ℕ) → 1 ≤ n → (k : ℕ) × (n ≡ suc k)
      pred zero h = absurd (omega arith)
      pred (suc n) h = (n, refl)

      lt_le : {a b d : ℕ} → a < b → b ≤ d → a < d
      lt_le h h' = omega arith

      ap_lt : {x n k : ℕ} → n ≡ suc k → x < 2 ^ suc k → x < 2 ^ n
      ap_lt {x = x} e h = subst (λ (m : ℕ). x < 2 ^ m) (sym e) h

      top_lt :
          (below : List Token) (t k : ℕ)
          → length (tok toks t) ≡ suc k
          → IsNested toks (tok toks t) below
          → top_len toks below ≤ k
      top_lt [] t k e n = omega arith
      top_lt (u ∷ below) t k e (lu, p, s, n) = omega arith
