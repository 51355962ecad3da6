-- ===== src/Search/Automaton/Matches.antt =====
-- search/substring/dfa.rs: the prefixes of a pattern that a text ends with.
use onpair.Common.{
  ℕ, zero, suc, ◌+◌, ◌-◌, ◌≤◌, ◌<◌, ◌≡◌, ◌∙◌, refl, sym, ap, arith, [], ◌∷◌, ◌++◌, Bytes, length,
  take, drop, get_or, length-take, length-append, drop-drop,
}

-- The text ends with the first `k` bytes of the pattern.
pub record IsMatch (p s : Bytes) (k : ℕ) : Type 0 where
  pub inside : k ≤ length p
  pub fits : k ≤ length s
  pub same : drop (length s - k) s ≡ take k p

pub take_snoc : (p : Bytes) (i : ℕ) → i < length p → take (i + 1) p ≡ take i p ++ get_or p i 0 ∷ []
take_snoc p i l = ap (λ (k : ℕ). take k p) (omega_suc i) ∙ go p i l
  where
    omega_suc : (i : ℕ) → i + 1 ≡ suc i
    omega_suc i = omega arith

    go : (p : Bytes) (i : ℕ) → i < length p → take (suc i) p ≡ take i p ++ get_or p i 0 ∷ []
    go [] i l = elim l [ ]
    go (a ∷ p) zero l = refl
    go (a ∷ p) (suc i) l = ap (λ (t : Bytes). a ∷ t) (go p i (omega arith))

pub drop_snoc : (s : Bytes) (n b : ℕ) → n ≤ length s → drop n (s ++ b ∷ []) ≡ drop n s ++ b ∷ []
drop_snoc s zero b h = refl
drop_snoc [] (suc n) b h = elim h [ ]
drop_snoc (a ∷ s) (suc n) b h = drop_snoc s n b (omega arith)

snoc_inj : (xs ys : Bytes) (a b : ℕ) → xs ++ a ∷ [] ≡ ys ++ b ∷ [] → (xs ≡ ys) × (a ≡ b)
snoc_inj [] [] a b h = (refl, cc)
snoc_inj [] (y ∷ []) a b h = absurd (omega (arith, ap length h))
snoc_inj [] (y ∷ z ∷ ys) a b h = absurd (omega (arith, ap length h))
snoc_inj (x ∷ []) [] a b h = absurd (omega (arith, ap length h))
snoc_inj (x ∷ z ∷ xs) [] a b h = absurd (omega (arith, ap length h))
snoc_inj (x ∷ xs) (y ∷ ys) a b h =
    let head : x ≡ y = cc in
    let rest : xs ++ a ∷ [] ≡ ys ++ b ∷ [] = cc in let ih = snoc_inj xs ys a b rest in (cc, ih.1)

pub zero-IsMatch : (p s : Bytes) → IsMatch p s 0
zero-IsMatch p s = record {
  inside = omega arith;
  fits = omega arith;
  same = drop_all s (length s - 0) (omega arith);
}
  where
    drop_all : (s : Bytes) (n : ℕ) → length s ≤ n → drop n s ≡ []
    drop_all [] zero h = refl
    drop_all [] (suc n) h = refl
    drop_all (a ∷ s) zero h = elim h [ ]
    drop_all (a ∷ s) (suc n) h = drop_all s n (omega arith)

module _ (p s : Bytes) (k j : ℕ) (m : IsMatch p s k) (l : j ≤ k) where
  length-prefix : length (take k p) ≡ k
  length-prefix = omega (arith, length-take k p, m.inside)

  -- The ends of the text of at most `k` bytes are the ends of the first `k` bytes of the pattern.
  nested : drop (length s - j) s ≡ drop (length (take k p) - j) (take k p)
  nested =
      let e : length s - j ≡ length s - k + (k - j) = omega (arith, m.fits) in
      let f : k - j ≡ length (take k p) - j = omega (arith, length-prefix) in
      ap (λ (n : ℕ). drop n s) e
      ∙ sym (drop-drop (k - j) (length s - k) s)
      ∙ ap (drop (k - j)) m.same
      ∙ ap (λ (n : ℕ). drop n (take k p)) f

  pub IsMatch-inward : IsMatch p s j → IsMatch p (take k p) j
  IsMatch-inward h = record {
    inside = h.inside;
    fits = omega (arith, length-prefix);
    same = sym nested ∙ h.same;
  }

  pub IsMatch-outward : IsMatch p (take k p) j → IsMatch p s j
  IsMatch-outward h = record {
    inside = h.inside;
    fits = omega (arith, m.fits);
    same = nested ∙ h.same;
  }

module _ (p s : Bytes) (b j : ℕ) where
  end_snoc :
      j ≤ length s
      → drop (length (s ++ b ∷ []) - (j + 1)) (s ++ b ∷ []) ≡ drop (length s - j) s ++ b ∷ []
  end_snoc h =
      let e : length (s ++ b ∷ []) - (j + 1) ≡ length s - j =
        omega (arith, length-append s (b ∷ [])) in
      ap (λ (n : ℕ). drop n (s ++ b ∷ [])) e ∙ drop_snoc s (length s - j) b (omega arith)

  -- A match grows by the next byte of the pattern,
  pub IsMatch-grow :
      IsMatch p s j → j < length p → get_or p j 0 ≡ b → IsMatch p (s ++ b ∷ []) (j + 1)
  IsMatch-grow m l e = record {
    inside = omega arith;
    fits = omega (arith, length-append s (b ∷ []), m.fits);
    same =
        end_snoc m.fits
        ∙ ap (λ (t : Bytes). t ++ b ∷ []) m.same
        ∙ ap (λ (c : ℕ). take j p ++ c ∷ []) (sym e)
        ∙ sym (take_snoc p j l);
  }

  -- and only so.
  pub IsMatch-shrink :
      IsMatch p (s ++ b ∷ []) (j + 1) → IsMatch p s j × (j < length p) × (get_or p j 0 ≡ b)
  IsMatch-shrink m =
      let l : j < length p = omega (arith, m.inside) in
      let h : j ≤ length s = omega (arith, m.fits, length-append s (b ∷ [])) in
      let (same, last) =
        snoc_inj (drop (length s - j) s) (take j p) b (get_or p j 0)
          (sym (end_snoc h) ∙ m.same ∙ take_snoc p j l) in
      (record { inside = omega arith; fits = h; same = same }, l, sym last)
