-- ===== src/Search/Cover/Halving.antt =====
-- search/substring/probe/cover.rs, `ProbeCover::contains`: its two binary searches.
use onpair.Common.{
  ℕ, zero, suc, ◌+◌, ◌-◌, ◌/◌, ◌≤◌, ◌<◌, ◌≡◌, ◌∙◌, refl, ap, sym, arith, Bool, true, false, ◌||◌,
  List, [], ◌∷◌, ◌==◌, ltb, leb, dec_lt, length, if◌then◌else◌, lt→ltb, le→ltb, lt→leb, le→leb,
}
use onpair.Core.Types.{Token, TokenRange}
use onpair.Search.Cover.{test_at, halving, has_point, partition_point}

-- The test holds of the first `cut` entries, and of no other.
abbrev pub IsCut {ℓ} : {A : Type ℓ} → (A → Bool) → List A → ℕ → Type 0
IsCut test xs cut = (cut ≤ length xs) × ((i : ℕ) → i < length xs → test_at test xs i ≡ ltb i cut)

-- The number of entries before the first that fails the test.
abbrev pub prefix_count {ℓ} : {A : Type ℓ} → (A → Bool) → List A → ℕ
prefix_count test [] = 0
prefix_count test (x ∷ xs) = if test x then suc (prefix_count test xs) else 0

module _ {ℓ} {A : Type ℓ} (test : A → Bool) (xs : List A) (cut : ℕ) (h : IsCut test xs cut) where
  -- The candidates always hold the last entry of the cut, or start at the front.
  halving-cut :
      (fuel size base : ℕ)
      → size ≤ fuel + 1
      → 1 ≤ size
      → base + size ≤ length xs
      → base ≤ cut - 1
      → cut ≤ base + size
      → halving test xs fuel size base ≡ cut - 1
  unfolding halving
  halving-cut zero size base f one room low high = omega arith
  halving-cut (suc fuel) size base f one room low high = elim (dec_lt 1 size) [
    | no small ↦ rw (halving, le→ltb 1 size (omega arith)) (omega arith)
    | yes large ↦ elim (dec_lt (base + size / 2) cut) [
      | yes below ↦
          rw
            (
              halving,
              lt→ltb 1 size large,
              h.1 (base + size / 2) (omega arith),
              lt→ltb (base + size / 2) cut below,
            )
            (halving-cut fuel (size - size / 2) (base + size / 2) (omega arith) (omega arith)
              (omega arith) (omega arith) (omega arith))
      | no above ↦
          rw
            (
              halving,
              lt→ltb 1 size large,
              h.1 (base + size / 2) (omega arith),
              le→ltb (base + size / 2) cut (omega arith),
            )
            (halving-cut fuel (size - size / 2) base (omega arith) (omega arith) (omega arith) low
              (omega arith))
    ]
  ]

  -- The whole slice.
  pub halving-whole : 0 < length xs → halving test xs (length xs) (length xs) 0 ≡ cut - 1
  halving-whole l =
      let c = h.0 in
      halving-cut (length xs) (length xs) 0 (omega arith) l (omega arith) (omega arith)
        (omega arith)

module _ {ℓ} {A : Type ℓ} (test : A → Bool) where
  -- An entry that passes, in front of a cut; and one that fails, in front of entries that fail.
  pub prefix_count-pass :
      (x : A) (xs : List A)
      → test x ≡ true
      → IsCut test xs (prefix_count test xs)
      → IsCut test (x ∷ xs) (prefix_count test (x ∷ xs))
  prefix_count-pass x xs e (l, h) = rw e (omega arith, each)
    where
      each :
          (i : ℕ)
          → i < length (x ∷ xs)
          → test_at test (x ∷ xs) i ≡ ltb i (suc (prefix_count test xs))
      each zero k = e ∙ sym (lt→ltb 0 (suc (prefix_count test xs)) (omega arith))
      each (suc i) k = h i (omega arith) ∙ ground arith

  pub prefix_count-fail :
      (x : A) (xs : List A)
      → test x ≡ false
      → ((i : ℕ) → i < length xs → test_at test xs i ≡ false)
      → IsCut test (x ∷ xs) (prefix_count test (x ∷ xs))
  prefix_count-fail x xs e h = rw e (omega arith, each)
    where
      each : (i : ℕ) → i < length (x ∷ xs) → test_at test (x ∷ xs) i ≡ ltb i 0
      each zero k = e
      each (suc i) k = h i (omega arith) ∙ sym (le→ltb (suc i) 0 (omega arith))

-- `c` or later, and strictly ascending.
abbrev pub PointsFrom : ℕ → List Token → Type 0
PointsFrom c [] = Unit
PointsFrom c (p ∷ points) = (c ≤ p) × PointsFrom c points

abbrev pub AreIncreasing : List Token → Type 0
AreIncreasing [] = Unit
AreIncreasing (p ∷ points) = PointsFrom (p + 1) points × AreIncreasing points

-- Some point is the token.
abbrev pub some_point : List Token → Token → Bool
some_point [] t = false
some_point (p ∷ points) t = (p == t) || some_point points t

above-test_at :
    (c t : ℕ) (points : List Token)
    → PointsFrom c points
    → t < c
    → (i : ℕ) → i < length points
    → test_at (λ p. leb p t) points i ≡ false
above-test_at c t [] h l i k = absurd (omega arith)
above-test_at c t (p ∷ points) h l zero k = ground (arith, h.0, l)
above-test_at c t (p ∷ points) h l (suc i) k = above-test_at c t points h.1 l i (omega arith)

pub above-some_point :
    (c t : ℕ) (points : List Token) → PointsFrom c points → t < c → some_point points t ≡ false
above-some_point c t [] h l = refl
above-some_point c t (p ∷ points) h l = ground (arith, h.0, above-some_point c t points h.1 l)

points-IsCut :
    (points : List Token) (t : Token)
    → AreIncreasing points
    → IsCut (λ p. leb p t) points (prefix_count (λ p. leb p t) points)
points-IsCut [] t h = (omega arith, λ i l. absurd (omega arith))
points-IsCut (p ∷ points) t h = elim (dec_lt t p) [
  | no le ↦
      prefix_count-pass (λ q. leb q t) p points (le→leb p t (omega arith))
        (points-IsCut points t h.1)
  | yes lt ↦
      prefix_count-fail (λ q. leb q t) p points (lt→leb p t lt)
        (above-test_at (p + 1) t points h.0 (omega arith))
]

-- The last point at most the token decides.
last_point :
    (points : List Token) (t : Token)
    → AreIncreasing points
    → test_at (λ p. p == t) points (prefix_count (λ p. leb p t) points - 1) ≡ some_point points t
last_point [] t h = refl
last_point (p ∷ []) t h = ground arith
last_point (p ∷ q ∷ points) t h = elim (dec_lt t q) [
  | yes lt ↦
      let rest : some_point points t ≡ false =
        above-some_point (q + 1) t points h.1.0 (omega arith) in
      let first : (q == t) ≡ false = ground (arith, lt) in
      rw (lt→leb q t lt, rest, first) (alone p (q ∷ points) t)
  | no le ↦
      let ih = last_point (q ∷ points) t h.1 in
      let below : leb p t ≡ true = le→leb p t (omega (arith, h.0.0)) in
      let here : leb q t ≡ true = le→leb q t (omega arith) in
      let other : (p == t) ≡ false = ground (arith, h.0.0, le) in
      rw (below, here, other)
        (behind p (q ∷ points) t (prefix_count (λ x. leb x t) points) ∙ (rw here at ih))
]
  where
    alone :
        (p : Token) (rest : List Token) (t : Token)
        → test_at (λ x. x == t) (p ∷ rest) ((if leb p t then 1 else 0) - 1)
          ≡ ((p == t) || (false || false))
    alone p rest t = ground arith

    behind :
        (p : Token) (rest : List Token) (t n : ℕ)
        → test_at (λ x. x == t) (p ∷ rest) (suc (suc n) - 1)
          ≡ test_at (λ x. x == t) rest (suc n - 1)
    behind p rest t n =
        let long : suc (suc n) - 1 ≡ suc n = omega arith in
        let short : suc n - 1 ≡ n = omega arith in
        ap (test_at (λ x. x == t) (p ∷ rest)) long ∙ ap (test_at (λ x. x == t) rest) (sym short)

-- On ascending points the search decides membership.
pub has_point-some_point :
    (points : List Token) (t : Token)
    → AreIncreasing points
    → has_point points t ≡ some_point points t
unfolding has_point
has_point-some_point [] t h = refl
has_point-some_point (p ∷ points) t h =
    ap (test_at (λ q. q == t) (p ∷ points)) (
      halving-whole (λ q. leb q t) (p ∷ points) (prefix_count (λ q. leb q t) (p ∷ points))
        (points-IsCut (p ∷ points) t h) (omega arith))
    ∙ last_point (p ∷ points) t h

-- On a slice that is partitioned, the search counts the entries in front.
pub partition_point-prefix_count :
    (ranges : List TokenRange) (t : Token)
    → IsCut (λ r. ltb r.last t) ranges (prefix_count (λ r. ltb r.last t) ranges)
    → partition_point ranges t ≡ prefix_count (λ r. ltb r.last t) ranges
unfolding partition_point halving
partition_point-prefix_count [] t h = refl
partition_point-prefix_count (r ∷ ranges) t h =
    let found =
      halving-whole (λ r. ltb r.last t) (r ∷ ranges) (prefix_count (λ r. ltb r.last t) (r ∷ ranges))
        h (omega arith) in
    let cut = prefix_count (λ r. ltb r.last t) (r ∷ ranges) in
    let at_last = h.1 (cut - 1) (omega (arith, h.0)) in rw (found, at_last) (counted cut)
  where
    counted : (cut : ℕ) → (if ltb (cut - 1) cut then cut - 1 + 1 else cut - 1) ≡ cut
    counted cut = ground arith
