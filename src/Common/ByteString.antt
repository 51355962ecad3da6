-- ===== src/Common/ByteString.antt =====
-- Byte strings: prefixes and the bytewise-lexicographic order of slices.
use Prim.Native.Nat.{ℕ, ◌≤◌}
use mathlib.Core.Path.{◌≡◌, refl}
use mathlib.Core.Bool.{Bool, true, false, ◌&&◌, ◌||◌, not}
use mathlib.Core.List.{List, [], ◌∷◌, ◌++◌}
use native.Mathlib.Omega.{arith}
use onpair.Common.Tests.{ltb, leb, ◌==◌}
use onpair.Common.Lists.{length, get_or, drop}

abbrev pub Bytes : Type 0
Bytes = List ℕ

-- `s.starts_with(p)`.
abbrev pub is_prefix : Bytes → Bytes → Bool
is_prefix [] s = true
is_prefix (a ∷ p) [] = false
is_prefix (a ∷ p) (b ∷ s) = (a == b) && is_prefix p s

-- `a < b` on slices.
abbrev pub lex_lt : Bytes → Bytes → Bool
lex_lt [] [] = false
lex_lt [] (b ∷ s) = true
lex_lt (a ∷ r) [] = false
lex_lt (a ∷ r) (b ∷ s) = ltb a b || ((a == b) && lex_lt r s)

-- Byte `k` is missing or below `b`; and the same with "at most".
abbrev pub below : ℕ → ℕ → Bytes → Bool
below b k w = leb (length w) k || ltb (get_or w k 0) b

abbrev pub at_most : ℕ → ℕ → Bytes → Bool
at_most b k w = leb (length w) k || leb (get_or w k 0) b

pub is_prefix_refl : (p : Bytes) → is_prefix p p ≡ true
is_prefix_refl [] = refl
is_prefix_refl (a ∷ p) = ground (arith, is_prefix_refl p)

pub is_prefix-length : (p w : Bytes) → is_prefix p w ≡ true → length p ≤ length w
is_prefix-length [] w h = omega arith
is_prefix-length (a ∷ p) [] h = ground arith
is_prefix-length (a ∷ p) (b ∷ w) h = ground (arith, is_prefix-length p w)

pub is_prefix_iff : (p w : Bytes) → is_prefix p w ≡ true → p ++ drop (length p) w ≡ w
is_prefix_iff [] w h = refl
is_prefix_iff (a ∷ p) [] h = ground arith
is_prefix_iff (a ∷ p) (b ∷ w) h = ground (arith, is_prefix_iff p w)

pub is_prefix-append : (p s : Bytes) → is_prefix p (p ++ s) ≡ true
is_prefix-append [] s = refl
is_prefix-append (a ∷ p) s = ground (arith, is_prefix-append p s)

pub is_prefix-append_left : (p q s : Bytes) → is_prefix (p ++ q) (p ++ s) ≡ is_prefix q s
is_prefix-append_left [] q s = refl
is_prefix-append_left (a ∷ p) q s = ground (arith, is_prefix-append_left p q s)

pub is_prefix_trans :
    (p q w : Bytes) → is_prefix p q ≡ true → is_prefix q w ≡ true → is_prefix p w ≡ true
is_prefix_trans [] q w h k = refl
is_prefix_trans (a ∷ p) [] w h k = ground arith
is_prefix_trans (a ∷ p) (b ∷ q) [] h k = ground arith
is_prefix_trans (a ∷ p) (b ∷ q) (c ∷ w) h k = ground (arith, is_prefix_trans p q w)

-- Of two prefixes of a string the shorter is a prefix of the longer.
pub is_prefix-linear :
    (p q w : Bytes)
    → is_prefix p w ≡ true
    → is_prefix q w ≡ true
    → length p ≤ length q
    → is_prefix p q ≡ true
is_prefix-linear [] q w h k l = refl
is_prefix-linear (a ∷ p) [] w h k l = elim l [ ]
is_prefix-linear (a ∷ p) (b ∷ q) [] h k l = ground arith
is_prefix-linear (a ∷ p) (b ∷ q) (c ∷ w) h k l = ground (arith, is_prefix-linear p q w)

pub is_prefix-same_length : (p w : Bytes) → is_prefix p w ≡ true → length w ≤ length p → p ≡ w
is_prefix-same_length [] [] h l = refl
is_prefix-same_length [] (b ∷ w) h l = elim l [ ]
is_prefix-same_length (a ∷ p) [] h l = ground arith
is_prefix-same_length (a ∷ p) (b ∷ w) h l = ground (arith, is_prefix-same_length p w)

-- Extending a prefix by one byte is a test of the next byte.
pub is_prefix-snoc :
    (p : Bytes) (b : ℕ) (w : Bytes)
    → is_prefix (p ++ b ∷ []) w
      ≡ (is_prefix p w && (not (leb (length w) (length p)) && (get_or w (length p) 0 == b)))
is_prefix-snoc [] b [] = ground arith
is_prefix-snoc [] b (c ∷ w) = ground arith
is_prefix-snoc (a ∷ p) b [] = ground arith
is_prefix-snoc (a ∷ p) b (c ∷ w) = ground (arith, is_prefix-snoc p b w)

-- The order.
pub lex_lt_irrefl : (p : Bytes) → lex_lt p p ≡ false
lex_lt_irrefl [] = refl
lex_lt_irrefl (a ∷ p) = ground (arith, lex_lt_irrefl p)

pub lex_lt_trans : (p q r : Bytes) → lex_lt p q ≡ true → lex_lt q r ≡ true → lex_lt p r ≡ true
lex_lt_trans [] [] r h k = ground arith
lex_lt_trans [] (b ∷ q) [] h k = ground arith
lex_lt_trans [] (b ∷ q) (c ∷ r) h k = refl
lex_lt_trans (a ∷ p) [] r h k = ground arith
lex_lt_trans (a ∷ p) (b ∷ q) [] h k = ground arith
lex_lt_trans (a ∷ p) (b ∷ q) (c ∷ r) h k = ground (arith, lex_lt_trans p q r)

pub lex_lt-asymm : (p q : Bytes) → lex_lt p q ≡ true → lex_lt q p ≡ false
lex_lt-asymm [] [] h = ground arith
lex_lt-asymm [] (b ∷ q) h = refl
lex_lt-asymm (a ∷ p) [] h = ground arith
lex_lt-asymm (a ∷ p) (b ∷ q) h = ground (arith, lex_lt-asymm p q)

pub lex_lt-total : (p q : Bytes) → lex_lt p q ≡ false → lex_lt q p ≡ false → p ≡ q
lex_lt-total [] [] h k = refl
lex_lt-total [] (b ∷ q) h k = ground arith
lex_lt-total (a ∷ p) [] h k = ground arith
lex_lt-total (a ∷ p) (b ∷ q) h k = ground (arith, lex_lt-total p q)

-- A string does not sort before a prefix of itself.
pub lex_lt-is_prefix : (p w : Bytes) → is_prefix p w ≡ true → lex_lt w p ≡ false
lex_lt-is_prefix [] [] h = refl
lex_lt-is_prefix [] (b ∷ w) h = refl
lex_lt-is_prefix (a ∷ p) [] h = ground arith
lex_lt-is_prefix (a ∷ p) (b ∷ w) h = ground (arith, lex_lt-is_prefix p w)

-- Among strings that share a prefix, the tests of the next byte are monotone in the order.
pub below_mono :
    (p v w : Bytes) (b : ℕ)
    → is_prefix p v ≡ true
    → is_prefix p w ≡ true
    → lex_lt v w ≡ true
    → below b (length p) w ≡ true
    → below b (length p) v ≡ true
below_mono [] [] w b hv hw h k = ground arith
below_mono [] (x ∷ v) [] b hv hw h k = ground arith
below_mono [] (x ∷ v) (y ∷ w) b hv hw h k = ground arith
below_mono (a ∷ p) [] w b hv hw h k = ground arith
below_mono (a ∷ p) (x ∷ v) [] b hv hw h k = ground arith
below_mono (a ∷ p) (x ∷ v) (y ∷ w) b hv hw h k = ground (arith, below_mono p v w b)

pub at_most_mono :
    (p v w : Bytes) (b : ℕ)
    → is_prefix p v ≡ true
    → is_prefix p w ≡ true
    → lex_lt v w ≡ true
    → at_most b (length p) w ≡ true
    → at_most b (length p) v ≡ true
at_most_mono [] [] w b hv hw h k = ground arith
at_most_mono [] (x ∷ v) [] b hv hw h k = ground arith
at_most_mono [] (x ∷ v) (y ∷ w) b hv hw h k = ground arith
at_most_mono (a ∷ p) [] w b hv hw h k = ground arith
at_most_mono (a ∷ p) (x ∷ v) [] b hv hw h k = ground arith
at_most_mono (a ∷ p) (x ∷ v) (y ∷ w) b hv hw h k = ground (arith, at_most_mono p v w b)
