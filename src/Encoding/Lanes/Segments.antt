-- ===== src/Encoding/Lanes/Segments.antt =====
-- encoding/lanes.rs: rows parsed into segments of codes, and the ends of the segments.
use onpair.Common.{
  ℕ, zero, suc, ◌+◌, ◌-◌, ◌≤◌, ◌<◌, ◌≡◌, ◌∙◌, refl, sym, ap, subst, arith, List, [], ◌∷◌, ◌++◌,
  Bytes, length, take, drop, set, drop-drop, length-append,
}
use mathlib.Core.List.{append_assoc}
use onpair.Core.Types.{Token}
use onpair.Dictionary.View.{Tokens, tok}
use onpair.Search.Tokenize.Greedy.{IsBest, IsGreedy}

-- The bytes from `a` to `b`.
abbrev pub span : Bytes → ℕ → ℕ → Bytes
span bytes a b = take (b - a) (drop a bytes)

-- Greedy codes of a text up to the rest.
abbrev pub GreedyTo : Tokens → Bytes → List Token → Bytes → Type 0
GreedyTo toks s [] rest = s ≡ rest
GreedyTo toks s (c ∷ codes) rest =
    IsBest toks s c × GreedyTo toks (drop (length (tok toks c)) s) codes rest

pub GreedyTo-snoc :
    (toks : Tokens) (s rest : Bytes) (codes : List Token) (c : Token)
    → GreedyTo toks s codes rest
    → IsBest toks rest c
    → GreedyTo toks s (codes ++ c ∷ []) (drop (length (tok toks c)) rest)
GreedyTo-snoc toks s rest [] c e b =
    (subst (λ (x : Bytes). IsBest toks x c) (sym e) b, ap (drop (length (tok toks c))) e)
GreedyTo-snoc toks s rest (d ∷ codes) c (first, g) b =
    (first, GreedyTo-snoc toks _ rest codes c g b)

pub GreedyTo-IsGreedy :
    (toks : Tokens) (s : Bytes) (codes : List Token)
    → GreedyTo toks s codes []
    → IsGreedy toks s codes
GreedyTo-IsGreedy toks s [] e = e
GreedyTo-IsGreedy toks s (c ∷ codes) (first, g) = (first, GreedyTo-IsGreedy toks _ codes g)

-- The segments are the greedy codes of the rows from `a` to `b`.
abbrev pub AreParsed : Tokens → (ℕ → Bytes) → ℕ → ℕ → List (List Token) → Type 0
AreParsed toks row a b [] = a ≡ b
AreParsed toks row a b (s ∷ segs) = IsGreedy toks (row a) s × AreParsed toks row (a + 1) b segs

module _ (toks : Tokens) (row : ℕ → Bytes) where
  pub AreParsed-append :
      (a b c : ℕ) (segs segs' : List (List Token))
      → AreParsed toks row a b segs
      → AreParsed toks row b c segs'
      → AreParsed toks row a c (segs ++ segs')
  AreParsed-append a b c [] segs' e h = subst (λ (x : ℕ). AreParsed toks row x c segs') (sym e) h
  AreParsed-append a b c (s ∷ segs) segs' (first, g) h =
      (first, AreParsed-append (a + 1) b c segs segs' g h)

  pub AreParsed-le :
      (a b : ℕ) (segs : List (List Token)) → AreParsed toks row a b segs → a + length segs ≡ b
  AreParsed-le a b [] e = omega arith
  AreParsed-le a b (s ∷ segs) (first, g) = omega (arith, AreParsed-le (a + 1) b segs g)

-- Rows counted from another start.
pub AreParsed-shift :
    (toks : Tokens) (row row' : ℕ → Bytes) (start a b : ℕ) (segs : List (List Token))
    → ((k : ℕ) → a ≤ k → k < b → row k ≡ row' (start + k))
    → AreParsed toks row a b segs
    → AreParsed toks row' (start + a) (start + b) segs
AreParsed-shift toks row row' start a b [] f e = omega arith
AreParsed-shift toks row row' start a b (s ∷ segs) f (first, g) =
    let size = AreParsed-le toks row (a + 1) b segs g in
    let next : start + (a + 1) ≡ start + a + 1 = omega arith in
    (
      subst (λ (x : Bytes). IsGreedy toks x s) (f a (omega arith) (omega arith)) first,
      subst (λ (x : ℕ). AreParsed toks row' x (start + b) segs) next
          (AreParsed-shift toks row row' start (a + 1) b segs (λ k l u. f k (omega arith) u) g),
    )

abbrev pub joined : List (List Token) → List Token
joined [] = []
joined (s ∷ segs) = s ++ joined segs

-- Where the segments end, if they begin at `base`.
abbrev pub ends : ℕ → List (List Token) → List ℕ
ends base [] = []
ends base (s ∷ segs) = (base + length s) ∷ ends (base + length s) segs

pub joined-append : (s t : List (List Token)) → joined (s ++ t) ≡ joined s ++ joined t
joined-append [] t = refl
joined-append (x ∷ s) t =
    ap (λ (c : List Token). x ++ c) (joined-append s t) ∙ sym (append_assoc x (joined s) (joined t))

pub ends-append :
    (base : ℕ) (s t : List (List Token))
    → ends base (s ++ t) ≡ ends base s ++ ends (base + length (joined s)) t
ends-append base [] t = ap (λ (k : ℕ). ends k t) (omega arith)
ends-append base (x ∷ s) t =
    let e : base + length x + length (joined s) ≡ base + length (x ++ joined s) =
      omega (arith, length-append x (joined s)) in
    ap (λ (c : List ℕ). (base + length x) ∷ c)
      (ends-append (base + length x) s t ∙ ap (λ (k : ℕ). ends (base + length x) s ++ ends k t) e)

pub length-ends : (base : ℕ) (s : List (List Token)) → length (ends base s) ≡ length s
length-ends base [] = refl
length-ends base (x ∷ s) = ap suc (length-ends (base + length x) s)

-- A write behind the first `n` elements, and one at the end of them.
pub take-set_after : (xs : List ℕ) (n i v : ℕ) → n ≤ i → take n (set xs i v) ≡ take n xs
take-set_after xs zero i v h = refl
take-set_after [] (suc n) i v h = refl
take-set_after (x ∷ xs) (suc n) zero v h = absurd (omega arith)
take-set_after (x ∷ xs) (suc n) (suc i) v h =
    ap (λ t. x ∷ t) (take-set_after xs n i v (omega arith))

pub take-set_end :
    (xs : List ℕ) (n v : ℕ) → n < length xs → take (n + 1) (set xs n v) ≡ take n xs ++ v ∷ []
take-set_end xs n v l = ap (λ (k : ℕ). take k (set xs n v)) (one_more n) ∙ go xs n l
  where
    one_more : (n : ℕ) → n + 1 ≡ suc n
    one_more n = omega arith

    go : (xs : List ℕ) (n : ℕ) → n < length xs → take (suc n) (set xs n v) ≡ take n xs ++ v ∷ []
    go [] n l = elim l [ ]
    go (x ∷ xs) zero l = refl
    go (x ∷ xs) (suc n) l = ap (λ t. x ∷ t) (go xs n (omega arith))

pub drop-span : (bytes : Bytes) (a b n : ℕ) → drop n (span bytes a b) ≡ span bytes (a + n) b
drop-span bytes a b n =
    drop-take n (b - a) (drop a bytes)
    ∙ ap (λ (k : ℕ). take k (drop n (drop a bytes))) (omega arith)
    ∙ ap (take (b - (a + n))) (drop-drop n a bytes)
  where
    take_nil : (k : ℕ) → take {A = ℕ} k [] ≡ []
    take_nil zero = refl
    take_nil (suc k) = refl

    drop-take : (n m : ℕ) (xs : Bytes) → drop n (take m xs) ≡ take (m - n) (drop n xs)
    drop-take zero m xs = ap (λ (k : ℕ). take k xs) (omega arith)
    drop-take (suc n) zero [] = sym (take_nil (0 - suc n))
    drop-take (suc n) zero (x ∷ xs) =
        let none_left : 0 ≡ 0 - suc n = omega arith in ap (λ (k : ℕ). take k (drop n xs)) none_left
    drop-take (suc n) (suc m) [] = sym (take_nil (suc m - suc n))
    drop-take (suc n) (suc m) (x ∷ xs) =
        drop-take n m xs ∙ ap (λ (k : ℕ). take k (drop n xs)) (omega arith)
