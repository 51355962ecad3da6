-- ===== src/Dictionary/Compact/Scan.antt =====
-- core/dictionary/compact.rs, the token loop of `validate_conformance`, as a scan of the token table.
use onpair.Common.{
  ℕ, zero, suc, ◌-◌, ◌≤◌, ◌<◌, ◌≡◌, ◌∙◌, Bool, true, false, ◌&&◌, ◌||◌, some, List, [], ◌∷◌, arith,
  refl, ap, Bytes, length, get_or, take, drop, ◌==◌, if◌then◌else◌, Bool-cases, inl, inr, lex_lt,
  lex_lt_trans, false≢true,
}
use onpair.Core.Validate.{Checked}
use onpair.Core.Validate.Checked.{ok, err}
use onpair.Core.Validate.InvalidColumn.{unsorted_tokens}
use onpair.Dictionary.View.{Tokens, tok, IsSorted}
use onpair.Dictionary.Compact.{Offsets, slice, mark, scan_tokens}
use onpair.Dictionary.Compact.Safety.{offset}
use onpair.Dictionary.Compact.Access.{tokens_of, slice_lem}
use onpair.Dictionary.Compact.Alphabet.{IsBitset, seen_bit, mark-IsBitset, seen_bit-mark}

-- The scan over a token table.
step_seen : List ℕ → Bytes → List ℕ
step_seen seen w = if length w == 1 then mark seen (get_or w 0 0) else seen

pub scan_list : Bytes → List ℕ → Tokens → Checked (List ℕ)
scan_list prev seen [] = ok seen
scan_list prev seen (w ∷ toks) = elim (lex_lt prev w) [
  | false ↦ err unsorted_tokens
  | true ↦ scan_list w (step_seen seen w) toks
]

-- Every slice of neighbouring offsets lies in the buffer.
abbrev pub AreReadable : Bytes → Offsets → Type 0
AreReadable bytes offsets =
    (i : ℕ)
    → suc i < length offsets
    → (offset offsets i ≤ offset offsets (suc i)) × (offset offsets (suc i) ≤ length bytes)

pub scan_tokens-scan_list :
    (bytes : Bytes) (offsets : Offsets) (prev : Bytes) (seen : List ℕ)
    → AreReadable bytes offsets
    → scan_tokens bytes prev seen offsets ≡ some (scan_list prev seen (tokens_of bytes offsets))
unfolding scan_tokens scan_list step_seen
scan_tokens-scan_list bytes [] prev seen r = refl
scan_tokens-scan_list bytes (a ∷ []) prev seen r = refl
scan_tokens-scan_list bytes (a ∷ b ∷ rest) prev seen r =
    let w : Bytes = take (b - a) (drop a bytes) in
    let here : slice bytes a b ≡ some w =
      slice_lem bytes a b (omega (arith, r 0 (omega arith))) (omega (arith, r 0 (omega arith))) in
    let ih =
      scan_tokens-scan_list bytes (b ∷ rest) w
        (if length w == 1 then mark seen (get_or w 0 0) else seen)
        (λ i l. r (suc i) (omega arith)) in
    ground (arith, here, ih)

-- Each token sorts after the one before it.
abbrev pub Ascends : Bytes → Tokens → Type 0
Ascends prev [] = Unit
Ascends prev (w ∷ toks) = (lex_lt prev w ≡ true) × Ascends w toks

-- The set after the scan.
pub marks : List ℕ → Tokens → List ℕ
marks seen [] = seen
marks seen (w ∷ toks) = marks (step_seen seen w) toks

pub scan_list-ok :
    (toks : Tokens) (prev : Bytes) (seen found : List ℕ)
    → scan_list prev seen toks ≡ ok found
    → Ascends prev toks × (found ≡ marks seen toks)
unfolding scan_list marks
scan_list-ok [] prev seen found h = (tt, cc)
scan_list-ok (w ∷ toks) prev seen found h = elim (Bool-cases (lex_lt prev w)) [
  | inl e ↦
      let ih = scan_list-ok toks w (step_seen seen w) found (ground arith) in ((e, ih.0), ih.1)
  | inr e ↦ absurd (ground arith)
]

pub ok-scan_list :
    (toks : Tokens) (prev : Bytes) (seen : List ℕ)
    → Ascends prev toks
    → scan_list prev seen toks ≡ ok (marks seen toks)
unfolding scan_list marks
ok-scan_list [] prev seen h = refl
ok-scan_list (w ∷ toks) prev seen h = ground (arith, ok-scan_list toks w (step_seen seen w) h.1)

-- The head of a nonempty byte string is a byte.
abbrev pub HeadsAreBytes : Tokens → Type 0
HeadsAreBytes [] = Unit
HeadsAreBytes (w ∷ toks) = (get_or w 0 0 < 256) × HeadsAreBytes toks

-- Whether some token is the single byte `b`.
abbrev pub has_single : ℕ → Tokens → Bool
has_single b [] = false
has_single b (w ∷ toks) = ((length w == 1) && (get_or w 0 0 == b)) || has_single b toks

step_seen-IsBitset :
    (seen : List ℕ) (w : Bytes) → get_or w 0 0 < 256 → IsBitset seen → IsBitset (step_seen seen w)
unfolding step_seen
step_seen-IsBitset seen w h s = elim (Bool-cases (length w == 1)) [
  | inl e ↦ rw e (mark-IsBitset seen (get_or w 0 0) h s)
  | inr e ↦ rw e s
]

step_seen-bit :
    (seen : List ℕ) (w : Bytes) (b : ℕ)
    → get_or w 0 0 < 256
    → IsBitset seen
    → seen_bit (step_seen seen w) b
      ≡ (if (length w == 1) && (get_or w 0 0 == b) then 1 else seen_bit seen b)
unfolding step_seen
step_seen-bit seen w b h s = elim (Bool-cases (length w == 1)) [
  | inl e ↦ rw e (seen_bit-mark seen (get_or w 0 0) b h s ∙ ground arith)
  | inr e ↦ rw e refl
]

pub marks-IsBitset :
    (toks : Tokens) (seen : List ℕ)
    → HeadsAreBytes toks
    → IsBitset seen
    → IsBitset (marks seen toks)
unfolding marks
marks-IsBitset [] seen h s = s
marks-IsBitset (w ∷ toks) seen h s =
    marks-IsBitset toks (step_seen seen w) h.1 (step_seen-IsBitset seen w h.0 s)

-- The scan finds exactly the single-byte tokens.
pub marks-bit :
    (toks : Tokens) (seen : List ℕ) (b : ℕ)
    → HeadsAreBytes toks
    → IsBitset seen
    → seen_bit (marks seen toks) b ≡ (if has_single b toks then 1 else seen_bit seen b)
unfolding marks
marks-bit [] seen b h s = refl
marks-bit (w ∷ toks) seen b h s =
    marks-bit toks (step_seen seen w) b h.1 (step_seen-IsBitset seen w h.0 s)
    ∙ by_tests ((length w == 1) && (get_or w 0 0 == b)) (has_single b toks) (seen_bit seen b)
        (step_seen-bit seen w b h.0 s)
  where
    by_tests :
        (x y : Bool) (n : ℕ) {m : ℕ}
        → m ≡ (if x then 1 else n)
        → (if y then 1 else m) ≡ (if x || y then 1 else n)
    by_tests x y n e = ground arith

single_of : (w : Bytes) (b : ℕ) → length w ≡ 1 → get_or w 0 0 ≡ b → w ≡ b ∷ []
single_of [] b h e = absurd (omega arith)
single_of (a ∷ []) b h e = ap (λ (x : ℕ). x ∷ []) e
single_of (a ∷ c ∷ w) b h e = absurd (omega arith)

pub has_single-token :
    (b : ℕ) (toks : Tokens)
    → has_single b toks ≡ true
    → (t : ℕ) × (t < length toks) × (tok toks t ≡ b ∷ [])
has_single-token b [] h = absurd (false≢true h)
has_single-token b (w ∷ toks) h = elim (Bool-cases ((length w == 1) && (get_or w 0 0 == b))) [
  | inl e ↦ (0, omega arith, single_of w b (ground arith) (ground arith))
  | inr e ↦ let (t, l, q) = has_single-token b toks (ground arith) in (suc t, omega arith, q)
]

pub token-has_single :
    (b : ℕ) (toks : Tokens) (t : ℕ)
    → t < length toks
    → tok toks t ≡ b ∷ []
    → has_single b toks ≡ true
token-has_single b [] t l e = elim l [ ]
token-has_single b (w ∷ toks) zero l e = ground (arith, ap length e, ap (λ x. get_or x 0 0) e)
token-has_single b (w ∷ toks) (suc t) l e =
    ground (arith, token-has_single b toks t (omega arith) e)

-- Sortedness by neighbours and by any two positions.
Ascends-below :
    (toks : Tokens) (prev : Bytes)
    → Ascends prev toks
    → (i : ℕ) → i < length toks
    → lex_lt prev (tok toks i) ≡ true
Ascends-below [] prev h i l = elim l [ ]
Ascends-below (w ∷ toks) prev h zero l = h.0
Ascends-below (w ∷ toks) prev h (suc i) l =
    lex_lt_trans prev w (tok toks i) h.0 (Ascends-below toks w h.1 i (omega arith))

pub Ascends-IsSorted : (toks : Tokens) (prev : Bytes) → Ascends prev toks → IsSorted toks
Ascends-IsSorted [] prev h i j l k = elim k [ ]
Ascends-IsSorted (w ∷ toks) prev h i zero l k = elim l [ ]
Ascends-IsSorted (w ∷ toks) prev h zero (suc j) l k = Ascends-below toks w h.1 j (omega arith)
Ascends-IsSorted (w ∷ toks) prev h (suc i) (suc j) l k =
    Ascends-IsSorted toks w h.1 i j (omega arith) (omega arith)

pub IsSorted-Ascends :
    (toks : Tokens) (prev : Bytes)
    → (0 < length toks → lex_lt prev (tok toks 0) ≡ true)
    → IsSorted toks
    → Ascends prev toks
IsSorted-Ascends [] prev f s = tt
IsSorted-Ascends (w ∷ toks) prev f s = (
  f (omega arith),
  IsSorted-Ascends toks w (λ l. s 0 1 (omega arith) (omega arith))
      (λ i j l k. s (suc i) (suc j) (omega arith) (omega arith)),
)
