-- ===== src/Search/Frequency.antt =====
-- search/index/frequency.rs: the prefix sums of token frequencies.
pub mod Counts
pub mod Index
pub mod Query
use onpair.Common.{
  ℕ, zero, suc, ◌+◌, ◌-◌, ◌%◌, Bool, true, false, not, ◌||◌, Option, some, none, List, [], ◌∷◌, ltb,
  ◌==◌, if◌then◌else◌, length, get_elem?, set, replicate, ◌>>=◌,
}
use mathlib.Core.Option
use onpair.Core.Types.{Token, token_mod, u32_mod, sub32, TokenRange, is_empty}

pub data InvalidFrequencyIndex : Type 0 where
  empty too_many_tokens first_not_zero decreasing code_out_of_range frequency_overflow :
      InvalidFrequencyIndex

-- `Result<A, InvalidFrequencyIndex>`.
pub data Indexed {ℓ} (A : Type ℓ) : Type ℓ where
  ok : A → Indexed A
  err : InvalidFrequencyIndex → Indexed A

abbrev pub max_tokens : ℕ
max_tokens = token_mod

-- `for &code in codes`: `get_mut(code + 1).ok_or(..)? += 1`, in `u32`.
unfoldable pub count_codes : List Token → List ℕ → Indexed (List ℕ)
count_codes [] cumulative = ok cumulative
count_codes (code ∷ codes) cumulative = elim (get_elem? cumulative (code + 1)) [
  | none ↦ err code_out_of_range
  | some n ↦ count_codes codes (set cumulative (code + 1) ((n + 1) % u32_mod))
]

-- `for token in 0..num_tokens`: the first argument counts the rounds left.
unfoldable pub add_up : ℕ → ℕ → List ℕ → Option (List ℕ)
add_up zero token cumulative = some cumulative
add_up (suc left) token cumulative = do
  below ← get_elem? cumulative token
  here ← get_elem? cumulative (token + 1)
  add_up left (token + 1) (set cumulative (token + 1) ((here + below) % u32_mod))

-- `none` is the panic of an index out of bounds.
unfoldable pub build : List Token → ℕ → Option (Indexed (List ℕ))
build codes num_tokens =
    if ltb max_tokens num_tokens
    then some (err too_many_tokens)
    else if not (ltb (length codes) u32_mod)
    then some (err frequency_overflow)
    else elim (count_codes codes (replicate (num_tokens + 1) 0)) [
      | err e ↦ some (err e)
      | ok counted ↦ Option.map ok (add_up num_tokens 0 counted)
    ]

-- `cumulative.windows(2).any(|pair| pair[0] > pair[1])`.
unfoldable pub decreases : List ℕ → Bool
decreases (a ∷ b ∷ rest) = ltb b a || decreases (b ∷ rest)
decreases _ = false

unfoldable pub check_cumulative : List ℕ → Indexed (Unit {0})
check_cumulative [] = err empty
check_cumulative (first ∷ rest) =
    if ltb (max_tokens + 1) (length (first ∷ rest))
    then err too_many_tokens
    else if not (first == 0)
    then err first_not_zero
    else if decreases (first ∷ rest)
    then err decreasing
    else ok tt

-- `TokenFrequencyIndex::from_cumulative`, and `TokenFrequencyIndexView::new`.
unfoldable pub from_cumulative : List ℕ → Indexed (List ℕ)
from_cumulative cumulative = elim (check_cumulative cumulative) [
  | ok _ ↦ ok cumulative
  | err e ↦ err e
]

-- The queries of a view, whose prefix sums are not empty. `none` is a panic.
module _ (cumulative : List ℕ) where
  abbrev pub num_tokens : ℕ
  num_tokens = length cumulative - 1

  unfoldable pub frequency : Token → Option ℕ
  frequency token = if not (ltb token num_tokens) then none else do
    above ← get_elem? cumulative (token + 1)
    below ← get_elem? cumulative token
    some (sub32 above below)

  unfoldable pub range_frequency : TokenRange → Option ℕ
  range_frequency range =
      if is_empty range then some 0 else if not (ltb range.last num_tokens) then none else do
        above ← get_elem? cumulative (range.last + 1)
        below ← get_elem? cumulative range.begin
        some (sub32 above below)

  unfoldable pub total_frequency : Option ℕ
  total_frequency = get_elem? cumulative (length cumulative - 1)
