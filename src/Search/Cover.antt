-- ===== src/Search/Cover.antt =====
-- search/substring/probe/cover.rs: the cover that a scan searches for, as points and ranges.
pub mod Halving
pub mod Merge
pub mod Normal
use onpair.Common.{
  ℕ, zero, suc, ◌+◌, ◌-◌, ◌/◌, Bool, true, false, not, ◌&&◌, ◌||◌, Option, some, none, List, [],
  ◌∷◌, ltb, leb, ◌==◌, if◌then◌else◌, length, get_elem?, min, max,
}
use onpair.Core.Types.{Token, token_mod, TokenRange, contains}

pub record ProbeCover : Type 0 where
  pub points : List Token
  pub ranges : List TokenRange

-- `sort_unstable_by_key(|run| run.begin)`, as an insertion sort.
abbrev pub insert_run : TokenRange → List TokenRange → List TokenRange
insert_run r [] = r ∷ []
insert_run r (q ∷ runs) = if leb r.begin q.begin then r ∷ q ∷ runs else q ∷ insert_run r runs

abbrev pub sort_by_begin : List TokenRange → List TokenRange
sort_by_begin [] = []
sort_by_begin (r ∷ runs) = insert_run r (sort_by_begin runs)

-- `u16::saturating_add(1)`.
abbrev pub saturating_next : Token → Token
saturating_next t = min (t + 1) (token_mod - 1)

-- The loop over the sorted runs: the first argument is the run that `merged.last_mut()` yields.
abbrev pub merge_loop : TokenRange → List TokenRange → List TokenRange
merge_loop opened [] = opened ∷ []
merge_loop opened (run ∷ runs) =
    if leb run.begin (saturating_next opened.last)
    then merge_loop (record { begin = opened.begin; last = max opened.last run.last }) runs
    else opened ∷ merge_loop run runs

abbrev pub merge_runs : List TokenRange → List TokenRange
merge_runs [] = []
merge_runs (run ∷ runs) = merge_loop run runs

-- The two halves of `partition(|run| run.begin == run.last)`, the first one mapped to ids.
abbrev pub points_of : List TokenRange → List Token
points_of [] = []
points_of (r ∷ runs) = if r.begin == r.last then r.begin ∷ points_of runs else points_of runs

abbrev pub ranges_of : List TokenRange → List TokenRange
ranges_of [] = []
ranges_of (r ∷ runs) = if r.begin == r.last then ranges_of runs else r ∷ ranges_of runs

unfoldable pub from_runs : List TokenRange → ProbeCover
from_runs runs =
    let merged = merge_runs (sort_by_begin runs) in
    record { points = points_of merged; ranges = ranges_of merged }

-- The test at an index.
abbrev pub test_at {ℓ} : {A : Type ℓ} → (A → Bool) → List A → ℕ → Bool
test_at test xs i = elim (get_elem? xs i) [ none ↦ false | some x ↦ test x ]

-- `while size > 1` of the binary search of a slice: `base` moves to the middle where the test holds.
unfoldable pub halving {ℓ} : {A : Type ℓ} → (A → Bool) → List A → ℕ → ℕ → ℕ → ℕ
halving test xs zero size base = base
halving test xs (suc fuel) size base =
    if ltb 1 size
    then (halving test xs fuel (size - size / 2)
        (if test_at test xs (base + size / 2) then base + size / 2 else base))
    else base

-- `points.binary_search(&token).is_ok()`.
unfoldable pub has_point : List Token → Token → Bool
has_point points token =
    test_at (λ p. p == token) points
      (halving (λ p. leb p token) points (length points) (length points) 0)

-- `ranges.partition_point(|range| range.last < token)`.
unfoldable pub partition_point : List TokenRange → Token → ℕ
partition_point ranges token =
    let found = halving (λ r. ltb r.last token) ranges (length ranges) (length ranges) 0 in
    if test_at (λ r. ltb r.last token) ranges found then found + 1 else found

abbrev pub range_at : List TokenRange → ℕ → Token → Bool
range_at ranges next token = elim (get_elem? ranges next) [
  | none ↦ false
  | some r ↦ contains r token
]

unfoldable pub covers : ProbeCover → Token → Bool
covers cover token =
    has_point cover.points token || range_at cover.ranges (partition_point cover.ranges token) token
