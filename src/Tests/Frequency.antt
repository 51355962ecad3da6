-- ===== src/Tests/Frequency.antt =====
-- The theorems of the frequency index, on the codes `2 0 2 3 2 0` of five tokens.
use onpair.Common.{ℕ, ◌≤◌, ◌<◌, ◌≡◌, ◌⊎◌, ◌↔◌, inr, [], ◌∷◌, List, refl, some, arith}
use onpair.Core.Types.{Token, token_mod, u32_mod, new}
use onpair.Search.Frequency.{
  InvalidFrequencyIndex, ok, err, build, count_codes, add_up, from_cumulative, range_frequency,
}
use onpair.Search.Frequency.Counts.{AreBelow, IsIndex}
use onpair.Search.Frequency.Index.{Fails, build_total}
use onpair.Search.Frequency.Query.{
  IsCumulative, range_frequency-occurs, from_cumulative_iff, build-from_cumulative,
}

abbrev stream : List Token
stream = 2 ∷ 0 ∷ 2 ∷ 3 ∷ 2 ∷ 0 ∷ []

abbrev sums : List ℕ
sums = 0 ∷ 2 ∷ 2 ∷ 5 ∷ 6 ∷ 6 ∷ []

built : build stream 5 ≡ some (ok sums)
unfolding build count_codes add_up
built = refl

sums-IsIndex : IsIndex stream 5 sums
sums-IsIndex = record { size = refl; sums = λ t l. ground arith }

build_total_example :
    ((5 ≤ token_mod)
      × (6 < u32_mod)
      × AreBelow 5 stream
      × ((cumulative : List ℕ) × (build stream 5 ≡ some (ok cumulative))
          × IsIndex stream 5 cumulative))
    ⊎ ((e : InvalidFrequencyIndex) × (build stream 5 ≡ some (err e)) × Fails e stream 5)
build_total_example = build_total stream 5

range_frequency-occurs_example : range_frequency sums (new 1 3) ≡ some 4
range_frequency-occurs_example =
    range_frequency-occurs stream 5 sums sums-IsIndex (ground arith) (new 1 3) (inr (ground arith))

from_cumulative_iff_example : (from_cumulative sums ≡ ok sums) ↔ IsCumulative sums
from_cumulative_iff_example = from_cumulative_iff sums

build-from_cumulative_example : from_cumulative sums ≡ ok sums
build-from_cumulative_example = build-from_cumulative stream 5 sums built
