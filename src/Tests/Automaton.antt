-- ===== src/Tests/Automaton.antt =====
-- The theorems of the byte automaton, on the pattern `abab`.
use onpair.Common.{◌≡◌, ◌==◌, [], ◌∷◌, List, refl, some, true, arith, Bytes}
use onpair.Search.Automaton.{State, kmp_failure, failure_loop, step_bytes}
use onpair.Search.Automaton.Fallback.{AreFallbacks}
use onpair.Search.Automaton.Failure.{kmp_failure-AreFallbacks}
use onpair.Search.Automaton.Steps.{step_bytes-occurs}

abbrev abab : Bytes
abab = 97 ∷ 98 ∷ 97 ∷ 98 ∷ []

abbrev text : Bytes
text = 97 ∷ 97 ∷ 98 ∷ 97 ∷ 98 ∷ 99 ∷ []

abab-failure : kmp_failure abab ≡ some (0 ∷ 0 ∷ 1 ∷ 2 ∷ [])
unfolding kmp_failure failure_loop
abab-failure = refl

kmp_failure-AreFallbacks_example :
    (fail : List State) × (kmp_failure abab ≡ some fail) × AreFallbacks abab 4 fail
kmp_failure-AreFallbacks_example = kmp_failure-AreFallbacks abab (ground arith) (ground arith)

step_bytes-occurs_example :
    (fail : List State) × (kmp_failure abab ≡ some fail)
    × ((k : State) × (step_bytes abab fail 0 text ≡ some k) × ((k == 4) ≡ true))
step_bytes-occurs_example = step_bytes-occurs abab text (ground arith) (ground arith)
