-- ===== src/Search/Automaton.antt =====
-- search/substring/dfa.rs: the byte automaton of a pattern, `kmp_failure` and `Build::step_bytes`.
pub mod Matches
pub mod Fallback
pub mod Failure
pub mod Occurs
pub mod Fall
pub mod Steps
pub mod Reach
use onpair.Common.{
  ℕ, zero, suc, ◌+◌, ◌-◌, ◌%◌, Bool, true, false, Option, some, none, List, [], ◌∷◌, Bytes, ltb,
  ◌==◌, if◌then◌else◌, length, get_elem?, set, replicate, ◌>>=◌,
}

-- The length of the matched prefix of the pattern, a `u8`.
abbrev pub State : Type 0
State = ℕ

abbrev pub state_mod : ℕ
state_mod = 256

-- `ContainsDfa::MAX_PATTERN_LEN`.
abbrev pub max_pattern_len : ℕ
max_pattern_len = 255

module _ (pattern : Bytes) where
  -- `while i < m`. The fuel counts the rounds; `none` is a panic, or exhausted fuel.
  unfoldable pub failure_loop : ℕ → ℕ → ℕ → List State → Option (List State)
  failure_loop zero i len fail = none
  failure_loop (suc fuel) i len fail = elim (ltb i (length pattern)) [
    | false ↦ some fail
    | true ↦ elim (get_elem? pattern i) [
      | none ↦ none
      | some a ↦ elim (get_elem? pattern len) [
        | none ↦ none
        | some b ↦ elim (a == b) [
          | true ↦ failure_loop fuel (i + 1) (len + 1) (set fail i ((len + 1) % state_mod))
          | false ↦ elim (ltb 0 len) [
            | true ↦ elim (get_elem? fail (len - 1)) [
              | none ↦ none
              | some shorter ↦ failure_loop fuel i shorter fail
            ]
            | false ↦ failure_loop fuel (i + 1) len (set fail i 0)
          ]
        ]
      ]
    ]
  ]

  unfoldable pub kmp_failure : Option (List State)
  kmp_failure =
      failure_loop (length pattern + length pattern + 1) 1 0 (replicate (length pattern) 0)

  module _ (fail : List State) where
    -- `while s > 0 && self.pattern[s as usize] != b`.
    unfoldable pub fall_back : ℕ → State → ℕ → Option State
    fall_back zero s b = none
    fall_back (suc fuel) s b = elim (ltb 0 s) [
      | false ↦ some s
      | true ↦ elim (get_elem? pattern s) [
        | none ↦ none
        | some c ↦ elim (c == b) [
          | true ↦ some s
          | false ↦ elim (get_elem? fail (s - 1)) [
            | none ↦ none
            | some shorter ↦ fall_back fuel shorter b
          ]
        ]
      ]
    ]

    -- One byte, from a state that does not accept.
    unfoldable pub step_byte : State → ℕ → Option State
    step_byte s b = do
      s' ← fall_back (suc s) s b
      c ← get_elem? pattern s'
      some (if c == b then (s' + 1) % state_mod else s')

    -- Acceptance is final.
    unfoldable pub step_bytes : State → Bytes → Option State
    step_bytes s [] = some s
    step_bytes s (b ∷ bytes) = elim (s == length pattern) [
      | true ↦ some (length pattern)
      | false ↦ elim (step_byte s b) [ none ↦ none | some s' ↦ step_bytes s' bytes ]
    ]
