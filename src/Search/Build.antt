-- ===== src/Search/Build.antt =====
-- search/substring/dfa.rs: `ContainsDfa::new` and the passes of `Build`. Positions of tokens are at
-- most a `last`, which is a `u16`, so their casts to `Token` are exact.
pub mod Emit
pub mod Grown
pub mod Advance
pub mod Sorting
pub mod Relevant
pub mod Base
pub mod Accept
pub mod Subtree
pub mod Depth
pub mod Traverse
pub mod Pending
pub mod Visit
pub mod Slices
pub mod Table
pub mod Exact
use onpair.Common.{
  ℕ, zero, suc, ◌+◌, ◌-◌, ◌%◌, Bool, true, false, not, ◌&&◌, ◌||◌, Option, some, none, List, [],
  ◌∷◌, ◌++◌, Bytes, ltb, leb, ◌==◌, if◌then◌else◌, length, get_elem?, set, replicate, ◌>>=◌,
}
use onpair.Core.Types.{Token, TokenRange, u32_mod, max_token_size, new, is_empty}
use onpair.Dictionary.View.{DictionaryView}
use onpair.Search.Lookup.{byte_at, prefix_range}
use onpair.Search.Automaton.{State, max_pattern_len, kmp_failure, step_bytes}
use onpair.Search.Substring.{SparseTransition, ContainsDfa}

pub data ContainsError : Type 0 where
  pattern_too_long : (length max : ℕ) → ContainsError
  frequency_index_mismatch : (index_tokens dict_tokens : ℕ) → ContainsError
  missing_byte_token : (byte : ℕ) → ContainsError

-- `Result<A, ContainsError>`.
pub data Prepared {ℓ} (A : Type ℓ) : Type ℓ where
  prepared : A → Prepared A
  refused : ContainsError → Prepared A

-- `while cond(i) { i += 1 }`, the position where it stops. `none` is a panic of the condition, or
-- exhausted fuel.
unfoldable pub advance : (ℕ → Option Bool) → ℕ → ℕ → Option ℕ
advance cond zero i = none
advance cond (suc fuel) i = elim (cond i) [
  | none ↦ none
  | some more ↦ elim more [ false ↦ some i | true ↦ advance cond fuel (i + 1) ]
]

-- `token.contains(&first)`.
abbrev pub has_byte : ℕ → Bytes → Bool
has_byte a [] = false
has_byte a (b ∷ bytes) = (b == a) || has_byte a bytes

-- `relevant.sort_unstable()`, `relevant.dedup()`.
abbrev pub insert : ℕ → Bytes → Bytes
insert a [] = a ∷ []
insert a (b ∷ bytes) = if leb a b then a ∷ b ∷ bytes else b ∷ insert a bytes

abbrev pub sort : Bytes → Bytes
sort [] = []
sort (a ∷ bytes) = insert a (sort bytes)

-- Drops the elements equal to the one kept before them.
abbrev pub dedup_after : ℕ → Bytes → Bytes
dedup_after a [] = []
dedup_after a (b ∷ bytes) = if b == a then dedup_after a bytes else b ∷ dedup_after b bytes

abbrev pub dedup : Bytes → Bytes
dedup [] = []
dedup (a ∷ bytes) = a ∷ dedup_after a bytes

-- `Build::emit`.
unfoldable pub emit : ℕ → List SparseTransition → TokenRange → State → List SparseTransition
emit range_start sparse range target = elim (get_elem? sparse (length sparse - 1)) [
  | none ↦ sparse ++ record { range = range; target = target } ∷ []
  | some last ↦
      if ltb range_start (length sparse)
        && ((last.target == target) && (last.range.last + 1 == range.begin))
      then set sparse (length sparse - 1) (record {
        range = record { begin = last.range.begin; last = range.last };
        target = last.target;
      })
      else sparse ++ record { range = range; target = target } ∷ []
]

-- `sparse` and `offsets` when `sparse_pass` ends.
pub record Exceptions : Type 0 where
  pub sparse : List SparseTransition
  pub offsets : List ℕ

module _ (pattern : Bytes) (fail : List State) where
  -- The bytes along the failure chain of a state.
  unfoldable pub chain : ℕ → State → Option Bytes
  chain zero s = none
  chain (suc fuel) s = elim (ltb 0 s) [
    | false ↦ some []
    | true ↦ elim (get_elem? pattern s) [
      | none ↦ none
      | some b ↦ elim (get_elem? fail (s - 1)) [
        | none ↦ none
        | some shorter ↦ elim (chain fuel shorter) [ none ↦ none | some bytes ↦ some (b ∷ bytes) ]
      ]
    ]
  ]

-- `i <= last && self.base[i] != exit`.
abbrev pub differs : List State → Token → State → ℕ → Option Bool
differs base last exit i =
    if leb i last then get_elem? base i >>= (λ s. some (not (s == exit))) else some false

module _ (base : List State) (range_start : ℕ) where
  -- The runs of the tokens `i..=last` whose base transition does not accept.
  unfoldable pub accept_loop :
      ℕ → Token → State → ℕ → List SparseTransition → Option (List SparseTransition)
  accept_loop zero last exit i sparse = none
  accept_loop (suc fuel) last exit i sparse = elim (leb i last) [
    | false ↦ some sparse
    | true ↦ elim (get_elem? base i) [
      | none ↦ none
      | some s ↦ elim (s == exit) [
        | true ↦ accept_loop fuel last exit (i + 1) sparse
        | false ↦ elim (advance (differs base last exit) (last + 2 - i) i) [
          | none ↦ none
          | some end ↦
              accept_loop fuel last exit end (emit range_start sparse (new i (end - 1)) exit)
        ]
      ]
    ]
  ]

module _ (v : DictionaryView) where
  -- `cur <= last && self.dict.token_len(cur as Token) == depth`.
  abbrev pub ends_at : ℕ → Token → ℕ → Option Bool
  ends_at depth last cur =
      if leb cur last then v.token_len cur >>= (λ n. some (n == depth)) else some false

  -- `sub_hi < last && self.dict.token((sub_hi + 1) as Token)[depth] == c`.
  abbrev pub continues : ℕ → Token → ℕ → ℕ → Option Bool
  continues depth last c sub_hi =
      if ltb sub_hi last then byte_at v depth (sub_hi + 1) >>= (λ b. some (b == c)) else some false

module _ (v : DictionaryView) (pattern : Bytes) (fail : List State) where
  -- `for t in 0..self.base.len()`.
  unfoldable pub base_loop : ℕ → Token → List State → Option (List State)
  base_loop zero t base = some base
  base_loop (suc left) t base = elim (get_elem? pattern 0) [
    | none ↦ none
    | some first ↦ elim (v.token t) [
      | none ↦ none
      | some token ↦
          elim (if has_byte first token then step_bytes pattern fail 0 token else some 0) [
            | none ↦ none
            | some s ↦ base_loop left (t + 1) (set base t s)
          ]
    ]
  ]

  abbrev pub base_pass : List State → Option (List State)
  base_pass base = base_loop (length base) 0 base

  module _ (base : List State) (range_start : ℕ) where
    -- The partition of the tokens `cur..=last` by their byte at `depth`, with `traverse` for a
    -- subtree.
    unfoldable pub subtree_loop :
        (TokenRange → ℕ → State → State → List SparseTransition → Option (List SparseTransition))
        → ℕ
        → ℕ
        → Token
        → State
        → State
        → ℕ
        → List SparseTransition
        → Option (List SparseTransition)
    subtree_loop subtree zero depth last kmp_j kmp_0 cur sparse = none
    subtree_loop subtree (suc fuel) depth last kmp_j kmp_0 cur sparse = elim (leb cur last) [
      | false ↦ some sparse
      | true ↦ do
        c ← byte_at v depth cur
        sub_hi ← advance (continues v depth last c) (last + 1 - cur) cur
        kj ← step_bytes pattern fail kmp_j (c ∷ [])
        k0 ← step_bytes pattern fail kmp_0 (c ∷ [])
        sparse' ← subtree (new cur sub_hi) (depth + 1) kj k0 sparse
        subtree_loop subtree fuel depth last kmp_j kmp_0 (sub_hi + 1) sparse'
    ]

    -- The recursion adds one to `depth`, which is the length of a prefix of a token.
    unfoldable pub traverse :
        ℕ → TokenRange → ℕ → State → State → List SparseTransition → Option (List SparseTransition)
    traverse zero tr depth kmp_j kmp_0 sparse = none
    traverse (suc fuel) tr depth kmp_j kmp_0 sparse = elim ((kmp_j == kmp_0) || is_empty tr) [
      | true ↦ some sparse
      | false ↦ elim (kmp_j == length pattern) [
        | true ↦
            accept_loop base range_start (tr.last + 2 - tr.begin) tr.last (length pattern) tr.begin
              sparse
        | false ↦ elim (advance (ends_at v depth tr.last) (tr.last + 2 - tr.begin) tr.begin) [
          | none ↦ none
          | some cur ↦
              subtree_loop (traverse fuel) (tr.last + 2 - cur) depth tr.last kmp_j kmp_0 cur (
                if ltb tr.begin cur
                then emit range_start sparse (new tr.begin (cur - 1)) kmp_j
                else sparse)
        ]
      ]
    ]

    -- `for &byte in &relevant`.
    unfoldable pub relevant_loop :
        State → Bytes → List SparseTransition → Option (List SparseTransition)
    relevant_loop j [] sparse = some sparse
    relevant_loop j (byte ∷ relevant) sparse = do
      range ← prefix_range v (byte ∷ [])
      sparse' ←
          if is_empty range
          then some sparse
          else (step_bytes pattern fail j (byte ∷ []) >>= (λ kj.
              step_bytes pattern fail 0 (byte ∷ [])
              >>= (λ k0. traverse max_token_size range 1 kj k0 sparse)))
      relevant_loop j relevant sparse'

  -- `for j in 1..self.accept`, and `self.offsets[self.accept]` behind it.
  unfoldable pub state_loop :
      List State → ℕ → State → List SparseTransition → List ℕ → Option Exceptions
  state_loop base zero j sparse offsets =
      some (record {
        sparse = sparse;
        offsets = set offsets (length pattern) (length sparse % u32_mod);
      })
  state_loop base (suc left) j sparse offsets = elim (chain pattern fail (j + 1) j) [
    | none ↦ none
    | some bytes ↦ elim (relevant_loop base (length sparse) j (dedup (sort bytes)) sparse) [
      | none ↦ none
      | some sparse' ↦
          state_loop base left (j + 1) sparse' (set offsets j (length sparse % u32_mod))
    ]
  ]

  abbrev pub sparse_pass : List State → List SparseTransition → List ℕ → Option Exceptions
  sparse_pass base = state_loop base (length pattern - 1) 1

-- `ContainsDfa::new`: `none` is a panic.
unfoldable pub new_dfa : Bytes → DictionaryView → Option (Prepared ContainsDfa)
new_dfa pattern v = elim (ltb max_pattern_len (length pattern)) [
  | true ↦ some (refused (pattern_too_long (length pattern) max_pattern_len))
  | false ↦ elim (length pattern == 0) [
    | true ↦ some (prepared (record { accept = 0; base = []; sparse = []; offsets = 0 ∷ [] }))
    | false ↦ do
      fail ← kmp_failure pattern
      base ← base_pass v pattern fail (replicate v.num_tokens 0)
      e ← sparse_pass v pattern fail base [] (replicate (length pattern + 1) 0)
      some (
          prepared (record {
            accept = length pattern;
            base = base;
            sparse = e.sparse;
            offsets = e.offsets;
          }))
  ]
]
