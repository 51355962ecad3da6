-- ===== src/Search/Automaton/Fallback.antt =====
-- search/substring/dfa.rs: what an entry of the failure table says of the pattern.
use onpair.Common.{
  ℕ, ◌+◌, ◌≤◌, ◌<◌, ◌≡◌, ◌≢◌, ◌∙◌, sym, ap, arith, List, Bytes, length, take, get_or, ℕ_discrete,
  dec_lt,
}
use onpair.Search.Automaton.{State}
use onpair.Search.Automaton.Matches.{IsMatch, IsMatch-inward}

-- `f` is the longest proper prefix that the first `k` bytes of the pattern end with.
pub record IsFallback (p : Bytes) (k f : ℕ) : Type 0 where
  pub shorter : f < k
  pub match : IsMatch p (take k p) f
  pub longest : (j : ℕ) → j < k → IsMatch p (take k p) j → j ≤ f

-- The first `n` entries are right.
pub record AreFallbacks (p : Bytes) (n : ℕ) (fail : List State) : Type 0 where
  pub size : length fail ≡ length p
  pub entry : (i : ℕ) → i < n → IsFallback p (i + 1) (get_or fail i 0)

-- No match longer than `s` grows by the byte `b`.
abbrev pub IsRefused : Bytes → Bytes → ℕ → ℕ → ℕ → Type 0
IsRefused p t bound b s = (j : ℕ) → j < bound → s < j → IsMatch p t j → get_or p j 0 ≢ b

-- Falling back from `s` passes over no match.
pub IsFallback-IsRefused :
    (p t : Bytes) (bound b s f : ℕ)
    → IsMatch p t s
    → IsFallback p s f
    → get_or p s 0 ≢ b
    → IsRefused p t bound b s
    → IsRefused p t bound b f
IsFallback-IsRefused p t bound b s f m fb ne r j l k h e = elim (ℕ_discrete j s) [
  | yes same ↦ ne (ap (λ (i : ℕ). get_or p i 0) (sym same) ∙ e)
  | no other ↦ elim (dec_lt s j) [
    | yes longer ↦ r j l longer h e
    | no le ↦
        let d : j < s = omega arith in
        let c = fb.longest j d (IsMatch-inward p t s j m (omega arith) h) in absurd (omega arith)
  ]
]
