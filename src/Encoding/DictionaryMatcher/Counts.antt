-- ===== src/Encoding/DictionaryMatcher/Counts.antt =====
-- encoding/dictionary_matcher.rs, `from_dictionary`: the first token of each 2-byte prefix.
use onpair.Common.{
  ℕ, zero, suc, ◌+◌, ◌/◌, ◌^◌, ◌≤◌, ◌<◌, ◌≡◌, ◌≢◌, ◌∙◌, refl, sym, subst, some, arith, List, [],
  ◌∷◌, length, length-set, get_or-set_self, get_or-set_ne, get_elem?-eq-get_or, get_or, set, ltb,
  ◌==◌, ℕ_discrete, if◌then◌else◌,
}
use onpair.Encoding.DictionaryMatcher.{prefix_slots, count_starts, sum_starts}

-- The number of keys whose two leading bytes are `p`, and smaller than `p`.
abbrev pub with_prefix : ℕ → List ℕ → ℕ
with_prefix p [] = 0
with_prefix p (key ∷ keys) = (if key / 2 ^ 112 == p then 1 else 0) + with_prefix p keys

abbrev pub before_prefix : ℕ → List ℕ → ℕ
before_prefix p [] = 0
before_prefix p (key ∷ keys) = (if ltb (key / 2 ^ 112) p then 1 else 0) + before_prefix p keys

abbrev pub AreKeys : List ℕ → Type 0
AreKeys [] = Unit
AreKeys (key ∷ keys) = (key < 2 ^ 128) × AreKeys keys

pub before_prefix_next :
    (p : ℕ) (keys : List ℕ) → before_prefix (p + 1) keys ≡ before_prefix p keys + with_prefix p keys
before_prefix_next p [] = refl
before_prefix_next p (key ∷ keys) = ground (arith, before_prefix_next p keys)

pub before_prefix_zero : (keys : List ℕ) → before_prefix 0 keys ≡ 0
before_prefix_zero [] = refl
before_prefix_zero (key ∷ keys) = ground (arith, before_prefix_zero keys)

pub before_prefix_le : (p : ℕ) (keys : List ℕ) → before_prefix p keys ≤ length keys
before_prefix_le p [] = omega arith
before_prefix_le p (key ∷ keys) = ground (arith, before_prefix_le p keys)

-- Each key is counted behind its prefix.
pub count_starts_lem :
    (keys starts : List ℕ)
    → AreKeys keys
    → length starts ≡ prefix_slots + 1
    → (counts : List ℕ) × (count_starts keys starts ≡ some counts)
      × (length counts ≡ prefix_slots + 1)
      × (get_or counts 0 0 ≡ get_or starts 0 0)
      × ((p : ℕ)
          → p < prefix_slots
          → get_or counts (p + 1) 0 ≡ get_or starts (p + 1) 0 + with_prefix p keys)
unfolding count_starts
count_starts_lem [] starts h e = (starts, refl, e, refl, λ p l. omega arith)
count_starts_lem (key ∷ keys) starts (hk, h) e =
    let slot = key / 2 ^ 112 + 1 in
    let l : slot < length starts = inside key starts hk e in
    let next = set starts slot (get_or starts slot 0 + 1) in
    let (counts, q, size, first, each) =
      count_starts_lem keys next h (length-set starts slot (get_or starts slot 0 + 1) ∙ e) in
    (
      counts,
      rw (count_starts, get_elem?-eq-get_or starts slot 0 l, q),
      size,
      first ∙ get_or-set_ne starts slot 0 (get_or starts slot 0 + 1) 0 (positive (key / 2 ^ 112)),
      λ p lp. each p lp ∙ step p,
    )
  where
    positive : (n : ℕ) → n + 1 ≢ 0
    positive n e = omega arith

    inside :
        (key : ℕ) (starts : List ℕ)
        → key < 2 ^ 128
        → length starts ≡ prefix_slots + 1
        → key / 2 ^ 112 + 1 < length starts
    inside key starts hk e = omega arith

    step :
        (p : ℕ)
        → get_or
              (set starts (key / 2 ^ 112 + 1) (get_or starts (key / 2 ^ 112 + 1) 0 + 1))
              (p + 1)
              0
            + with_prefix p keys
          ≡ get_or starts (p + 1) 0 + ((if key / 2 ^ 112 == p then 1 else 0) + with_prefix p keys)
    step p = elim (ℕ_discrete (key / 2 ^ 112) p) [
      | yes same ↦
          let moved : get_or
                (set starts (key / 2 ^ 112 + 1) (get_or starts (key / 2 ^ 112 + 1) 0 + 1))
                (key / 2 ^ 112 + 1) 0
              ≡ get_or starts (key / 2 ^ 112 + 1) 0 + 1 =
            get_or-set_self starts (key / 2 ^ 112 + 1) (get_or starts (key / 2 ^ 112 + 1) 0 + 1) 0
              (inside key starts hk e) in
          subst
            (λ (x : ℕ).
              get_or (set starts (key / 2 ^ 112 + 1) (get_or starts (key / 2 ^ 112 + 1) 0 + 1))
                  (x + 1) 0
                + with_prefix x keys
              ≡ get_or starts (x + 1) 0
                + ((if key / 2 ^ 112 == x then 1 else 0) + with_prefix x keys))
            same (ground (arith, moved))
      | no ne ↦
          let kept =
            get_or-set_ne starts (key / 2 ^ 112 + 1) (p + 1)
              (get_or starts (key / 2 ^ 112 + 1) 0 + 1) 0 (λ q. ne (omega arith)) in
          ground (arith, kept, ne)
    ]

-- The sums: entry `p` counts the keys before the prefix `p`.
pub sum_starts_lem :
    (left p : ℕ) (keys starts : List ℕ)
    → p + left ≡ prefix_slots
    → length starts ≡ prefix_slots + 1
    → ((q : ℕ) → q ≤ p → get_or starts q 0 ≡ before_prefix q keys)
    → ((q : ℕ) → p ≤ q → q < prefix_slots → get_or starts (q + 1) 0 ≡ with_prefix q keys)
    → (sums : List ℕ) × (sum_starts left p starts ≡ some sums)
      × (length sums ≡ prefix_slots + 1)
      × ((q : ℕ) → q ≤ prefix_slots → get_or sums q 0 ≡ before_prefix q keys)
unfolding sum_starts
sum_starts_lem zero p keys starts e size done rest =
    (starts, refl, size, λ q l. done q (omega arith))
sum_starts_lem (suc left) p keys starts e size done rest =
    let value = get_or starts (p + 1) 0 + get_or starts p 0 in
    let next = set starts (p + 1) value in
    let (sums, eq, size', all) =
      sum_starts_lem left (p + 1) keys next (omega arith) (length-set starts (p + 1) value ∙ size)
        (λ q l. sofar q l)
        (λ q l l'.
          get_or-set_ne starts (p + 1) (q + 1) value 0 (λ x. absurd (omega arith))
          ∙ rest q (omega arith) l') in
    (
      sums,
      rw (
        sum_starts,
        get_elem?-eq-get_or starts p 0 (omega arith),
        get_elem?-eq-get_or starts (p + 1) 0 (omega arith),
        eq,
      ),
      size',
      all,
    )
  where
    sofar :
        (q : ℕ)
        → q ≤ p + 1
        → get_or (set starts (p + 1) (get_or starts (p + 1) 0 + get_or starts p 0)) q 0
          ≡ before_prefix q keys
    sofar q l = elim (ℕ_discrete q (p + 1)) [
      | yes same ↦
          subst
            (λ (x : ℕ).
              get_or (set starts (p + 1) (get_or starts (p + 1) 0 + get_or starts p 0)) x 0
              ≡ before_prefix x keys)
            (sym same)
            (get_or-set_self starts (p + 1) (get_or starts (p + 1) 0 + get_or starts p 0) 0
                (omega arith)
              ∙ omega (
                arith,
                rest p (omega arith) (omega arith),
                done p (omega arith),
                before_prefix_next p keys,
              ))
      | no ne ↦
          get_or-set_ne starts (p + 1) q (get_or starts (p + 1) 0 + get_or starts p 0) 0
            (λ x. ne (sym x))
          ∙ done q (omega arith)
    ]
