-- ===== src/Search/Build/Sorting.antt =====
-- search/substring/dfa.rs: `sort_unstable` and `dedup` of the relevant bytes.
use onpair.Common.{
  ℕ, ◌≤◌, ◌<◌, ◌≡◌, ◌∙◌, Bool, true, ◌||◌, arith, [], ◌∷◌, Bytes, leb, ◌==◌, Bool-cases, inl, inr,
  refl, ap,
}
use onpair.Search.Build.{has_byte, insert, sort, dedup_after, dedup}

abbrev IsOrdered : Bytes → Type 0
IsOrdered [] = Unit
IsOrdered (a ∷ bytes) = ((x : ℕ) → has_byte x bytes ≡ true → a ≤ x) × IsOrdered bytes

abbrev pub IsAscending : Bytes → Type 0
IsAscending [] = Unit
IsAscending (a ∷ bytes) = ((x : ℕ) → has_byte x bytes ≡ true → a < x) × IsAscending bytes

has_byte-insert :
    (x a : ℕ) (bytes : Bytes) → has_byte x (insert a bytes) ≡ (a == x || has_byte x bytes)
has_byte-insert x a [] = refl
has_byte-insert x a (b ∷ bytes) = ground (arith, has_byte-insert x a bytes)

insert-IsOrdered : (a : ℕ) (bytes : Bytes) → IsOrdered bytes → IsOrdered (insert a bytes)
insert-IsOrdered a [] h = (λ x e. ground arith, tt)
insert-IsOrdered a (b ∷ bytes) (least, h) = elim (Bool-cases (leb a b)) [
  | inl e ↦ rw (e) (λ x q. ground (arith, least x), (least, h))
  | inr e ↦
      rw (e) (λ x q. ground (arith, least x, has_byte-insert x a bytes), insert-IsOrdered a bytes h)
]

has_byte-sort : (x : ℕ) (bytes : Bytes) → has_byte x (sort bytes) ≡ has_byte x bytes
has_byte-sort x [] = refl
has_byte-sort x (a ∷ bytes) =
    has_byte-insert x a (sort bytes) ∙ ap (λ (t : Bool). a == x || t) (has_byte-sort x bytes)

sort-IsOrdered : (bytes : Bytes) → IsOrdered (sort bytes)
sort-IsOrdered [] = tt
sort-IsOrdered (a ∷ bytes) = insert-IsOrdered a (sort bytes) (sort-IsOrdered bytes)

has_byte-dedup_after :
    (x a : ℕ) (bytes : Bytes) → has_byte x (a ∷ dedup_after a bytes) ≡ has_byte x (a ∷ bytes)
has_byte-dedup_after x a [] = refl
has_byte-dedup_after x a (b ∷ bytes) =
    ground (arith, has_byte-dedup_after x a bytes, has_byte-dedup_after x b bytes)

dedup_after-IsAscending :
    (a : ℕ) (bytes : Bytes) → IsOrdered (a ∷ bytes) → IsAscending (a ∷ dedup_after a bytes)
dedup_after-IsAscending a [] h = (λ x e. ground arith, tt)
dedup_after-IsAscending a (b ∷ bytes) (least, (least', h)) = elim (Bool-cases (b == a)) [
  | inl e ↦ rw (e) (dedup_after-IsAscending a bytes (λ x q. least x (ground arith), h))
  | inr e ↦
      let (above, good) = dedup_after-IsAscending b bytes (least', h) in
      rw (e) (λ x q. ground (arith, above x, least b), (above, good))
]

pub has_byte-dedup : (x : ℕ) (bytes : Bytes) → has_byte x (dedup (sort bytes)) ≡ has_byte x bytes
has_byte-dedup x bytes = go (sort bytes) ∙ has_byte-sort x bytes
  where
    go : (s : Bytes) → has_byte x (dedup s) ≡ has_byte x s
    go [] = refl
    go (a ∷ s) = has_byte-dedup_after x a s

-- The bytes that are visited ascend.
pub dedup-IsAscending : (bytes : Bytes) → IsAscending (dedup (sort bytes))
dedup-IsAscending bytes = go (sort bytes) (sort-IsOrdered bytes)
  where
    go : (s : Bytes) → IsOrdered s → IsAscending (dedup s)
    go [] h = tt
    go (a ∷ s) h = dedup_after-IsAscending a s h
