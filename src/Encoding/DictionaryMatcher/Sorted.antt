-- ===== src/Encoding/DictionaryMatcher/Sorted.antt =====
-- encoding/dictionary_matcher.rs: the padded keys, cut into blocks, and their samples.
use onpair.Common.{
  ℕ, zero, suc, ◌+◌, ◌-◌, ◌*◌, ◌≤◌, ◌<◌, ◌≡◌, ◌∙◌, refl, ap, some, arith, List, [], ◌∷◌, ◌++◌,
  length, length-drop, get_elem?, take, drop, replicate, ◌>>=◌,
}
use onpair.Encoding.DictionaryMatcher.{block_keys, chunks, first_keys}

module _ {ℓ} {A : Type ℓ} where
  pub get_elem?-take : (xs : List A) (n i : ℕ) → i < n → get_elem? (take n xs) i ≡ get_elem? xs i
  get_elem?-take [] zero i l = absurd (omega arith)
  get_elem?-take [] (suc n) i l = refl
  get_elem?-take (x ∷ xs) zero i l = absurd (omega arith)
  get_elem?-take (x ∷ xs) (suc n) zero l = refl
  get_elem?-take (x ∷ xs) (suc n) (suc i) l = get_elem?-take xs n i (omega arith)

  pub get_elem?-drop : (xs : List A) (n i : ℕ) → get_elem? (drop n xs) i ≡ get_elem? xs (n + i)
  get_elem?-drop xs zero i = ap (get_elem? xs) (omega arith)
  get_elem?-drop [] (suc n) i = refl
  get_elem?-drop (x ∷ xs) (suc n) i = get_elem?-drop xs n i ∙ ap (get_elem? (x ∷ xs)) (next n i)
    where
      next : (n i : ℕ) → suc (n + i) ≡ suc n + i
      next n i = omega arith

  pub get_elem?-append_left :
      (xs ys : List A) (i : ℕ) → i < length xs → get_elem? (xs ++ ys) i ≡ get_elem? xs i
  get_elem?-append_left [] ys i l = absurd (omega arith)
  get_elem?-append_left (x ∷ xs) ys zero l = refl
  get_elem?-append_left (x ∷ xs) ys (suc i) l = get_elem?-append_left xs ys i (omega arith)

  pub get_elem?-append_right :
      (xs ys : List A) (i : ℕ)
      → length xs ≤ i
      → get_elem? (xs ++ ys) i ≡ get_elem? ys (i - length xs)
  get_elem?-append_right [] ys i l = ap (get_elem? ys) (omega arith)
  get_elem?-append_right (x ∷ xs) ys zero l = absurd (omega arith)
  get_elem?-append_right (x ∷ xs) ys (suc i) l =
      get_elem?-append_right xs ys i (omega arith) ∙ ap (get_elem? ys) (omega arith)

  pub get_elem?-replicate : (n i : ℕ) (a : A) → i < n → get_elem? (replicate n a) i ≡ some a
  get_elem?-replicate zero i a l = absurd (omega arith)
  get_elem?-replicate (suc n) zero a l = refl
  get_elem?-replicate (suc n) (suc i) a l = get_elem?-replicate n i a (omega arith)

-- A block, and a key in it.
pub chunks-get_elem? :
    (n : ℕ) (keys : List ℕ) (b s : ℕ)
    → b < n
    → s < block_keys
    → (get_elem? (chunks n keys) b >>= (λ (block : List ℕ). get_elem? block s))
      ≡ get_elem? keys (b * block_keys + s)
chunks-get_elem? zero keys b s l h = absurd (omega arith)
chunks-get_elem? (suc n) keys zero s l h =
    get_elem?-take keys block_keys s h ∙ ap (get_elem? keys) (omega arith)
chunks-get_elem? (suc n) keys (suc b) s l h =
    chunks-get_elem? n (drop block_keys keys) b s (omega arith) h
    ∙ get_elem?-drop keys block_keys (b * block_keys + s)
    ∙ ap (get_elem? keys) (shift b s)
  where
    shift : (b s : ℕ) → block_keys + (b * block_keys + s) ≡ suc b * block_keys + s
    shift b s = omega arith

-- The samples are the first keys of the blocks.
pub first_keys-chunks :
    (n : ℕ) (keys : List ℕ)
    → n * block_keys ≤ length keys
    → (samples : List ℕ) × (first_keys (chunks n keys) ≡ some samples)
      × ((b : ℕ) → b < n → get_elem? samples b ≡ get_elem? keys (b * block_keys))
unfolding first_keys
first_keys-chunks zero keys l = ([], refl, λ b h. absurd (omega arith))
first_keys-chunks (suc n) [] l = absurd (omega arith)
first_keys-chunks (suc n) (key ∷ keys) l =
    let (samples, e, h) =
      first_keys-chunks n (drop block_keys (key ∷ keys)) (room n (key ∷ keys) l) in
    (key ∷ samples, rw (first_keys, e), each samples h)
  where
    room :
        (n : ℕ) (xs : List ℕ)
        → suc n * block_keys ≤ length xs
        → n * block_keys ≤ length (drop block_keys xs)
    room n xs l = omega (arith, length-drop block_keys xs)

    shift : (b : ℕ) → block_keys + b * block_keys ≡ suc b * block_keys
    shift b = omega arith

    each :
        (samples : List ℕ)
        → ((b : ℕ)
            → b < n
            → get_elem? samples b ≡ get_elem? (drop block_keys (key ∷ keys)) (b * block_keys))
        → (b : ℕ) → b < suc n
        → get_elem? (key ∷ samples) b ≡ get_elem? (key ∷ keys) (b * block_keys)
    each samples h zero l = refl
    each samples h (suc b) l =
        h b (omega arith)
        ∙ get_elem?-drop (key ∷ keys) block_keys (b * block_keys)
        ∙ ap (get_elem? (key ∷ keys)) (shift b)
