-- ===== src/Common/Memory.antt =====
-- Byte buffers that are read and written at an offset. `none` is an access out of bounds.
use Prim.Native.Nat.{ℕ, zero, suc, ◌+◌, ◌-◌, ◌≤◌, ◌<◌}
use mathlib.Core.Path.{◌≡◌, refl, ap, sym, ◌∙◌}
use mathlib.Core.List.{List, [], ◌∷◌, ◌++◌}
use mathlib.Core.Option.{Option, none, some}
use native.Mathlib.Omega.{arith}
use native.Mathlib.Decide.{dec_lt}
use onpair.Common.Tests.{leb, ltb, if◌then◌else◌, le→leb, lt→ltb}
use onpair.Common.Lists.{
  length, set, take, replicate, drop, get_or, get_or-drop, length-append, length-take, length-drop,
  take-add, take-append, drop-append,
}
use onpair.Common.ByteString.{Bytes}

-- The `n` bytes at offset `i`.
abbrev pub load : Bytes → ℕ → ℕ → Option Bytes
load src i n = if leb (i + n) (length src) then some (take n (drop i src)) else none

abbrev pub write : Bytes → ℕ → Bytes → Bytes
write dst i chunk = take i dst ++ (chunk ++ drop (i + length chunk) dst)

abbrev pub store : Bytes → ℕ → Bytes → Option Bytes
store dst i chunk = if leb (i + length chunk) (length dst) then some (write dst i chunk) else none

-- `buffer[i] = value`.
abbrev pub put : List ℕ → ℕ → ℕ → Option (List ℕ)
put buffer i value = if ltb i (length buffer) then some (set buffer i value) else none

pub put_lem :
    (buffer : List ℕ) (i value : ℕ)
    → i < length buffer
    → put buffer i value ≡ some (set buffer i value)
put_lem buffer i value h = rw (lt→ltb i (length buffer) h)

pub load_lem :
    (src : Bytes) (i n : ℕ) → i + n ≤ length src → load src i n ≡ some (take n (drop i src))
load_lem src i n h = rw (le→leb (i + n) (length src) h)

pub store_lem :
    (dst : Bytes) (i : ℕ) (chunk : Bytes)
    → i + length chunk ≤ length dst
    → store dst i chunk ≡ some (write dst i chunk)
store_lem dst i chunk h = rw (le→leb (i + length chunk) (length dst) h)

pub length-write :
    (dst : Bytes) (i : ℕ) (chunk : Bytes)
    → i + length chunk ≤ length dst
    → length (write dst i chunk) ≡ length dst
length-write dst i chunk h = omega (
  arith,
  length-append (take i dst) (chunk ++ drop (i + length chunk) dst),
  length-append chunk (drop (i + length chunk) dst),
  length-take i dst,
  length-drop (i + length chunk) dst,
)

pub take-append_le {ℓ} :
    {A : Type ℓ} (n : ℕ) (xs ys : List A) → n ≤ length xs → take n (xs ++ ys) ≡ take n xs
take-append_le zero xs ys h = refl
take-append_le (suc n) [] ys h = elim h [ ]
take-append_le (suc n) (x ∷ xs) ys h = ap (λ t. x ∷ t) (take-append_le n xs ys (omega arith))

-- The bytes before the end of a write: those before it, and those written.
pub take-write :
    (dst : Bytes) (i n : ℕ) (chunk : Bytes)
    → i ≤ length dst
    → n ≤ length chunk
    → take (i + n) (write dst i chunk) ≡ take i dst ++ take n chunk
take-write dst i n chunk h k =
    let before = take i dst in
    let after = chunk ++ drop (i + length chunk) dst in
    let e : length before ≡ i = omega (arith, length-take i dst) in
    let t : take i (before ++ after) ≡ before =
      ap (λ (j : ℕ). take j (before ++ after)) (sym e) ∙ take-append before after in
    let d : drop i (before ++ after) ≡ after =
      ap (λ (j : ℕ). drop j (before ++ after)) (sym e) ∙ drop-append before after in
    take-add i n (before ++ after)
    ∙ ap (λ (x : Bytes). x ++ take n (drop i (before ++ after))) t
    ∙ ap (λ (x : Bytes). before ++ take n x) d
    ∙ ap (λ (x : Bytes). before ++ x) (take-append_le n chunk (drop (i + length chunk) dst) k)

-- Lists that read the same are equal.
pub get_or-ext :
    (xs ys : Bytes)
    → length xs ≡ length ys
    → ((i : ℕ) → i < length xs → get_or xs i 0 ≡ get_or ys i 0)
    → xs ≡ ys
get_or-ext [] [] h f = refl
get_or-ext [] (y ∷ ys) h f = absurd (omega arith)
get_or-ext (x ∷ xs) [] h f = absurd (omega arith)
get_or-ext (x ∷ xs) (y ∷ ys) h f =
    let head : x ≡ y = f 0 (omega arith) in
    let rest : xs ≡ ys = get_or-ext xs ys (omega arith) (λ i l. f (suc i) (omega arith)) in cc

pub get_or-append :
    (xs ys : Bytes) (i : ℕ)
    → get_or (xs ++ ys) i 0
      ≡ (if ltb i (length xs) then get_or xs i 0 else get_or ys (i - length xs) 0)
get_or-append [] ys i =
    let e : i ≡ i - 0 = omega arith in ground (arith, ap (λ (j : ℕ). get_or ys j 0) e)
get_or-append (x ∷ xs) ys zero = ground arith
get_or-append (x ∷ xs) ys (suc i) =
    let e : suc i - suc (length xs) ≡ i - length xs = omega arith in
    get_or-append xs ys i ∙ ground (arith, ap (λ (j : ℕ). get_or ys j 0) e)

pub get_or-take : (n : ℕ) (xs : Bytes) (i : ℕ) → i < n → get_or (take n xs) i 0 ≡ get_or xs i 0
get_or-take zero xs i h = elim h [ ]
get_or-take (suc n) [] i h = refl
get_or-take (suc n) (x ∷ xs) zero h = refl
get_or-take (suc n) (x ∷ xs) (suc i) h = get_or-take n xs i (omega arith)

-- Byte `j` of a buffer after a write.
pub get_or-write :
    (dst : Bytes) (i : ℕ) (chunk : Bytes) (j : ℕ)
    → i + length chunk ≤ length dst
    → get_or (write dst i chunk) j 0 ≡ (
        if ltb j i
        then get_or dst j 0
        else if ltb j (i + length chunk)
        then get_or chunk (j - i) 0
        else get_or dst j 0)
get_or-write dst i chunk j h =
    let e : length (take i dst) ≡ i = omega (arith, length-take i dst) in
    let rest = chunk ++ drop (i + length chunk) dst in
    let outer = get_or-append (take i dst) rest j in
    let inner = get_or-append chunk (drop (i + length chunk) dst) (j - length (take i dst)) in
    let at = get_or-drop dst (i + length chunk) (j - length (take i dst) - length chunk) 0 in
    elim (dec_lt j i) [
      | yes k ↦ ground (arith, outer, e, get_or-take i dst j k)
      | no k ↦
          let same : j - length (take i dst) ≡ j - i = ap (λ (n : ℕ). j - n) e in
          elim (dec_lt j (i + length chunk)) [
            | yes l ↦ ground (arith, outer, inner, e, ap (λ (n : ℕ). get_or chunk n 0) same)
            | no l ↦
                let back : i + length chunk + (j - length (take i dst) - length chunk) ≡ j =
                  omega (arith, e) in
                ground (arith, outer, inner, e, at, ap (λ (n : ℕ). get_or dst n 0) back)
          ]
    ]

pub get_or-replicate : (n i : ℕ) → get_or {A = ℕ} (replicate n 0) i 0 ≡ 0
get_or-replicate zero i = refl
get_or-replicate (suc n) zero = refl
get_or-replicate (suc n) (suc i) = get_or-replicate n i
