-- ===== src/Decoding/Exact.antt =====
-- decoding/copy.rs: the overlapping copy is the plain copy of `len` bytes.
use onpair.Common.{
  ℕ, ◌+◌, ◌-◌, ◌≤◌, ◌≡◌, ◌∙◌, some, arith, refl, ap, sym, dec_lt, Bytes, length, take, drop,
  length-take, length-drop, get_or, get_or-take, get_or-drop, write, load_lem, store_lem,
  length-write, get_or-write, get_or-ext, ◌==◌, ◌++◌, take-append-drop, ◌⊎◌, inl, inr, ◌≢◌,
  Bool-cases,
}
use onpair.Decoding.Copy.{copy16, copy_ends, copy_nonoverlapping, copy_token_bytes}

module _ (src dst : Bytes) (w len : ℕ) (readable : len ≤ length src)
    (room : w + len ≤ length dst) where
  length-chunk : length (take len src) ≡ len
  length-chunk = omega (arith, length-take len src)

  -- The plain copy.
  abbrev pub copied : Bytes
  copied = write dst w (take len src)

  plain : copy_nonoverlapping src dst w len ≡ some copied
  unfolding copy_nonoverlapping
  plain =
      rw (load_lem src 0 len (omega arith))
        (store_lem dst w (take len src) (omega (arith, length-chunk)))

  module _ (k : ℕ) (short : k ≤ len) (covers : len ≤ k + k) where
    abbrev head : Bytes
    head = take k src

    abbrev last : Bytes
    last = take k (drop (len - k) src)

    length-head : length head ≡ k
    length-head = omega (arith, length-take k src)

    length-last : length last ≡ k
    length-last = omega (arith, length-take k (drop (len - k) src), length-drop (len - k) src)

    abbrev once : Bytes
    once = write dst w head

    length-once : length once ≡ length dst
    length-once = length-write dst w head (omega (arith, length-head))

    twice_same : (j : ℕ) → get_or (write once (w + (len - k)) last) j 0 ≡ get_or copied j 0
    twice_same j =
        let r₁ =
          get_or-write once (w + (len - k)) last j (omega (arith, length-once, length-last)) in
        let r₂ = get_or-write dst w head j (omega (arith, length-head)) in
        let r₃ = get_or-write dst w (take len src) j (omega (arith, length-chunk)) in
        elim (dec_lt j w) [
          | yes before ↦ ground (arith, r₁, r₂, r₃, length-head, length-last, length-chunk)
          | no _ ↦ elim (dec_lt j (w + len)) [
            | no after ↦ ground (arith, r₁, r₂, r₃, length-head, length-last, length-chunk)
            | yes inside ↦ elim (dec_lt j (w + (len - k))) [
              | yes first ↦ ground (
                arith,
                r₁,
                r₂,
                r₃,
                length-head,
                length-last,
                length-chunk,
                get_or-take k src (j - w),
                get_or-take len src (j - w),
              )
              | no second ↦
                  let q : len - k + (j - (w + (len - k))) ≡ j - w = omega arith in
                  ground (
                    arith,
                    r₁,
                    r₂,
                    r₃,
                    length-head,
                    length-last,
                    length-chunk,
                    get_or-take k (drop (len - k) src) (j - (w + (len - k))),
                    get_or-take len src (j - w),
                    get_or-drop src (len - k) (j - (w + (len - k))) 0,
                    ap (λ (n : ℕ). get_or src n 0) q,
                  )
            ]
          ]
        ]

    twice : write once (w + (len - k)) last ≡ copied
    twice =
        get_or-ext (write once (w + (len - k)) last) copied
          (omega (
            arith,
            length-write once (w + (len - k)) last (omega (arith, length-once, length-last)),
            length-once,
            length-write dst w (take len src) (omega (arith, length-chunk)),
          ))
          (λ j l. twice_same j)

    ends : copy_ends k src dst w len ≡ some copied
    unfolding copy_ends
    ends =
        rw
          (
            load_lem src 0 k (omega arith),
            store_lem dst w head (omega (arith, length-head)),
            load_lem src (len - k) k (omega arith),
            store_lem once (w + (len - k)) last (omega (arith, length-once, length-last)),
          )
          (ap some twice)

zero_copy : (src dst : Bytes) (w : ℕ) → w ≤ length dst → write dst w (take 0 src) ≡ dst
zero_copy src dst w h =
    let e : w + 0 ≡ w = omega arith in
    ap (λ (n : ℕ). take w dst ++ drop n dst) e ∙ take-append-drop w dst

copy16-plain : (src dst : Bytes) (w : ℕ) → copy16 src dst w ≡ copy_nonoverlapping src dst w 16
unfolding copy16 copy_nonoverlapping
copy16-plain src dst w = refl

module _ (src dst : Bytes) (w len : ℕ) where
  arm_zero : len ≡ 0 → copy_token_bytes src dst w len ≡ some dst
  unfolding copy_token_bytes
  arm_zero h = ground arith

  arm_two : 2 ≤ len → len ≤ 3 → copy_token_bytes src dst w len ≡ copy_ends 2 src dst w len
  unfolding copy_token_bytes
  arm_two h k = ground arith

  arm_four : 4 ≤ len → len ≤ 7 → copy_token_bytes src dst w len ≡ copy_ends 4 src dst w len
  unfolding copy_token_bytes
  arm_four h k = ground arith

  arm_eight : 8 ≤ len → len ≤ 15 → copy_token_bytes src dst w len ≡ copy_ends 8 src dst w len
  unfolding copy_token_bytes
  arm_eight h k = ground arith

  arm_plain :
      (len ≢ 0)
      → (len ≤ 1 ⊎ 16 ≤ len)
      → copy_token_bytes src dst w len ≡ copy_nonoverlapping src dst w len
  unfolding copy_token_bytes
  arm_plain n h = elim (Bool-cases (len == 1)) [
    | inl e ↦
        let q : len ≡ 1 = ground arith in
        ground (arith, ap (λ (x : ℕ). copy_nonoverlapping src dst w x) q)
    | inr e ↦ elim (Bool-cases (len == 16)) [
      | inl f ↦
          let q : len ≡ 16 = ground arith in
          ground (arith, ap (λ (x : ℕ). copy_nonoverlapping src dst w x) q, copy16-plain src dst w)
      | inr f ↦ ground arith
    ]
  ]

-- If the source and the room behind the cursor hold len bytes, copy_token_bytes stays in bounds,
-- and has the effect of one copy of len bytes.
pub copy_token_bytes-copied :
    (src dst : Bytes) (w len : ℕ)
    → len ≤ length src
    → w + len ≤ length dst
    → copy_token_bytes src dst w len ≡ some (write dst w (take len src))
copy_token_bytes-copied src dst w len readable room = elim (dec_lt 0 len) [
  | no z ↦
      let q : len ≡ 0 = omega arith in
      arm_zero src dst w len q
      ∙ ap some
          (sym (ap (λ (n : ℕ). write dst w (take n src)) q ∙ zero_copy src dst w (omega arith)))
  | yes p ↦ elim (dec_lt len 2) [
    | yes h ↦
        arm_plain src dst w len (omega arith) (inl (omega arith))
        ∙ plain src dst w len readable room
    | no h ↦ elim (dec_lt len 4) [
      | yes k ↦
          arm_two src dst w len (omega arith) (omega arith)
          ∙ ends src dst w len readable room 2 (omega arith) (omega arith)
      | no k ↦ elim (dec_lt len 8) [
        | yes i ↦
            arm_four src dst w len (omega arith) (omega arith)
            ∙ ends src dst w len readable room 4 (omega arith) (omega arith)
        | no i ↦ elim (dec_lt len 16) [
          | yes j ↦
              arm_eight src dst w len (omega arith) (omega arith)
              ∙ ends src dst w len readable room 8 (omega arith) (omega arith)
          | no j ↦
              arm_plain src dst w len (omega arith) (inr (omega arith))
              ∙ plain src dst w len readable room
        ]
      ]
    ]
  ]
]
