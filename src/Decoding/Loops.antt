-- ===== src/Decoding/Loops.antt =====
-- decoding/mod.rs: what the copy loop and the tail loop leave in the buffer.
use onpair.Common.{
  ℕ, ◌+◌, ◌*◌, ◌≤◌, ◌<◌, ◌≡◌, ◌∙◌, some, List, [], ◌∷◌, ◌++◌, arith, refl, ap, sym, subst, dec_lt,
  Bytes, length, take, length-append, take-write, take-append, length-write, write, store_lem,
  load_lem, le→leb, lt→leb, lt→ltb, le→ltb, take-length,
}
use mathlib.Core.List.{append_assoc, append-nil}
use onpair.Core.Types.{Token, max_token_size}
use onpair.Core.Validate.InvalidColumn.{code_out_of_range}
use onpair.Dictionary.View.{DictionaryView, Tokens, tok, Represents}
use onpair.Search.Tokenize.Greedy.{decode}
use onpair.Decoding.{Run, done, output_too_small, panic, fault, copy_loop, tail_loop}
use onpair.Decoding.Copy.{copy16, copy_token_bytes}
use onpair.Decoding.Exact.{copy_token_bytes-copied}

-- Every code indexes the dictionary.
abbrev pub InRange : Tokens → List Token → Type 0
InRange toks [] = Unit
InRange toks (c ∷ codes) = (c < length toks) × InRange toks codes

-- How decoding `codes` after the bytes `acc` may end, in a buffer of length `cap`.
abbrev pub Decodes : Tokens → ℕ → Bytes → List Token → Run (Bytes × ℕ) → Type 0
Decodes toks cap acc codes (done (out, w)) =
    InRange toks codes
    × (length out ≡ cap)
    × (w ≡ length (acc ++ decode toks codes))
    × (take w out ≡ acc ++ decode toks codes)
Decodes toks cap acc codes output_too_small = cap < length (acc ++ decode toks codes)
Decodes toks cap acc codes (panic e) = (e ≡ code_out_of_range) × ¬ InRange toks codes
Decodes toks cap acc codes fault = ⊥

-- The cursor stands behind the bytes `acc`.
pub record Holds (cap : ℕ) (acc out : Bytes) (w : ℕ) : Type 0 where
  pub size : length out ≡ cap
  pub cursor : w ≡ length acc
  pub within : w ≤ cap
  pub front : take w out ≡ acc

-- Putting one more code in front.
cons-Decodes :
    (toks : Tokens) (cap : ℕ) (acc : Bytes) (c : Token) (codes : List Token) (r : Run (Bytes × ℕ))
    → c < length toks
    → Decodes toks cap (acc ++ tok toks c) codes r
    → Decodes toks cap acc (c ∷ codes) r
cons-Decodes toks cap acc c codes (done (out, w)) l (i, s, p, t) =
    let e = append_assoc acc (tok toks c) (decode toks codes) in ((l, i), s, p ∙ ap length e, t ∙ e)
cons-Decodes toks cap acc c codes output_too_small l h =
    let e = append_assoc acc (tok toks c) (decode toks codes) in subst (λ x. cap < length x) e h
cons-Decodes toks cap acc c codes (panic e) l (q, n) = (q, λ i. n i.1)
cons-Decodes toks cap acc c codes fault l h = h

nil-Decodes :
    (toks : Tokens) (cap : ℕ) (acc out : Bytes) (w : ℕ)
    → Holds cap acc out w
    → Decodes toks cap acc [] (done (out, w))
nil-Decodes toks cap acc out w h =
    (tt, h.size, h.cursor ∙ ap length (sym (append-nil acc)), h.front ∙ sym (append-nil acc))

bad-Decodes :
    (toks : Tokens) (cap : ℕ) (acc : Bytes) (c : Token) (codes : List Token)
    → length toks ≤ c
    → Decodes toks cap acc (c ∷ codes) (panic code_out_of_range)
bad-Decodes toks cap acc c codes h = (refl, λ i. absurd (omega (arith, i.0)))

-- A write of `n` bytes of a chunk that starts with `bytes` moves the cursor behind them.
pub write-Holds :
    (cap : ℕ) (acc out : Bytes) (w : ℕ) (chunk bytes : Bytes) (n : ℕ)
    → Holds cap acc out w
    → n ≤ length chunk
    → w + length chunk ≤ cap
    → take n chunk ≡ bytes
    → n ≡ length bytes
    → Holds cap (acc ++ bytes) (write out w chunk) (w + n)
write-Holds cap acc out w chunk bytes n h l room e q = record {
  size = length-write out w chunk (omega (arith, h.size)) ∙ h.size;
  cursor = omega (arith, length-append acc bytes, h.cursor);
  within = omega arith;
  front =
      take-write out w n chunk (omega (arith, h.size, h.within)) l
      ∙ ap (λ (x : Bytes). x ++ take n chunk) h.front
      ∙ ap (λ (x : Bytes). acc ++ x) e;
}

module _ (v : DictionaryView) (c : Token) (codes : List Token) (out : Bytes) (w : ℕ) where
  copy_loop_bad : v.num_tokens ≤ c → copy_loop v (c ∷ codes) out w ≡ panic code_out_of_range
  unfolding copy_loop
  copy_loop_bad h = rw (le→leb v.num_tokens c h)

  pub copy_loop_step :
      (src : Bytes) (n : ℕ) (out' : Bytes)
      → c < v.num_tokens
      → v.token_ptr c ≡ some src
      → v.token_len_unchecked c ≡ some n
      → copy16 src out w ≡ some out'
      → copy_loop v (c ∷ codes) out w ≡ copy_loop v codes out' (w + n)
  unfolding copy_loop
  copy_loop_step src n out' h e l s = rw (lt→leb v.num_tokens c h, e, l, s)

  tail_loop_bad : v.num_tokens ≤ c → tail_loop v (c ∷ codes) out w ≡ panic code_out_of_range
  unfolding tail_loop
  tail_loop_bad h = rw (le→leb v.num_tokens c h)

  tail_loop_small :
      (n : ℕ)
      → c < v.num_tokens
      → v.token_len_unchecked c ≡ some n
      → length out < w + n
      → tail_loop v (c ∷ codes) out w ≡ output_too_small
  unfolding tail_loop
  tail_loop_small n h l s =
      let b = lt→leb v.num_tokens c h in let t = lt→ltb (length out) (w + n) s in ground arith

  tail_loop_step :
      (src : Bytes) (n : ℕ) (out' : Bytes)
      → c < v.num_tokens
      → v.token_ptr c ≡ some src
      → v.token_len_unchecked c ≡ some n
      → w + n ≤ length out
      → copy_token_bytes src out w n ≡ some out'
      → tail_loop v (c ∷ codes) out w ≡ tail_loop v codes out' (w + n)
  unfolding tail_loop
  tail_loop_step src n out' h e l s t =
      let b = lt→leb v.num_tokens c h in let t' = le→ltb (length out) (w + n) s in ground arith

module _ (v : DictionaryView) (toks : Tokens) (rep : Represents v toks) where
  pub in_view : (c : Token) → c < length toks → c < v.num_tokens
  in_view c h = omega (arith, rep.counted)

  pub copy16-write :
      (src out : Bytes) (w : ℕ)
      → length src ≡ 16
      → w + 16 ≤ length out
      → copy16 src out w ≡ some (write out w src)
  unfolding copy16
  copy16-write src out w e h =
      let t : take 16 src ≡ src = ap (λ (n : ℕ). take n src) (sym e) ∙ take-length src in
      rw (load_lem src 0 16 (omega arith), t) (store_lem out w src (omega arith))

  -- With room for `max_token_size` bytes per code, the copy loop decodes, or panics on a code that
  -- is out of range.
  pub copy_loop-Decodes :
      (cap : ℕ) (codes : List Token) (acc out : Bytes) (w : ℕ)
      → Holds cap acc out w
      → w + max_token_size * length codes ≤ cap
      → Decodes toks cap acc codes (copy_loop v codes out w)
  unfolding copy_loop
  copy_loop-Decodes cap [] acc out w h room = nil-Decodes toks cap acc out w h
  copy_loop-Decodes cap (c ∷ codes) acc out w h room = elim (dec_lt c (length toks)) [
    | no bad ↦
        subst (Decodes toks cap acc (c ∷ codes))
          (sym (copy_loop_bad v c codes out w (omega (arith, rep.counted))))
          (bad-Decodes toks cap acc c codes (omega arith))
    | yes l ↦
        let (rest, e, full) = rep.token_ptr_lem c l in
        let src : Bytes = tok toks c ++ rest in
        let n : ℕ = length (tok toks c) in
        let step =
          copy_loop_step v c codes out w src n (write out w src) (in_view c l) e
            (rep.token_len_unchecked_lem c l)
            (copy16-write src out w full (omega (arith, h.size))) in
        let h' : Holds cap (acc ++ tok toks c) (write out w src) (w + n) =
          write-Holds cap acc out w src (tok toks c) n h (omega (arith, rep.bounded c l))
            (omega arith) (take-append (tok toks c) rest) refl in
        subst (Decodes toks cap acc (c ∷ codes)) (sym step) (
          cons-Decodes toks cap acc c codes _ l (
            copy_loop-Decodes cap codes (acc ++ tok toks c) (write out w src) (w + n) h'
              (omega (arith, rep.bounded c l))))
  ]

  -- The tail loop decodes what fits, and otherwise reports the lack of room or a bad code.
  pub tail_loop-Decodes :
      (cap : ℕ) (codes : List Token) (acc out : Bytes) (w : ℕ)
      → Holds cap acc out w
      → Decodes toks cap acc codes (tail_loop v codes out w)
  unfolding tail_loop
  tail_loop-Decodes cap [] acc out w h = nil-Decodes toks cap acc out w h
  tail_loop-Decodes cap (c ∷ codes) acc out w h = elim (dec_lt c (length toks)) [
    | no bad ↦
        subst (Decodes toks cap acc (c ∷ codes))
          (sym (tail_loop_bad v c codes out w (omega (arith, rep.counted))))
          (bad-Decodes toks cap acc c codes (omega arith))
    | yes l ↦
        let n : ℕ = length (tok toks c) in
        let len = rep.token_len_unchecked_lem c l in
        elim (dec_lt cap (w + n)) [
          | yes small ↦
              subst (Decodes toks cap acc (c ∷ codes))
                (sym (tail_loop_small v c codes out w n (in_view c l) len (omega (arith, h.size))))
                (omega (
                  arith,
                  h.cursor,
                  length-append acc (tok toks c ++ decode toks codes),
                  length-append (tok toks c) (decode toks codes),
                ))
          | no fits ↦
              let (rest, e, full) = rep.token_ptr_lem c l in
              let src : Bytes = tok toks c ++ rest in
              let piece : take n src ≡ tok toks c = take-append (tok toks c) rest in
              let out' : Bytes = write out w (take n src) in
              let copy =
                copy_token_bytes-copied src out w n (omega (arith, rep.bounded c l))
                  (omega (arith, h.size)) in
              let step =
                tail_loop_step v c codes out w src n out' (in_view c l) e len
                  (omega (arith, h.size)) copy in
              let h' : Holds cap (acc ++ tok toks c) out' (w + n) =
                write-Holds cap acc out w (take n src) (tok toks c) n h
                  (omega (arith, ap length piece)) (omega (arith, ap length piece))
                  (ap (take n) piece ∙ take-length (tok toks c)) refl in
              subst (Decodes toks cap acc (c ∷ codes)) (sym step) (
                cons-Decodes toks cap acc c codes _ l
                  (tail_loop-Decodes cap codes (acc ++ tok toks c) out' (w + n) h'))
        ]
  ]
