-- ===== src/Decoding/Padded.antt =====
-- decoding/mod.rs, `decompress_into_unchecked`: with `DECOMPRESS_PADDING` bytes behind the decoded
-- ones, the over-copies stay inside the buffer.
use onpair.Common.{
  ℕ, ◌+◌, ◌≤◌, ◌≡◌, ◌∙◌, List, [], ◌∷◌, ◌++◌, arith, refl, sym, Bytes, length, take, length-append,
  take-append, write,
}
use mathlib.Core.List.{append_assoc, append-nil}
use onpair.Core.Types.{Token, max_token_size}
use onpair.Dictionary.View.{DictionaryView, Tokens, tok, Represents}
use onpair.Search.Tokenize.Greedy.{decode}
use onpair.Decoding.{done, copy_loop, decompress_into_unchecked, decompress_padding}
use onpair.Decoding.Loops.{InRange, Holds, write-Holds, copy_loop_step, copy16-write, in_view}

module _ (v : DictionaryView) (toks : Tokens) (rep : Represents v toks) where
  copy_loop-padded :
      (cap : ℕ) (codes : List Token) (acc out : Bytes) (w : ℕ)
      → Holds cap acc out w
      → InRange toks codes
      → w + length (decode toks codes) + max_token_size ≤ cap
      → (r : Bytes × ℕ) × (copy_loop v codes out w ≡ done r)
        × (length r.0 ≡ cap)
        × (take r.1 r.0 ≡ acc ++ decode toks codes)
  unfolding copy_loop
  copy_loop-padded cap [] acc out w h i room =
      ((out, w), refl, h.size, h.front ∙ sym (append-nil acc))
  copy_loop-padded cap (c ∷ codes) acc out w h (l, i) room =
      let (rest, e, full) = rep.token_ptr_lem c l in
      let src : Bytes = tok toks c ++ rest in
      let n : ℕ = length (tok toks c) in
      let split = length-append (tok toks c) (decode toks codes) in
      let step =
        copy_loop_step v c codes out w src n (write out w src) (in_view v toks rep c l) e
          (rep.token_len_unchecked_lem c l)
          (copy16-write v toks rep src out w full (omega (arith, h.size))) in
      let h' : Holds cap (acc ++ tok toks c) (write out w src) (w + n) =
        write-Holds cap acc out w src (tok toks c) n h (omega (arith, rep.bounded c l))
          (omega arith) (take-append (tok toks c) rest) refl in
      let (r, q, size, front) =
        copy_loop-padded cap codes (acc ++ tok toks c) (write out w src) (w + n) h' i
          (omega arith) in
      (r, step ∙ q, size, front ∙ append_assoc acc (tok toks c) (decode toks codes))

  -- For a dictionary view that represents a token table, codes in range and a buffer of the
  -- decoded length and DECOMPRESS_PADDING, the unchecked decoder stays in bounds, does not panic,
  -- and leaves the decoded bytes at the front.
  pub decompress_into_unchecked-padded :
      (codes : List Token) (out : Bytes)
      → InRange toks codes
      → length (decode toks codes) + decompress_padding ≤ length out
      → (r : Bytes × ℕ) × (decompress_into_unchecked v codes out ≡ done r)
        × (length r.0 ≡ length out)
        × (take r.1 r.0 ≡ decode toks codes)
  unfolding decompress_into_unchecked
  decompress_into_unchecked-padded codes out i room =
      copy_loop-padded (length out) codes [] out 0
        (record { size = refl; cursor = refl; within = omega arith; front = refl }) i (omega arith)
