-- ===== src/Decoding/Fits.antt =====
-- decoding/mod.rs, `decompress_into`: batches of over-copies, then exact copies, decode the codes
-- exactly if the decoded bytes fit.
use onpair.Common.{
  ℕ, zero, suc, ◌-◌, ◌*◌, ◌/◌, ◌≤◌, ◌<◌, ◌≡◌, ◌∙◌, true, false, List, [], ◌∷◌, ◌++◌, arith, refl,
  ap, sym, subst, Bytes, length, take, drop, length-append, length-take, length-drop,
  take-append-drop, leb, ◌==◌, Bool-cases, inl, inr, ◌⊎◌,
}
use mathlib.Core.List.{append_assoc}
use onpair.Core.Types.{Token, max_token_size, usize_mod}
use onpair.Dictionary.View.{DictionaryView, Tokens, tok, Represents}
use onpair.Search.Tokenize.Greedy.{decode}
use onpair.Decoding
use onpair.Decoding.{
  Run, done, output_too_small, panic, fault, copy_loop, batch_loop, tail_loop, decompress_into,
  decompress_into_unchecked, sub64,
}
use onpair.Decoding.Loops.{InRange, Decodes, Holds, copy_loop-Decodes, tail_loop-Decodes}

pub decode-append :
    (toks : Tokens) (xs ys : List Token) → decode toks (xs ++ ys) ≡ decode toks xs ++ decode toks ys
decode-append toks [] ys = refl
decode-append toks (x ∷ xs) ys =
    ap (λ (s : Bytes). tok toks x ++ s) (decode-append toks xs ys)
    ∙ sym (append_assoc (tok toks x) (decode toks xs) (decode toks ys))

InRange-append :
    (toks : Tokens) (xs ys : List Token)
    → InRange toks xs
    → InRange toks ys
    → InRange toks (xs ++ ys)
InRange-append toks [] ys h k = k
InRange-append toks (x ∷ xs) ys h k = (h.0, InRange-append toks xs ys h.1 k)

InRange-left : (toks : Tokens) (xs ys : List Token) → InRange toks (xs ++ ys) → InRange toks xs
InRange-left toks [] ys h = tt
InRange-left toks (x ∷ xs) ys h = (h.0, InRange-left toks xs ys h.1)

InRange-right : (toks : Tokens) (xs ys : List Token) → InRange toks (xs ++ ys) → InRange toks ys
InRange-right toks [] ys h = h
InRange-right toks (x ∷ xs) ys h = InRange-right toks xs ys h.1

module _ (toks : Tokens) (cap : ℕ) (acc : Bytes) (xs ys : List Token) where
  regroup : (acc ++ decode toks xs) ++ decode toks ys ≡ acc ++ decode toks (xs ++ ys)
  regroup =
      append_assoc acc (decode toks xs) (decode toks ys)
      ∙ ap (λ (s : Bytes). acc ++ s) (sym (decode-append toks xs ys))

  -- Decoding goes on behind what has been decoded.
  append-Decodes :
      (r : Run (Bytes × ℕ))
      → InRange toks xs
      → Decodes toks cap (acc ++ decode toks xs) ys r
      → Decodes toks cap acc (xs ++ ys) r
  append-Decodes (done (out, w)) l (i, s, p, t) =
      (InRange-append toks xs ys l i, s, p ∙ ap length regroup, t ∙ regroup)
  append-Decodes output_too_small l h = subst (λ x. cap < length x) regroup h
  append-Decodes (panic e) l (q, n) = (q, λ i. n (InRange-right toks xs ys i))
  append-Decodes fault l h = h

  -- What ends the first part ends the whole; only a finished part goes on.
  chain-Decodes :
      (r : Run (Bytes × ℕ)) (k : Bytes × ℕ → Run (Bytes × ℕ))
      → Decodes toks cap acc xs r
      → ((out : Bytes) (w : ℕ)
          → Holds cap (acc ++ decode toks xs) out w
          → Decodes toks cap (acc ++ decode toks xs) ys (k (out, w)))
      → Decodes toks cap acc (xs ++ ys) (Decoding.◌>>=◌ r k)
  chain-Decodes (done (out, w)) k (i, s, p, t) f = append-Decodes (k (out, w)) i (
      f out w (record {
        size = s;
        cursor = p;
        within = omega (arith, length-take w out, ap length t);
        front = t;
      }))
  chain-Decodes output_too_small k h f =
      omega (arith, ap length regroup, length-append (acc ++ decode toks xs) (decode toks ys))
  chain-Decodes (panic e) k (q, n) f = (q, λ i. n (InRange-left toks xs ys i))
  chain-Decodes fault k h f = h

module _ (v : DictionaryView) (toks : Tokens) (rep : Represents v toks) where
  abbrev tail : List Token × Bytes × ℕ → Run (Bytes × ℕ)
  tail s = tail_loop v s.0 s.1 s.2

  abbrev batch_of : Bytes → ℕ → ℕ
  batch_of out w = sub64 (length out) w / max_token_size

  bind_assoc :
      (r : Run (Bytes × ℕ)) (k : Bytes × ℕ → Run (List Token × Bytes × ℕ))
      → Decoding.◌>>=◌ (Decoding.◌>>=◌ r k) tail ≡ Decoding.◌>>=◌ r (λ s. Decoding.◌>>=◌ (k s) tail)
  bind_assoc (done a) k = refl
  bind_assoc output_too_small k = refl
  bind_assoc (panic e) k = refl
  bind_assoc fault k = refl

  batch_loop_stop :
      (fuel : ℕ) (c : Token) (codes : List Token) (out : Bytes) (w : ℕ)
      → (batch_of out w == 0) ≡ true
      → batch_loop v (suc fuel) (c ∷ codes) out w ≡ done (c ∷ codes, out, w)
  unfolding batch_loop
  batch_loop_stop fuel c codes out w h = ground arith

  batch_loop_step :
      (fuel : ℕ) (c : Token) (codes : List Token) (out : Bytes) (w : ℕ)
      → (batch_of out w == 0) ≡ false
      → batch_loop v (suc fuel) (c ∷ codes) out w
        ≡ Decoding.◌>>=◌
            (copy_loop v (take (batch_of out w) (c ∷ codes)) out w)
            (λ s. batch_loop v fuel (drop (batch_of out w) (c ∷ codes)) s.0 s.1)
  unfolding batch_loop
  batch_loop_step fuel c codes out w h = ground arith

  batch_loop-Decodes :
      (cap : ℕ)
      → cap < usize_mod
      → (fuel : ℕ) (codes : List Token) (acc out : Bytes) (w : ℕ) → length codes < fuel
      → Holds cap acc out w
      → Decodes toks cap acc codes (Decoding.◌>>=◌ (batch_loop v fuel codes out w) tail)
  unfolding batch_loop
  batch_loop-Decodes cap small zero codes acc out w f h = absurd (omega arith)
  batch_loop-Decodes cap small (suc fuel) [] acc out w f h =
      tail_loop-Decodes v toks rep cap [] acc out w h
  batch_loop-Decodes cap small (suc fuel) (c ∷ codes) acc out w f h =
      let b : ℕ = batch_of out w in
      let cs : List Token = c ∷ codes in
      elim (Bool-cases (b == 0)) [
        | inl stop ↦
            subst (λ r. Decodes toks cap acc cs (Decoding.◌>>=◌ r tail))
              (sym (batch_loop_stop fuel c codes out w stop))
              (tail_loop-Decodes v toks rep cap cs acc out w h)
        | inr go ↦
            let positive : 0 < b = ground arith in
            let width : sub64 (length out) w ≡ cap - w = omega (arith, h.size, h.within) in
            let bounded : b * max_token_size ≤ cap - w = omega (arith, width) in
            let step =
              ap (λ (r : Run (List Token × Bytes × ℕ)). Decoding.◌>>=◌ r tail)
                (batch_loop_step fuel c codes out w go)
              ∙ bind_assoc (copy_loop v (take b cs) out w)
                  (λ s. batch_loop v fuel (drop b cs) s.0 s.1) in
            subst (λ r. Decodes toks cap acc cs r) (sym step)
              (subst
                (λ (x : List Token). Decodes toks cap acc x (
                  Decoding.◌>>=◌ (copy_loop v (take b cs) out w)
                    (λ s. Decoding.◌>>=◌ (batch_loop v fuel (drop b cs) s.0 s.1) tail)))
                (take-append-drop b cs)
                (chain-Decodes toks cap acc (take b cs) (drop b cs) (copy_loop v (take b cs) out w)
                  (λ s. Decoding.◌>>=◌ (batch_loop v fuel (drop b cs) s.0 s.1) tail)
                  (copy_loop-Decodes v toks rep cap (take b cs) acc out w h
                    (omega (arith, length-take b cs, h.within)))
                  (λ o w' h'.
                    batch_loop-Decodes cap small fuel (drop b cs) (acc ++ decode toks (take b cs)) o
                      w' (omega (arith, length-drop b cs)) h')))
      ]

  fresh-Holds : (out : Bytes) → Holds (length out) [] out 0
  fresh-Holds out = record { size = refl; cursor = refl; within = omega arith; front = refl }

  -- For a dictionary view that represents a token table, and with 16 bytes of room per code, the
  -- unchecked decoder stays in bounds: it decodes the codes, or panics because a code is out of
  -- range.
  pub decompress_into_unchecked-Decodes :
      (codes : List Token) (out : Bytes)
      → max_token_size * length codes ≤ length out
      → Decodes toks (length out) [] codes (decompress_into_unchecked v codes out)
  unfolding decompress_into_unchecked
  decompress_into_unchecked-Decodes codes out h =
      copy_loop-Decodes v toks rep (length out) codes [] out 0 (fresh-Holds out) (omega arith)

  -- For a dictionary view that represents a token table, any codes and any buffer of fewer than
  -- 2^64 bytes, decompress_into never reads or writes out of bounds: it ends with the decoded
  -- bytes at the front of the buffer, with OutputTooSmall only if they do not fit, or with the
  -- CodeOutOfRange panic only if a code is out of range.
  pub decompress_into-Decodes :
      (codes : List Token) (out : Bytes)
      → length out < usize_mod
      → Decodes toks (length out) [] codes (decompress_into v codes out)
  unfolding decompress_into
  decompress_into-Decodes codes out small =
      elim (Bool-cases (leb (length codes) (length out / max_token_size))) [
        | inl fast ↦ rw fast (decompress_into_unchecked-Decodes codes out (ground arith))
        | inr slow ↦ rw slow (
            batch_loop-Decodes (length out) small (suc (length codes)) codes [] out 0 (omega arith)
              (fresh-Holds out))
      ]

-- For a dictionary view that represents a token table, codes in range and a buffer of fewer than
-- 2^64 bytes, decompress_into either decodes all codes to the front of the buffer, when the
-- decoded bytes fit, or returns OutputTooSmall, when they do not.
pub decompress_into_total :
    (v : DictionaryView) (toks : Tokens) (codes : List Token) (out : Bytes)
    → Represents v toks
    → InRange toks codes
    → length out < usize_mod
    → ((length (decode toks codes) ≤ length out)
        × ((r : Bytes × ℕ) × (decompress_into v codes out ≡ done r)
            × (take r.1 r.0 ≡ decode toks codes)))
      ⊎ ((length out < length (decode toks codes))
          × (decompress_into v codes out ≡ output_too_small))
decompress_into_total v toks codes out rep range small =
    by_result (decompress_into v codes out) refl
      (decompress_into-Decodes v toks rep codes out small)
  where
    by_result :
        (r : Run (Bytes × ℕ))
        → decompress_into v codes out ≡ r
        → Decodes toks (length out) [] codes r
        → ((length (decode toks codes) ≤ length out)
            × ((r : Bytes × ℕ) × (decompress_into v codes out ≡ done r)
                × (take r.1 r.0 ≡ decode toks codes)))
          ⊎ ((length out < length (decode toks codes))
              × (decompress_into v codes out ≡ output_too_small))
    by_result (done (o, w)) e (i, s, p, t) =
        inl (omega (arith, length-take w o, ap length t), ((o, w), e, t))
    by_result output_too_small e h = inr (h, e)
    by_result (panic x) e h = absurd (h.1 range)
    by_result fault e h = absurd h
