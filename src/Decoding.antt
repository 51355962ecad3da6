-- ===== src/Decoding.antt =====
-- decoding/: the decoders write token bytes into an output buffer.
pub mod Copy
pub mod Exact
pub mod Loops
pub mod Fits
pub mod Padded
use onpair.Common.{
  ℕ, zero, suc, ◌+◌, ◌-◌, ◌/◌, ◌%◌, Bool, true, false, Option, some, none, List, [], ◌∷◌, Bytes,
  ltb, leb, ◌==◌, if◌then◌else◌, length, take, drop, store, min,
}
use onpair.Core.Types.{Token, usize_mod, max_token_size}
use onpair.Core.Validate.{InvalidColumn}
use onpair.Core.Validate.InvalidColumn.{code_out_of_range}
use onpair.Dictionary.View.{DictionaryView}
use onpair.Decoding.Copy.{copy16, copy_token_bytes}

abbrev pub decompress_padding : ℕ
decompress_padding = max_token_size

-- How a decoder ends: with the buffer and the cursor, with `OutputTooSmall`, with a panic, or with
-- an access out of bounds.
pub data Run {ℓ} (A : Type ℓ) : Type ℓ where
  done : A → Run A
  output_too_small : Run A
  panic : InvalidColumn → Run A
  fault : Run A

infixl 5 ◌>>=◌
abbrev pub ◌>>=◌ {ℓ κ} : {A : Type ℓ} {B : Type κ} → Run A → (A → Run B) → Run B
done a >>= f = f a
output_too_small >>= f = output_too_small
panic e >>= f = panic e
fault >>= f = fault

-- A buffer access: `none` is out of bounds.
abbrev pub access {ℓ} : {A : Type ℓ} → Option A → Run A
access none = fault
access (some a) = done a

-- `if code as usize >= ntok { panic_malformed(CodeOutOfRange) }`.
abbrev pub check_code : ℕ → Token → Run (Unit {0})
check_code ntok code = if leb ntok code then panic code_out_of_range else done tt

-- `cap - w` in `usize`.
abbrev pub sub64 : ℕ → ℕ → ℕ
sub64 a b = (a + usize_mod - b) % usize_mod

module _ (dict : DictionaryView) where
  -- The loop of fixed 16-byte copies: it takes the codes, the buffer and the cursor.
  unfoldable pub copy_loop : List Token → Bytes → ℕ → Run (Bytes × ℕ)
  copy_loop [] out w = done (out, w)
  copy_loop (code ∷ codes) out w = check_code dict.num_tokens code >>= λ _.
      access (dict.token_ptr code) >>= λ src. access (dict.token_len_unchecked code) >>= λ len.
      access (copy16 src out w) >>= λ out'. copy_loop codes out' (w + len)

  unfoldable pub decompress_into_unchecked : List Token → Bytes → Run (Bytes × ℕ)
  decompress_into_unchecked codes out = copy_loop codes out 0

  -- The fast path: batches of copies that stay in bounds. It returns the codes that are left. The
  -- fuel counts the rounds.
  unfoldable pub batch_loop : ℕ → List Token → Bytes → ℕ → Run (List Token × Bytes × ℕ)
  batch_loop zero codes out w = fault
  batch_loop (suc fuel) [] out w = done ([], out, w)
  batch_loop (suc fuel) (c ∷ codes) out w =
      let batch = sub64 (length out) w / max_token_size in
      elim (batch == 0) [
        | true ↦ done (c ∷ codes, out, w)
        | false ↦ copy_loop (take batch (c ∷ codes)) out w >>= λ s.
            batch_loop fuel (drop batch (c ∷ codes)) s.0 s.1
      ]

  -- The tail: exact copies, failing the moment a token would not fit.
  unfoldable pub tail_loop : List Token → Bytes → ℕ → Run (Bytes × ℕ)
  tail_loop [] out w = done (out, w)
  tail_loop (code ∷ codes) out w = check_code dict.num_tokens code >>= λ _.
      access (dict.token_len_unchecked code) >>= λ len. elim (ltb (length out) (w + len)) [
        | true ↦ output_too_small
        | false ↦ access (dict.token_ptr code) >>= λ src.
            access (copy_token_bytes src out w len) >>= λ out'. tail_loop codes out' (w + len)
      ]

  unfoldable pub decompress_into : List Token → Bytes → Run (Bytes × ℕ)
  decompress_into codes out =
      if leb (length codes) (length out / max_token_size)
      then decompress_into_unchecked codes out
      else (batch_loop (suc (length codes)) codes out 0 >>= λ s. tail_loop s.0 s.1 s.2)
