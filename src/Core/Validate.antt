-- ===== src/Core/Validate.antt =====
-- core/validate.rs: the violations that validation reports, and its results.
pub data InvalidColumn : Type 0 where
  empty_dictionary first_offset_not_zero decreasing_offsets token_too_large : InvalidColumn
  missing_padding code_out_of_range bad_row_offsets empty_token : InvalidColumn
  unsorted_tokens incomplete_alphabet : InvalidColumn

-- `Result<A, InvalidColumn>`.
pub data Checked {ℓ} (A : Type ℓ) : Type ℓ where
  ok : A → Checked A
  err : InvalidColumn → Checked A

infixl 5 ◌>>=◌
abbrev pub ◌>>=◌ {ℓ κ} : {A : Type ℓ} {B : Type κ} → Checked A → (A → Checked B) → Checked B
ok a >>= f = f a
err e >>= f = err e
