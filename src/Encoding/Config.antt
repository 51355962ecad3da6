-- ===== src/Encoding/Config.antt =====
-- encoding/config.rs: the error of the encoding interface, and the dictionary budget.
use onpair.Common.{ℕ, leb, ◌&&◌, if◌then◌else◌}

pub data Error : Type 0 where
  invalid_arg : Error

-- `Result<A, Error>`.
pub data Fallible {ℓ} (A : Type ℓ) : Type ℓ where
  ok : A → Fallible A
  err : Error → Fallible A

-- `MaxDictBits`.
pub record MaxDictBits : Type 0 where
  pub value : ℕ

unfoldable pub new : ℕ → Fallible MaxDictBits
new value = if leb 9 value && leb value 16 then ok (record { value = value }) else err invalid_arg
