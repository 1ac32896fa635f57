-- ===== src/Prelude/Exceptions.antt =====
-- The exceptions of Python as values. `out_of_fuel` is no exception: a loop used up its rounds.

pub data Exn : Type 0 where
  value_error index_error key_error attribute_error type_error : Exn
  runtime_error assertion_error not_implemented struct_error exception out_of_fuel : Exn

-- What a call returns, or the exception that it raises.
pub data Result {ℓ} (A : Type ℓ) : Type ℓ where
  err : Exn → Result A
  ok : A → Result A

infixl 5 ◌>>=◌
abbrev pub ◌>>=◌ {ℓ κ} : {B : Type κ} {A : Type ℓ} → Result A → (A → Result B) → Result B
err problem >>= next = err problem
ok value >>= next = next value
