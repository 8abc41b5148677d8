-- ===== src/Outcome.antt =====
-- What a fallible call of the server ends in, and the errors of src/error.rs that the models meet.
use scouter_server_rust.Common.{ℕ, zero, suc, List, [], ◌∷◌}

-- `io::Error` by its kind, and the protocol errors of `ScouterError`.
pub data Error : Type 0 where
  unexpected_eof invalid_data invalid_input not_found : Error
  unknown_pack_type : ℕ → Error
  unknown_value_type : ℕ → Error

-- `panic` is a Rust panic; `out_of_fuel` is no outcome of the program: the model's recursion stopped.
pub data Outcome {ℓ} (A : Type ℓ) : Type ℓ where
  ok : A → Outcome A
  err : Error → Outcome A
  panic out_of_fuel : Outcome A

infixl 5 ◌>>=◌
abbrev pub ◌>>=◌ {ℓ κ} : {A : Type ℓ} {B : Type κ} → Outcome A → (A → Outcome B) → Outcome B
ok a >>= f = f a
err e >>= f = err e
panic >>= f = panic
out_of_fuel >>= f = out_of_fuel

-- `buf[i]`, which panics out of range.
abbrev pub index {ℓ} : {A : Type ℓ} → List A → ℕ → Outcome A
index [] i = panic
index (x ∷ xs) zero = ok x
index (x ∷ xs) (suc i) = index xs i
