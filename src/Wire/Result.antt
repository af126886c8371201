-- ===== src/Wire/Result.antt =====
-- `Error` of src/wire.zig, and the results of functions that may return it.
-- `pub const Error = error{...}`.
pub data Error : Type 0 where
  truncated_input malformed_varint invalid_field_number invalid_wire_type : Error
  unsupported_wire_type recursion_limit_exceeded overflow : Error

-- `Error!A`. `out_of_fuel` is no value of the source: the fuel of a model's loop ran out.
pub data Result {ℓ} (A : Type ℓ) : Type ℓ where
  ok : A → Result A
  err : Error → Result A
  out_of_fuel : Result A

-- `try`.
infixl 5 ◌>>=◌ ◌>>◌
abbrev pub ◌>>=◌ {ℓ κ} : {A : Type ℓ} {B : Type κ} → Result A → (A → Result B) → Result B
ok a >>= f = f a
err e >>= f = err e
out_of_fuel >>= f = out_of_fuel

abbrev pub ◌>>◌ {ℓ} : {B : Type ℓ} → Result (Unit {0}) → Result B → Result B
m >> k = m >>= λ _. k

abbrev pub map_ok {ℓ κ} : {A : Type ℓ} {B : Type κ} → (A → B) → Result A → Result B
map_ok f (ok a) = ok (f a)
map_ok f (err e) = err e
map_ok f out_of_fuel = out_of_fuel
