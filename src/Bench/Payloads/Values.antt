-- ===== src/Bench/Payloads/Values.antt =====
-- What the packed messages of bench/cpp_protobuf/main.cc hold.
use pbz.Common.{
  ℕ, zero, suc, ◌+◌, ◌<◌, ◌≡◌, refl, ap, ◌∙◌, List, [], ◌∷◌, ◌++◌, append_assoc, append-nil, some,
  length, get_elem?, arith,
}
use pbz.Bench.Payloads.{Repeated, packed_count, add_all}

-- `values` reads the field: a new message holds none, and `add_values` appends one.
pub record Appends {V : Type 0} (R : Repeated V) (values : R.Msg → List V) : Type 0 where
  pub new : values R.new ≡ []
  pub add_values : (v : V) (m : R.Msg) → values (R.add_values v m) ≡ values m ++ (v ∷ [])

-- `value i ∷ value (i + 1) ∷ ...`, `n` of them.
unfoldable pub from : {V : Type 0} → (ℕ → V) → ℕ → ℕ → List V
from value zero i = []
from value (suc n) i = value i ∷ from value n (i + 1)

from-length : {V : Type 0} (value : ℕ → V) (n i : ℕ) → length (from value n i) ≡ n
unfolding from
from-length value zero i = refl
from-length value (suc n) i = omega (arith, from-length value n (i + 1))

from-elem :
    {V : Type 0} (value : ℕ → V) (n i k : ℕ)
    → k < n
    → get_elem? (from value n i) k ≡ some (value (i + k))
unfolding from
from-elem value zero i k h = ground arith
from-elem value (suc n) i zero h = ap (λ j. some (value j)) (omega arith)
from-elem value (suc n) i (suc k) h =
    from-elem value n (i + 1) k (omega arith) ∙ ap (λ j. some (value j)) (omega arith)

module _ {V : Type 0} (R : Repeated V) (values : R.Msg → List V) (appends : Appends R values) where
  add_all-values :
      (value : ℕ → V) (n i : ℕ) (m : R.Msg)
      → values (add_all R value n i m) ≡ values m ++ from value n i
  unfolding add_all from
  add_all-values value zero i m = rw append-nil
  add_all-values value (suc n) i m =
      add_all-values value n (i + 1) (R.add_values (value i) m)
      ∙ rw (appends.add_values (value i) m)
          (append_assoc (values m) (value i ∷ []) (from value n (i + 1)))

  -- Every maker's loop, started on a new message, leaves exactly 1024 values, and the value at each place
  -- `i` below 1024 is the one that round `i` computes.
  pub add_all-elem :
      (value : ℕ → V) (i : ℕ)
      → i < packed_count
      → (length (values (add_all R value packed_count 0 R.new)) ≡ packed_count)
        × (get_elem? (values (add_all R value packed_count 0 R.new)) i ≡ some (value i))
  add_all-elem value i h =
      let made : values (add_all R value packed_count 0 R.new) ≡ from value packed_count 0 =
        add_all-values value packed_count 0 R.new
        ∙ ap (λ vs. vs ++ from value packed_count 0) appends.new in
      rw made (
        from-length value packed_count 0,
        from-elem value packed_count 0 i h ∙ ap (λ j. some (value j)) (omega arith),
      )
