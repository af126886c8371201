-- ===== src/Wire/Reader/Ending.antt =====
-- A result that is a success or an error, and what the calls of `Reader` pass on of it.
use pbz.Common.{
  ℕ, ◌^◌, ◌<◌, ◌≡◌, refl, Bool, true, false, List, ltb, ◌==◌, ◌||◌, ◌/◌, bit_and, if◌then◌else◌,
  arith,
}
use pbz.Wire.Result.{◌>>=◌ as result_bind, Result, ok, err, out_of_fuel, map_ok}
use pbz.Wire.Tag.{decode, from_int, max_field_number}
use pbz.Wire.Varint.{Cursor, read_varint_at}
use pbz.Wire.Varint.Bounds.{Takes, read_varint_at-Takes}
use pbz.Wire.Reader.{Reader, Run, after, read_varint}

abbrev pub Ends : {A : Type 0} → Result A → Type 0
Ends (ok a) = Unit {0}
Ends (err e) = Unit {0}
Ends out_of_fuel = ⊥

pub after-Ends :
    {A B : Type 0} (p : Result A × Reader) (f : A → Run B)
    → Ends p.0
    → ((a : A) → p.0 ≡ ok a → Ends (f a p.1).0)
    → Ends (after p f).0
after-Ends (ok a, s) f h k = k a refl
after-Ends (err e, s) f h k = tt
after-Ends (out_of_fuel, s) f h k = h

pub if-Ends :
    {A : Type 0} (b : Bool) (x y : Result A × Reader)
    → (b ≡ true → Ends x.0)
    → (b ≡ false → Ends y.0)
    → Ends (if b then x else y).0
if-Ends true x y kx ky = kx refl
if-Ends false x y kx ky = ky refl

pub cursor-Ends : (input : List ℕ) (i n : ℕ) (c : Cursor ℕ) → Takes input i n c → Ends c.0
cursor-Ends input i n (ok v, j) h = tt
cursor-Ends input i n (err e, j) h = tt
cursor-Ends input i n (out_of_fuel, j) h = h

pub cursor-later :
    (input : List ℕ) (i n : ℕ) (c : Cursor ℕ) {v : ℕ} → Takes input i n c → c.0 ≡ ok v → i < c.1
cursor-later input i n (ok v, j) (_, lo, _, _) e = lo
cursor-later input i n (err e, j) h eq = ground arith
cursor-later input i n (out_of_fuel, j) h eq = absurd h

pub read_varint-Ends : (r : Reader) → Ends (read_varint r).0
unfolding read_varint
read_varint-Ends r =
    cursor-Ends r.input r.index 10 (read_varint_at r.input r.index)
      (read_varint_at-Takes r.input r.index)

pub read_varint-later :
    (r : Reader) {v : ℕ} → (read_varint r).0 ≡ ok v → r.index < (read_varint r).1.index
unfolding read_varint
read_varint-later r e =
    cursor-later r.input r.index 10 (read_varint_at r.input r.index)
      (read_varint_at-Takes r.input r.index) e

pub map_ok-Ends : {A B : Type 0} (f : A → B) (p : Result A) → Ends p → Ends (map_ok f p)
map_ok-Ends f (ok a) h = tt
map_ok-Ends f (err e) h = tt
map_ok-Ends f out_of_fuel h = h

pub from_int-Ends : (i : ℕ) → Ends (from_int i)
unfolding from_int
from_int-Ends i = ground arith

pub bind-Ends :
    {A B : Type 0} (p : Result A) (f : A → Result B)
    → Ends p
    → ((a : A) → Ends (f a))
    → Ends (result_bind p f)
bind-Ends (ok a) f h k = k a
bind-Ends (err e) f h k = tt
bind-Ends out_of_fuel f h k = h

pub choice-Ends :
    {A : Type 0} (b : Bool) (x y : Result A) → Ends x → Ends y → Ends (if b then x else y)
choice-Ends true x y hx hy = hx
choice-Ends false x y hx hy = hy

pub decode-Ends : (raw : ℕ) → Ends (decode raw)
unfolding decode
decode-Ends raw =
    choice-Ends (raw / 2 ^ 3 == 0 || ltb max_field_number (raw / 2 ^ 3)) _ _ tt
      (bind-Ends (from_int (bit_and raw 7)) _ (from_int-Ends (bit_and raw 7)) (λ w. tt))
