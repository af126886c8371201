-- ===== src/Wire/Heap.antt =====
-- The allocations of src/wire.zig, a `std.mem.Allocator`: `answers k` is whether call `k` of the allocator
-- finds memory. As the standard library documents, an empty slice takes no call and no memory.
use pbz.Common.{ℕ, ◌+◌, ◌-◌, Bool, true, false, ◌==◌, if◌then◌else◌}
use pbz.Wire.Result.{Error, Result, ok, err, out_of_fuel}

-- The calls so far, and the blocks that are allocated.
pub record Heap : Type 0 where
  pub calls : ℕ
  pub live : ℕ

-- `(std.mem.Allocator.Error || Error)!A`. `panicked` stands for a failed assertion and for `unreachable`.
pub data Outcome (A : Type 0) : Type 0 where
  done : A → Outcome A
  out_of_memory : Outcome A
  failed : Error → Outcome A
  no_fuel : Outcome A
  panicked : Outcome A

-- What `try` passes on of a result without allocations.
abbrev pub outcome : {A : Type 0} → Result A → Outcome A
outcome (ok a) = done a
outcome (err e) = failed e
outcome out_of_fuel = no_fuel

-- `allocator.alloc` and `allocator.dupe` of `size` elements, and whether memory was found.
unfoldable pub alloc : (ℕ → Bool) → ℕ → Heap → Bool × Heap
alloc answers size h =
    if size == 0
    then (true, h)
    else if answers h.calls
    then (true, record { calls = h.calls + 1; live = h.live + 1 })
    else (false, record { calls = h.calls + 1; live = h.live })

-- `allocator.free` of `size` elements.
unfoldable pub free : ℕ → Heap → Heap
free size h = if size == 0 then h else record { calls = h.calls; live = h.live - 1 }

-- `try` on a call that may run out of memory, with a state of type `S` after it.
abbrev pub after : {A B S : Type 0} → Outcome A × S → (A → S → Outcome B × S) → Outcome B × S
after (done a, s) f = f a s
after (out_of_memory, s) f = (out_of_memory, s)
after (failed e, s) f = (failed e, s)
after (no_fuel, s) f = (no_fuel, s)
after (panicked, s) f = (panicked, s)
