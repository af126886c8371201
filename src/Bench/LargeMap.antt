-- ===== src/Bench/LargeMap.antt =====
-- `MakeLargeMap`, `ShuffledLargeMapIndex` and `MakeShuffledLargeMap` of
-- bench/cpp_protobuf/main.cc. The key text that `snprintf` formats is the parameter `key`, and the
-- protobuf map is a function from keys to values.
pub mod Laws
use pbz.Common.{ℕ, zero, suc, ◌+◌, ◌*◌, ◌%◌, Option, none, some}
use mathlib.Core.Logic.{ite}

abbrev pub large_map_entry_count : ℕ
large_map_entry_count = 1024

abbrev large_map_shuffle_multiplier : ℕ
large_map_shuffle_multiplier = 257

abbrev large_map_shuffle_increment : ℕ
large_map_shuffle_increment = 911

-- The products stay below 2 ^ 31 for `i < 1024`.
unfoldable pub shuffled_large_map_index : ℕ → ℕ
shuffled_large_map_index i =
    (i * large_map_shuffle_multiplier + large_map_shuffle_increment) % large_map_entry_count

module _ {K : Type 0} (same_key : Discrete K) (key : ℕ → K) where
  abbrev empty_counts : K → Option ℕ
  empty_counts k = none

  -- `counts[k] = v`.
  unfoldable pub assign : (K → Option ℕ) → K → ℕ → K → Option ℕ
  assign counts k v j = ite (same_key j k) (some v) (counts j)

  -- Rounds `i, ..., i + n - 1` of the loop.
  unfoldable pub fill_large_map : ℕ → ℕ → (K → Option ℕ) → K → Option ℕ
  fill_large_map zero i counts = counts
  fill_large_map (suc n) i counts = fill_large_map n (i + 1) (assign counts (key i) (i % 4096 + 1))

  unfoldable pub make_large_map : K → Option ℕ
  make_large_map = fill_large_map large_map_entry_count 0 empty_counts

  unfoldable pub fill_shuffled_large_map : ℕ → ℕ → (K → Option ℕ) → K → Option ℕ
  fill_shuffled_large_map zero i counts = counts
  fill_shuffled_large_map (suc n) i counts =
      let key_index = shuffled_large_map_index i in
      fill_shuffled_large_map n (i + 1) (assign counts (key key_index) (key_index % 4096 + 1))

  unfoldable pub make_shuffled_large_map : K → Option ℕ
  make_shuffled_large_map = fill_shuffled_large_map large_map_entry_count 0 empty_counts
