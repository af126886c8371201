-- ===== src/Wire/Raw/Blocks.antt =====
-- The memory of raw fields is neither lost nor freed twice: what the operations of `Store` do to the blocks
-- that are allocated.
use pbz.Common.{
  ℕ, ◌+◌, ◌-◌, ◌≡◌, refl, sym, ◌∙◌, Bool, true, false, inl, inr, List, [], ◌∷◌, ◌++◌, append-nil,
  append_assoc, length, ◌==◌, if◌then◌else◌, Bool-cases, arith,
}
use pbz.Wire.Heap.{Heap, alloc, free}
use pbz.Wire.Raw.Store.{free_each, clone_each}

-- A slice has memory unless it is empty.
abbrev pub block : ℕ → ℕ
block size = if size == 0 then 0 else 1

abbrev pub filled : List (List ℕ) → ℕ
filled [] = 0
filled (raw ∷ raws) = block (length raw) + filled raws

-- The blocks that a slice of raw fields owns.
abbrev pub blocks : List (List ℕ) → ℕ
blocks fields = filled fields + block (length fields)

pub filled-append : (xs ys : List (List ℕ)) → filled (xs ++ ys) ≡ filled xs + filled ys
filled-append [] ys = omega arith
filled-append (x ∷ xs) ys = omega (arith, filled-append xs ys)

pub live-free : (size : ℕ) (h : Heap) → (free size h).live ≡ h.live - block size
unfolding free
live-free size h = ground arith

pub live-free_each :
    (raws : List (List ℕ)) (h : Heap) → (free_each raws h).live ≡ h.live - filled raws
unfolding free_each
live-free_each [] h = omega arith
live-free_each (raw ∷ raws) h =
    omega (arith, live-free_each raws (free (length raw) h), live-free (length raw) h)

module _ (answers : ℕ → Bool) where
  pub live-alloc :
      (size : ℕ) (h : Heap)
      → (alloc answers size h).0 ≡ true
      → (alloc answers size h).1.live ≡ h.live + block size
  unfolding alloc
  live-alloc size h e = ground arith

  pub live-alloc_fails :
      (size : ℕ) (h : Heap)
      → (alloc answers size h).0 ≡ false
      → (alloc answers size h).1.live ≡ h.live
  unfolding alloc
  live-alloc_fails size h e = ground arith

  -- However far the clones come, each of them has its memory.
  pub live-clone_each :
      (raws cloned : List (List ℕ)) (h : Heap)
      → (clone_each answers raws cloned h).2.live + filled cloned
        ≡ h.live + filled (clone_each answers raws cloned h).1
  unfolding clone_each
  live-clone_each [] cloned h = refl
  live-clone_each (raw ∷ raws) cloned h = elim (Bool-cases (alloc answers (length raw) h).0) [
    | inl found ↦ rw found (
        omega (
          arith,
          live-clone_each raws (cloned ++ (raw ∷ [])) (alloc answers (length raw) h).1,
          live-alloc (length raw) h found,
          filled-append cloned (raw ∷ []),
        ))
    | inr none_left ↦ rw none_left (omega (arith, live-alloc_fails (length raw) h none_left))
  ]

  pub cloned-clone_each :
      (raws cloned : List (List ℕ)) (h : Heap)
      → (clone_each answers raws cloned h).0 ≡ true
      → (clone_each answers raws cloned h).1 ≡ cloned ++ raws
  unfolding clone_each
  cloned-clone_each [] cloned h e = sym (append-nil cloned)
  cloned-clone_each (raw ∷ raws) cloned h e = elim (Bool-cases (alloc answers (length raw) h).0) [
    | inl found ↦
        let e' : (clone_each answers raws (cloned ++ (raw ∷ [])) (alloc answers (length raw) h).1).0
            ≡ true =
          rw found at e in
        rw found (
          cloned-clone_each raws (cloned ++ (raw ∷ [])) (alloc answers (length raw) h).1 e'
          ∙ append_assoc cloned (raw ∷ []) raws)
    | inr none_left ↦ let e' : false ≡ true = rw none_left at e in ground arith
  ]
