-- ===== src/Wire/Raw/Owned.antt =====
-- Appending raw fields is all or nothing, and so is removing them: what stands behind the pointer and what is
-- allocated changes as one.
use pbz.Common.{
  ℕ, ◌+◌, ◌≤◌, ◌≡◌, refl, sym, ap, ◌∙◌, Bool, false, inl, inr, List, [], ◌∷◌, ◌++◌, append-nil,
  no_elements, length, length-append, ◌==◌, Bool-cases, arith, Option, none, some,
}
use pbz.Wire.Result.{Result, ok, err, out_of_fuel}
use pbz.Wire.Heap.{Heap, Outcome, done, out_of_memory, failed, no_fuel, panicked, alloc}
use pbz.Wire.Tag.{Tag}
use pbz.Wire.Reader.{Reader, init, eof, next_tag, skip_value}
use pbz.Wire.Reader.Ending.{Ends, bind-Ends, choice-Ends}
use pbz.Wire.Reader.Ends.{next_tag-Ends, skip_value-Ends}
use pbz.Wire.Reader.Keeps.{next_tag-Keeps}
use pbz.Wire.Raw.{validate_tag, validate_raw_field}
use pbz.Wire.Raw.Store.{
  free_each, clone_each, validate_each, append_raw_fields_clone_unchecked, append_raw_fields_clone,
}
use pbz.Wire.Raw.Blocks.{
  block, blocks, filled-append, live-free, live-free_each, live-alloc, live-alloc_fails,
  live-clone_each, cloned-clone_each,
}

-- On success `accepted` holds, the pointer has `new`, and what the call allocated is what `new` owns beyond
-- `old`. On an error the pointer still has `old`, and nothing is allocated that was not before.
abbrev pub AllOrNothing :
    Type 0
    → List (List ℕ)
    → Heap
    → List (List ℕ)
    → Outcome (Unit {0}) × List (List ℕ) × Heap
    → Type 0
AllOrNothing accepted old h new (done _, fields, h') =
    accepted × (fields ≡ new) × (h'.live + blocks old ≡ h.live + blocks fields)
AllOrNothing accepted old h new (out_of_memory, fields, h') = (fields ≡ old) × (h'.live ≡ h.live)
AllOrNothing accepted old h new (failed e, fields, h') = (fields ≡ old) × (h'.live ≡ h.live)
AllOrNothing accepted old h new (no_fuel, fields, h') = ⊥
AllOrNothing accepted old h new (panicked, fields, h') = ⊥

block-append :
    (old raws : List (List ℕ))
    → length raws == 0 ≡ false
    → (block (length old + length raws) ≡ 1) × (block (length (old ++ raws)) ≡ 1)
block-append old raws some_raws = ground (arith, length-append old raws)

validate_tag-Ends :
    (o : Option Tag) (r : Reader) → r.index ≤ length r.input → Ends (validate_tag o r)
unfolding validate_tag
validate_tag-Ends none r inside = tt
validate_tag-Ends (some tag) r inside =
    bind-Ends (skip_value tag r).0 _ (skip_value-Ends tag r inside)
      (λ _. choice-Ends (eof (skip_value tag r).1) _ _ tt tt)

validate_raw_field-Ends : (raw : List ℕ) → Ends (validate_raw_field raw)
unfolding validate_raw_field
validate_raw_field-Ends raw =
    let read = next_tag (init raw) in
    let keeps = next_tag-Keeps (init raw) in
    let inside : read.1.index ≤ length read.1.input =
      rw (keeps.input) (keeps.inside (omega arith)) in
    bind-Ends read.0 _ (next_tag-Ends (init raw)) (λ o. validate_tag-Ends o read.1 inside)

validate_each-Ends : (raws : List (List ℕ)) → Ends (validate_each raws)
unfolding validate_each
validate_each-Ends [] = tt
validate_each-Ends (raw ∷ raws) =
    bind-Ends (validate_raw_field raw) _ (validate_raw_field-Ends raw)
      (λ _. validate_each-Ends raws)

module _ (answers : ℕ → Bool) (old raws : List (List ℕ)) (h : Heap) (owned : blocks old ≤ h.live)
    (some_raws : length raws == 0 ≡ false) where
  unchecked :
      (accepted : Type 0)
      → accepted
      → AllOrNothing accepted old h
          (old ++ raws)
          (append_raw_fields_clone_unchecked answers old raws h)
  unfolding append_raw_fields_clone_unchecked
  unchecked accepted holds =
      let first = alloc answers (length old + length raws) h in
      let clones = clone_each answers raws [] first.1 in
      let (one, one') = block-append old raws some_raws in
      let cloned = live-clone_each answers raws [] first.1 in
      elim (Bool-cases first.0) [
        | inr none_left ↦ rw none_left (refl, live-alloc_fails answers _ h none_left)
        | inl found ↦
            let grown = live-alloc answers _ h found in
            elim (Bool-cases clones.0) [
              | inl all ↦
                  let same = cloned-clone_each answers raws [] first.1 all in
                  let whole : block (length (old ++ clones.1)) ≡ 1 =
                    ap (λ l. block (length (old ++ l))) same ∙ one' in
                  rw (found, all)
                    (
                      holds,
                      ap (λ l. old ++ l) same,
                      omega (
                        arith,
                        live-free (length old) clones.2,
                        cloned,
                        grown,
                        one,
                        whole,
                        filled-append old clones.1,
                      ),
                    )
              | inr stopped ↦
                  rw (found, stopped)
                    (
                      refl,
                      omega (
                        arith,
                        live-free (length old + length raws) (free_each clones.1 clones.2),
                        live-free_each clones.1 clones.2,
                        cloned,
                        grown,
                        one,
                      ),
                    )
            ]
      ]

decided :
    (answers : ℕ → Bool) (old raws : List (List ℕ)) (h : Heap) (r : Result (Unit {0}))
    → validate_each raws ≡ r
    → Ends r
    → blocks old ≤ h.live
    → length raws == 0 ≡ false
    → AllOrNothing (validate_each raws ≡ ok tt) old h (old ++ raws) (elim r [
      | ok _ ↦ append_raw_fields_clone_unchecked answers old raws h
      | err e ↦ (failed e, old, h)
      | out_of_fuel ↦ (no_fuel, old, h)
    ])
decided answers old raws h (ok tt) e ends owned more =
    unchecked answers old raws h owned more (validate_each raws ≡ ok tt) e
decided answers old raws h (err x) e ends owned more = (refl, refl)
decided answers old raws h out_of_fuel e ends owned more = absurd ends

-- Whatever memory the allocator finds, `appendRawFieldsClone` ends in one of two ways. On success all of
-- `raws` are valid fields, the pointer has the old fields and then `raws`, and each block is owned by them.
-- On an error, a field that is not valid or a lack of memory at any point, the pointer still has the old
-- fields, and each block that the call allocated is freed again.
pub append_raw_fields_clone-AllOrNothing :
    (answers : ℕ → Bool) (old raws : List (List ℕ)) (h : Heap)
    → blocks old ≤ h.live
    → AllOrNothing
        (validate_each raws ≡ ok tt)
        old
        h
        (old ++ raws)
        (append_raw_fields_clone answers old raws h)
unfolding append_raw_fields_clone validate_each
append_raw_fields_clone-AllOrNothing answers old raws h owned =
    elim (Bool-cases (length raws == 0)) [
      | inl none_given ↦
          let empty = no_elements raws (ground arith) in rw empty (refl, sym (append-nil old), refl)
      | inr more ↦ rw more (
          decided answers old raws h (validate_each raws) refl (validate_each-Ends raws) owned more)
    ]
