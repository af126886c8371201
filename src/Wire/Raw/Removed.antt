-- ===== src/Wire/Raw/Removed.antt =====
-- The removal of the raw fields of one number is all or nothing.
use pbz.Common.{
  ℕ, ◌+◌, ◌-◌, ◌≤◌, ◌≡◌, ◌⊎◌, refl, sym, ap, ◌∙◌, Bool, true, false, inl, inr, List, [], ◌∷◌,
  length, ◌==◌, if◌then◌else◌, Bool-cases, ltb, arith,
}
use pbz.Wire.Result.{◌>>=◌, Result, ok, err, out_of_fuel}
use pbz.Wire.Heap.{Heap, done, out_of_memory, failed, no_fuel, alloc, free}
use pbz.Wire.Reader.Ending.{Ends, bind-Ends, choice-Ends, cursor-Ends, decode-Ends}
use pbz.Wire.Varint.{read_varint_at}
use pbz.Wire.Varint.Bounds.{read_varint_at-Takes}
use pbz.Wire.Tag.{decode}
use pbz.Wire.Raw.{tag_number, raw_field_number, has_number}
use pbz.Wire.Raw.Store.{count_kept, keep_each, keep_result, clear_raw_fields_by_number}
use pbz.Wire.Raw.Blocks.{block, filled, blocks, live-free, live-alloc, live-alloc_fails}
use pbz.Wire.Raw.Owned.{AllOrNothing}

-- The fields that are not empty and do not have the number, in their order.
abbrev pub without : ℕ → List (List ℕ) → List (List ℕ)
without number [] = []
without number (raw ∷ fields) =
    let rest = without number fields in
    if length raw == 0
    then rest
    else if has_number (raw_field_number raw) number
    then rest
    else raw ∷ rest

-- Each field is empty or has a number that can be read.
abbrev pub Readable : List (List ℕ) → Type 0
Readable [] = Unit {0}
Readable (raw ∷ fields) =
    ((length raw ≡ 0) ⊎ ((n : ℕ) × (raw_field_number raw ≡ ok n))) × Readable fields

pub Result-cases :
    {A : Type 0} (r : Result A)
    → ((a : A) × (r ≡ ok a)) ⊎ (((e : _) × (r ≡ err e)) ⊎ (r ≡ out_of_fuel))
Result-cases (ok a) = inl (a, refl)
Result-cases (err e) = inr (inl (e, refl))
Result-cases out_of_fuel = inr (inr refl)

-- What the first loop has found when it comes to its end, and what the second one does then.
record Counted (fields : List (List ℕ)) (number keep remove : ℕ) : Type 0 where
  readable : Readable fields
  keeps : length (without number fields) ≡ keep
  all : keep + remove ≡ length fields
  fewer : filled (without number fields) ≤ filled fields
  second :
      (h : Heap)
      → (h' : Heap) × (keep_each fields number h ≡ ok (without number fields, h'))
        × (h'.live ≡ h.live - (filled fields - filled (without number fields)))

two :
    {keep remove keep' remove' : ℕ}
    → ◌≡◌ {A = Result (ℕ × ℕ)} (ok (keep, remove)) (ok (keep', remove'))
    → (keep ≡ keep') × (remove ≡ remove')
two e = ground arith

gone :
    (raw : List ℕ) (fields : List (List ℕ)) (number keep remove : ℕ)
    → without number (raw ∷ fields) ≡ without number fields
    → ((h : Heap)
        → keep_each (raw ∷ fields) number h ≡ keep_each fields number (free (length raw) h))
    → (length raw ≡ 0) ⊎ ((n : ℕ) × (raw_field_number raw ≡ ok n))
    → Counted fields number keep remove
    → Counted (raw ∷ fields) number keep (remove + 1)
gone raw fields number keep remove same step readable c = record {
  readable = (readable, c.readable);
  keeps = rw same c.keeps;
  all = omega (arith, c.all);
  fewer = rw same (omega (arith, c.fewer));
  second = λ h.
      let (h', e, live) = c.second (free (length raw) h) in
      (h', step h ∙ rw same e, rw same (omega (arith, live, live-free (length raw) h, c.fewer)));
}

stays :
    (raw : List ℕ) (fields : List (List ℕ)) (number keep remove : ℕ)
    → without number (raw ∷ fields) ≡ raw ∷ without number fields
    → ((h : Heap)
        → keep_each (raw ∷ fields) number h
          ≡ (keep_each fields number h >>= λ p. ok (raw ∷ p.0, p.1)))
    → (length raw ≡ 0) ⊎ ((n : ℕ) × (raw_field_number raw ≡ ok n))
    → Counted fields number keep remove
    → Counted (raw ∷ fields) number (keep + 1) remove
stays raw fields number keep remove same step readable c = record {
  readable = (readable, c.readable);
  keeps = rw same (omega (arith, c.keeps));
  all = omega (arith, c.all);
  fewer = rw same (omega (arith, c.fewer));
  second = λ h.
      let (h', e, live) = c.second h in
      (h', step h ∙ rw (e, same) refl, rw same (omega (arith, live, c.fewer)));
}

-- The step of `count_kept` on the number and the counts of the rest.
abbrev count_step : Bool → Result ℕ → ℕ → Result (ℕ × ℕ) → Result (ℕ × ℕ)
count_step empty read number rest =
    if empty
    then (rest >>= λ p. ok (p.0, p.1 + 1))
    else (read >>= λ n. rest >>= λ p. ok (if n == number then (p.0, p.1 + 1) else (p.0 + 1, p.1)))

kept_step :
    (raw : List ℕ) (fields : List (List ℕ)) (number keep remove : ℕ)
    → (empty : Bool) → length raw == 0 ≡ empty
    → (read : Result ℕ) → raw_field_number raw ≡ read
    → (rest : Result (ℕ × ℕ)) → ((k r : ℕ) → rest ≡ ok (k, r) → Counted fields number k r)
    → count_step empty read number rest ≡ ok (keep, remove)
    → Counted (raw ∷ fields) number keep remove
kept_step raw fields number keep remove true he read hr (err x) ih e = absurd (ground arith)
kept_step raw fields number keep remove true he read hr out_of_fuel ih e = absurd (ground arith)
kept_step raw fields number keep remove true he read hr (ok counts) ih e =
    let (ek, er) = two e in
    rw (sym ek, sym er)
      (gone raw fields number counts.0 counts.1 (rw he refl) (λ h. unfold keep_each in rw he refl)
        (inl (ground arith)) (ih counts.0 counts.1 refl))
kept_step raw fields number keep remove false he (err x) hr rest ih e = absurd (ground arith)
kept_step raw fields number keep remove false he out_of_fuel hr rest ih e = absurd (ground arith)
kept_step raw fields number keep remove false he (ok n) hr (err x) ih e = absurd (ground arith)
kept_step raw fields number keep remove false he (ok n) hr out_of_fuel ih e = absurd (ground arith)
kept_step raw fields number keep remove false he (ok n) hr (ok counts) ih e =
    elim (Bool-cases (n == number)) [
      | inl same ↦
          let (ek, er) = two (rw same at e) in
          rw (sym ek, sym er)
            (gone raw fields number counts.0 counts.1 (rw (he, hr, same) refl)
              (λ h. unfold keep_each in rw (he, hr, same) refl) (inr (n, hr))
              (ih counts.0 counts.1 refl))
      | inr other ↦
          let (ek, er) = two (rw other at e) in
          rw (sym ek, sym er)
            (stays raw fields number counts.0 counts.1 (rw (he, hr, other) refl)
              (λ h. unfold keep_each in rw (he, hr, other) refl) (inr (n, hr))
              (ih counts.0 counts.1 refl))
    ]

counted :
    (fields : List (List ℕ)) (number keep remove : ℕ)
    → count_kept fields number ≡ ok (keep, remove)
    → Counted fields number keep remove
unfolding count_kept
counted [] number keep remove e = record {
  readable = tt;
  keeps = (two e).0;
  all = omega (arith, two e);
  fewer = omega arith;
  second = λ h. (h, (unfold keep_each in refl), omega arith);
}
counted (raw ∷ fields) number keep remove e =
    kept_step raw fields number keep remove (length raw == 0) refl (raw_field_number raw) refl
      (count_kept fields number) (counted fields number) e

without-le : (number : ℕ) (fields : List (List ℕ)) → length (without number fields) ≤ length fields
without-le number [] = omega arith
without-le number (raw ∷ fields) = ground (arith, without-le number fields)

-- Where none goes the fields stay as they are.
without_none :
    (number : ℕ) (fields : List (List ℕ))
    → length (without number fields) ≡ length fields
    → without number fields ≡ fields
without_none number [] e = refl
without_none number (raw ∷ fields) e =
    let short = without-le number fields in
    elim (Bool-cases (length raw == 0)) [
      | inl empty ↦ absurd (let e' = rw empty at e in omega arith)
      | inr some_bytes ↦ elim (Bool-cases (has_number (raw_field_number raw) number)) [
        | inl same ↦ absurd (let e' = rw (some_bytes, same) at e in omega arith)
        | inr other ↦
            let e' = rw (some_bytes, other) at e in
            rw (some_bytes, other) (ap (λ l. raw ∷ l) (without_none number fields (omega arith)))
      ]
    ]

pub raw_field_number-Ends : (raw : List ℕ) → Ends (raw_field_number raw)
unfolding raw_field_number tag_number
raw_field_number-Ends raw =
    let read = read_varint_at raw 0 in
    bind-Ends read.0 _ (cursor-Ends raw 0 10 read (read_varint_at-Takes raw 0)) (λ raw_tag.
      choice-Ends (ltb 5 read.1) _ _ tt
        (bind-Ends (decode raw_tag) _ (decode-Ends raw_tag) (λ t. tt)))

count_kept-Ends : (fields : List (List ℕ)) (number : ℕ) → Ends (count_kept fields number)
unfolding count_kept
count_kept-Ends [] number = tt
count_kept-Ends (raw ∷ fields) number =
    let rest = count_kept-Ends fields number in
    choice-Ends (length raw == 0) _ _ (bind-Ends (count_kept fields number) _ rest (λ p. tt)) (
      bind-Ends (raw_field_number raw) _ (raw_field_number-Ends raw)
        (λ n. bind-Ends (count_kept fields number) _ rest (λ p. tt)))

module _ (answers : ℕ → Bool) (fields : List (List ℕ)) (number : ℕ) (h : Heap)
    (owned : blocks fields ≤ h.live) where
  removed :
      (keep remove : ℕ)
      → Counted fields number keep remove
      → (alloc answers keep h).0 ≡ true
      → AllOrNothing (Readable fields) fields h (without number fields) (
          keep_result fields keep
            (keep_each fields number (alloc answers keep h).1)
            (alloc answers keep h).1)
  unfolding keep_result
  removed keep remove c found =
      let (h2, e, live) = c.second (alloc answers keep h).1 in
      let whole : length (without number fields) == keep ≡ true = ground (arith, c.keeps) in
      let size : block (length (without number fields)) ≡ block keep = ap block c.keeps in
      rw (e, keep_result, whole)
        (
          c.readable,
          refl,
          omega (
            arith,
            live,
            size,
            live-alloc answers keep h found,
            live-free (length fields) h2,
            c.fewer,
          ),
        )

  decided :
      (r : Result (ℕ × ℕ))
      → count_kept fields number ≡ r
      → Ends r
      → AllOrNothing (Readable fields) fields h (without number fields) (elim r [
        | err e ↦ (failed e, fields, h)
        | out_of_fuel ↦ (no_fuel, fields, h)
        | ok counts ↦
            if counts.1 == 0
            then (done tt, fields, h)
            else if (alloc answers counts.0 h).0
            then keep_result fields counts.0
                (keep_each fields number (alloc answers counts.0 h).1)
                (alloc answers counts.0 h).1
            else (out_of_memory, fields, (alloc answers counts.0 h).1)
      ])
  decided (err x) e ends = (refl, refl)
  decided out_of_fuel e ends = absurd ends
  decided (ok counts) e ends =
      let c = counted fields number counts.0 counts.1 e in
      elim (Bool-cases (counts.1 == 0)) [
        | inl none_goes ↦
            let same = without_none number fields (ground (arith, c.keeps, c.all)) in
            rw none_goes (c.readable, sym same, refl)
        | inr some_go ↦ elim (Bool-cases (alloc answers counts.0 h).0) [
          | inl found ↦ rw (some_go, found) (removed counts.0 counts.1 c found)
          | inr none_left ↦
              rw (some_go, none_left) (refl, live-alloc_fails answers counts.0 h none_left)
        ]
      ]

  -- Whatever memory the allocator finds, `clearRawFieldsByNumber` ends in one of two ways, and reaches no
  -- `unreachable` and no failed assertion. On success the number of each field that is not empty could be read,
  -- the pointer has the fields that are not empty and do not have the number, in their order, and each block
  -- is owned by them. On an error the pointer still has the old fields, and no block is lost or freed.
  pub clear_raw_fields_by_number-AllOrNothing :
      AllOrNothing
        (Readable fields)
        fields
        h
        (without number fields)
        (clear_raw_fields_by_number answers fields number h)
  unfolding clear_raw_fields_by_number
  clear_raw_fields_by_number-AllOrNothing =
      decided (count_kept fields number) refl (count_kept-Ends fields number)
