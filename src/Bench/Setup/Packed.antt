-- ===== src/Bench/Setup/Packed.antt =====
-- After the setup the Any of a benchmark pair holds the message of the pair that it is named for.
use text.Mathlib.Text.{◌==◌}
use text.Mathlib.TextEquality.{eq_iff}
use text.Mathlib.TextPositions.{eq_refl}
use pbz.Common.{
  and_true, ◌≡◌, refl, ◌∙◌, inl, inr, Bool, true, false, not, ◌&&◌, ◌||◌, List, [], ◌∷◌, Option,
  none, some, Bool-cases,
}
use pbz.Bench.Timing.{String}
use pbz.Bench.Wkt.{any}
use pbz.Bench.Setup.{Statement, declare, pack}
use pbz.Bench.Setup.Run
use pbz.Bench.Setup.Run.{
  Outcome, done, aborted, ill_typed, WktLibrary, Object, Locals, run_statement, run_statements,
  no_locals, find, pack_into, set_object,
}
use pbz.Bench.Setup.Printed.{
  OnDone, bind-OnDone, and_then-OnDone, not-true, writes_object, writes_text, Kept,
  run_statement-Kept, leaves,
}

-- Whether `x` is declared as an Any.
abbrev pub is_fresh : Statement → String → Bool
is_fresh (declare any y) x = y == x
is_fresh s x = false

abbrev pub is_pack : Statement → String → String → Bool
is_pack (pack z w) x y = z == x && w == y
is_pack s x y = false

-- Neither object is written. No text variable is without a name.
abbrev pub leaves_both : List Statement → String → String → Bool
leaves_both ss x y = leaves ss "" x && leaves ss "" y

-- Whether `y` is packed into `x` before `x` is written otherwise, and neither is written later.
abbrev pub packed_next : List Statement → String → String → Bool
packed_next [] x y = false
packed_next (s ∷ ss) x y =
    (is_pack s x y && leaves_both ss x y)
    || ((not (writes_object s x) && not (writes_text s "")) && packed_next ss x y)

abbrev pub packs_last : List Statement → String → String → Bool
packs_last [] x y = false
packs_last (s ∷ ss) x y = (is_fresh s x && packed_next ss x y) || packs_last ss x y

both-OnDone :
    {A : Type 0} (P Q : A → Type 0) (m : Outcome A)
    → OnDone P m
    → OnDone Q m
    → OnDone (λ a. P a × Q a) m
both-OnDone P Q (done a) p q = (p, q)
both-OnDone P Q aborted p q = tt
both-OnDone P Q ill_typed p q = tt

module _ (lib : WktLibrary) (x y : String) where
  -- The object in `x` is a new Any.
  abbrev Fresh : Locals lib → Type 0
  Fresh l = l.objects x ≡ some (any, (lib.class any).new)

  -- The object in `x` is a new Any into which the object in `y` was packed.
  abbrev pub Packed : Locals lib → Type 0
  Packed l =
      (o : Object lib) × (l.objects y ≡ some o)
      × (l.objects x ≡ some (any, lib.pack_from o.0 o.1 (lib.class any).new))

  is_fresh-Fresh :
      (s : Statement) (l : Locals lib) → is_fresh s x ≡ true → OnDone Fresh (run_statement lib s l)
  unfolding run_statement
  is_fresh-Fresh (declare any z) l h =
      let same : z ≡ x = (eq_iff z x).0 h in rw (same, eq_refl x) refl
  is_fresh-Fresh _ l h = absurd (cc)

  leaves_both-Packed :
      (ss : List Statement) (l : Locals lib)
      → leaves ss "" x ≡ true
      → leaves ss "" y ≡ true
      → Packed l
      → OnDone Packed (run_statements lib ss l)
  unfolding run_statements
  leaves_both-Packed [] l h k p = p
  leaves_both-Packed (s ∷ ss) l h k (o, ey, ex) =
      let hx = and_true (not (writes_object s x)) _ h in
      let hx' = and_true (not (writes_text s "")) _ hx.1 in
      let hy = and_true (not (writes_object s y)) _ k in
      let hy' = and_true (not (writes_text s "")) _ hy.1 in
      and_then-OnDone (λ l'. Kept lib "" x l l' × Kept lib "" y l l') Packed (run_statement lib s l)
        (run_statements lib ss)
        (both-OnDone (Kept lib "" x l) (Kept lib "" y l) (run_statement lib s l)
          (run_statement-Kept lib "" x s l (not-true _ hx.0) (not-true _ hx'.0))
          (run_statement-Kept lib "" y s l (not-true _ hy.0) (not-true _ hy'.0)))
        (λ l' (kx, ky). leaves_both-Packed ss l' hx'.1 hy'.1 (o, ky.0 ∙ ey, kx.0 ∙ ex))

  module _ (differ : (x == y) ≡ false) where
    pack-Packed :
        (l : Locals lib) (o : Option (Object lib))
        → l.objects y ≡ o
        → Fresh l
        → OnDone Packed (
            Run.◌>>=◌ (find lib o) (λ b.
              Run.◌>>=◌
                (find lib (l.objects x))
                (λ a. Run.◌>>=◌ (pack_into lib a b) (λ packed. done (set_object lib x packed l)))))
    pack-Packed l none e f = tt
    pack-Packed l (some (s, n)) e f = rw f ((s, n), rw differ e, rw (eq_refl x) refl)

    is_pack-Packed :
        (s : Statement) (l : Locals lib)
        → is_pack s x y ≡ true
        → Fresh l
        → OnDone Packed (run_statement lib s l)
    unfolding run_statement
    is_pack-Packed (pack z w) l h f =
        let both = and_true (z == x) (w == y) h in
        let same : z ≡ x = (eq_iff z x).0 both.0 in
        let payload : w ≡ y = (eq_iff w y).0 both.1 in
        rw (same, payload) (pack-Packed l (l.objects y) refl f)
    is_pack-Packed _ l h f = absurd (cc)

    packed_next-Packed :
        (ss : List Statement) (l : Locals lib)
        → packed_next ss x y ≡ true
        → Fresh l
        → OnDone Packed (run_statements lib ss l)
    unfolding run_statements
    packed_next-Packed [] l h f = absurd (cc)
    packed_next-Packed (s ∷ ss) l h f = elim (Bool-cases (is_pack s x y && leaves_both ss x y)) [
      | inl last ↦
          let both = and_true (is_pack s x y) _ last in
          let kept = and_true (leaves ss "" x) _ both.1 in
          and_then-OnDone Packed Packed (run_statement lib s l) (run_statements lib ss)
            (is_pack-Packed s l both.0 f) (λ l' p. leaves_both-Packed ss l' kept.0 kept.1 p)
      | inr later ↦
          let rest =
            and_true (not (writes_object s x) && not (writes_text s "")) _ (rw later at h) in
          let kept = and_true (not (writes_object s x)) _ rest.0 in
          and_then-OnDone (Kept lib "" x l) Packed (run_statement lib s l) (run_statements lib ss)
            (run_statement-Kept lib "" x s l (not-true _ kept.0) (not-true _ kept.1))
            (λ l' k. packed_next-Packed ss l' rest.1 (k.0 ∙ f))
    ]

    pub packs_last-Packed :
        (ss : List Statement) (l : Locals lib)
        → packs_last ss x y ≡ true
        → OnDone Packed (run_statements lib ss l)
    unfolding run_statements
    packs_last-Packed [] l h = absurd (cc)
    packs_last-Packed (s ∷ ss) l h = elim (Bool-cases (is_fresh s x && packed_next ss x y)) [
      | inl next ↦
          let both = and_true (is_fresh s x) _ next in
          and_then-OnDone Fresh Packed (run_statement lib s l) (run_statements lib ss)
            (is_fresh-Fresh s l both.0) (λ l' f. packed_next-Packed ss l' both.1 f)
      | inr later ↦
          bind-OnDone Packed (run_statement lib s l) (run_statements lib ss)
            (λ l'. packs_last-Packed ss l' (rw later at h))
    ]
