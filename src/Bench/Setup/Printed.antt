-- ===== src/Bench/Setup/Printed.antt =====
-- After the setup the text variable of a benchmark pair holds what its message prints.
use text.Mathlib.Text.{◌==◌}
use text.Mathlib.TextEquality.{eq_iff}
use text.Mathlib.TextPositions.{eq_refl}
use pbz.Common.{
  and_true, ℕ, ◌≡◌, refl, ◌∙◌, Bool, true, false, not, ◌&&◌, List, [], ◌∷◌, Option, none, some, inl,
  inr, Bool-cases, if◌then◌else◌,
}
use pbz.Bench.Timing.{String}
use pbz.Bench.Message.{message_to_json_string}
use pbz.Bench.Wkt.{WktType, WktRun, bench_pair}
use pbz.Bench.Setup.{
  Statement, declare, change, reach, copy, pack, print, literal, alias, discard, has_setter,
}
use pbz.Bench.Setup.Run
use pbz.Bench.Setup.Run.{
  Outcome, done, aborted, ill_typed, WktLibrary, Object, Locals, assign, place_is, same_class,
  run_statement, run_statements, no_locals, find, require, json_string_for, pack_into, or_abort,
  set_text,
}

-- The result of a statement that does not abort.
abbrev pub OnDone : {A : Type 0} → (A → Type 0) → Outcome A → Type 0
OnDone P (done a) = P a
OnDone P aborted = Unit
OnDone P ill_typed = Unit

pub bind-OnDone :
    {A B : Type 0} (Q : B → Type 0) (m : Outcome A) (f : A → Outcome B)
    → ((a : A) → OnDone Q (f a))
    → OnDone Q (Run.◌>>=◌ m f)
bind-OnDone Q (done a) f k = k a
bind-OnDone Q aborted f k = tt
bind-OnDone Q ill_typed f k = tt

pub and_then-OnDone :
    {A B : Type 0} (P : A → Type 0) (Q : B → Type 0) (m : Outcome A) (f : A → Outcome B)
    → OnDone P m
    → ((a : A) → P a → OnDone Q (f a))
    → OnDone Q (Run.◌>>=◌ m f)
and_then-OnDone P Q (done a) f p k = k a p
and_then-OnDone P Q aborted f p k = tt
and_then-OnDone P Q ill_typed f p k = tt

-- Whether a statement may write the object `x`, or the text `j`.
abbrev pub writes_object : Statement → String → Bool
writes_object (declare t y) x = y == x
writes_object (change y path setter) x = y == x
writes_object (reach y path) x = y == x
writes_object (copy y path z) x = y == x
writes_object (pack y z) x = y == x
writes_object s x = false

abbrev pub writes_text : Statement → String → Bool
writes_text (print k x) j = k == j
writes_text (literal k text) j = k == j
writes_text (alias k i) j = k == j
writes_text s j = false

abbrev pub leaves : List Statement → String → String → Bool
leaves [] j x = true
leaves (s ∷ ss) j x = not (writes_object s x) && (not (writes_text s j) && leaves ss j x)

abbrev pub is_print : Statement → String → String → Bool
is_print (print k y) j x = k == j && y == x
is_print s j x = false

-- Whether `j` is printed from `x`, and neither is written later.
abbrev pub prints_last : List Statement → String → String → Bool
prints_last [] j x = false
prints_last (s ∷ ss) j x = if is_print s j x && leaves ss j x then true else prints_last ss j x

abbrev pub all_printed : List Statement → List WktRun → Bool
all_printed ss [] = true
all_printed ss (bench_pair t name x j ∷ runs) = prints_last ss j x && all_printed ss runs
all_printed ss (run ∷ runs) = all_printed ss runs

pub not-true : (a : Bool) → not a ≡ true → a ≡ false
not-true true h = absurd (cc)
not-true false h = refl

module _ (lib : WktLibrary) (j x : String) where
  abbrev pub Kept : Locals lib → Locals lib → Type 0
  Kept l l' = (l'.objects x ≡ l.objects x) × (l'.texts j ≡ l.texts j)

  pub run_statement-Kept :
      (s : Statement) (l : Locals lib)
      → writes_object s x ≡ false
      → writes_text s j ≡ false
      → OnDone (Kept l) (run_statement lib s l)
  unfolding run_statement
  run_statement-Kept (declare t y) l o w = (rw o refl, refl)
  run_statement-Kept (change y path setter) l o w =
      bind-OnDone _ (find lib (l.objects y)) _ (λ (t, m).
        bind-OnDone _ (require (place_is t path (λ u. has_setter u setter))) _
          (λ r. (rw o refl, refl)))
  run_statement-Kept (reach y path) l o w =
      bind-OnDone _ (find lib (l.objects y)) _
        (λ (t, m). bind-OnDone _ (require (place_is t path (λ u. true))) _ (λ r. (rw o refl, refl)))
  run_statement-Kept (copy y path z) l o w = bind-OnDone _ (find lib (l.objects z)) _ (λ (u, n).
      bind-OnDone _ (find lib (l.objects y)) _ (λ (t, m).
        bind-OnDone _ (require (place_is t path (same_class u))) _ (λ r. (rw o refl, refl))))
  run_statement-Kept (pack y z) l o w = bind-OnDone _ (find lib (l.objects z)) _ (λ b.
      bind-OnDone _ (find lib (l.objects y)) _
        (λ a. bind-OnDone _ (pack_into lib a b) _ (λ packed. (rw o refl, refl))))
  run_statement-Kept (print k y) l o w =
      bind-OnDone _ (find lib (l.objects y)) _
        (λ a. bind-OnDone _ (json_string_for lib a) _ (λ json. (refl, rw w refl)))
  run_statement-Kept (discard y) l o w =
      bind-OnDone _ (find lib (l.objects y)) _
        (λ a. bind-OnDone _ (json_string_for lib a) _ (λ json. (refl, refl)))
  run_statement-Kept (literal k text) l o w = (refl, rw w refl)
  run_statement-Kept (alias k i) l o w =
      bind-OnDone _ (find lib (l.texts i)) _ (λ text. (refl, rw w refl))

  -- The text in `j` is what the object in `x` prints.
  abbrev pub Printed : Locals lib → Type 0
  Printed l =
      (o : Object lib) × (text : List ℕ) × (l.objects x ≡ some o)
      × (l.texts j ≡ some text)
      × (message_to_json_string (lib.class o.0) o.1 ≡ some text)

  leaves-Printed :
      (ss : List Statement) (l : Locals lib)
      → leaves ss j x ≡ true
      → Printed l
      → OnDone Printed (run_statements lib ss l)
  unfolding run_statements
  leaves-Printed [] l h p = p
  leaves-Printed (s ∷ ss) l h (o, text, eo, et, e) =
      let both = and_true (not (writes_object s x)) _ h in
      let rest = and_true (not (writes_text s j)) _ both.1 in
      and_then-OnDone (Kept l) Printed (run_statement lib s l) (run_statements lib ss)
        (run_statement-Kept s l (not-true _ both.0) (not-true _ rest.0))
        (λ l' (same_object, same_text).
          leaves-Printed ss l' rest.1 (o, text, same_object ∙ eo, same_text ∙ et, e))

  after_call :
      (l : Locals lib) (t : WktType) (m : (lib.class t).Msg) (p : Option (List ℕ))
      → l.objects x ≡ some (t, m)
      → message_to_json_string (lib.class t) m ≡ p
      → OnDone Printed (Run.◌>>=◌ (or_abort lib p) (λ json. done (set_text lib j json l)))
  after_call l t m none eo e = tt
  after_call l t m (some text) eo e = ((t, m), text, eo, rw (eq_refl j) refl, e)

  print-Printed :
      (l : Locals lib) (o : Option (Object lib))
      → l.objects x ≡ o
      → OnDone Printed (
          Run.◌>>=◌
            (find lib o)
            (λ a. Run.◌>>=◌ (json_string_for lib a) (λ json. done (set_text lib j json l))))
  print-Printed l none e = tt
  print-Printed l (some (t, m)) e = after_call l t m _ e refl

  is_print-Printed :
      (s : Statement) (l : Locals lib)
      → is_print s j x ≡ true
      → OnDone Printed (run_statement lib s l)
  unfolding run_statement
  is_print-Printed (print k y) l h =
      let both = and_true (k == j) (y == x) h in
      let same_text : k ≡ j = (eq_iff k j).0 both.0 in
      let same_object : y ≡ x = (eq_iff y x).0 both.1 in
      rw (same_text, same_object) (print-Printed l (l.objects x) refl)
  is_print-Printed _ l h = absurd (cc)

  pub prints_last-Printed :
      (ss : List Statement) (l : Locals lib)
      → prints_last ss j x ≡ true
      → OnDone Printed (run_statements lib ss l)
  unfolding run_statements
  prints_last-Printed [] l h = absurd (cc)
  prints_last-Printed (s ∷ ss) l h = elim (Bool-cases (is_print s j x && leaves ss j x)) [
    | inl last ↦
        let both = and_true (is_print s j x) _ last in
        and_then-OnDone Printed Printed (run_statement lib s l) (run_statements lib ss)
          (is_print-Printed s l both.0) (λ l' p. leaves-Printed ss l' both.1 p)
    | inr later ↦
        bind-OnDone Printed (run_statement lib s l) (run_statements lib ss)
          (λ l'. prints_last-Printed ss l' (rw later at h))
  ]
