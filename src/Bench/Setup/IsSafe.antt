-- ===== src/Bench/Setup/IsSafe.antt =====
-- A setup that the C++ compiler accepts runs without a type error.
use mathlib.Core.Path.{subst}
use text.Mathlib.Text.{◌==◌}
use pbz.Common.{
  ℕ, ◌≡◌, refl, ◌∙◌, ap, Bool, true, false, List, [], ◌∷◌, Option, none, some, inl, inr, Bool-cases,
  arith,
}
use pbz.Bench.Timing.{String}
use pbz.Bench.Message.{message_to_json_string}
use pbz.Bench.Wkt.{WktType, any}
use pbz.Bench.Setup.{
  Statement, declare, change, reach, copy, pack, print, literal, alias, discard, has_setter,
}
use pbz.Bench.Setup.Run
use pbz.Bench.Setup.Run.{
  Outcome, done, aborted, ill_typed, WktLibrary, Object, Locals, assign, place_is, same_class,
  run_statement, run_statements, or_abort, json_string_for, set_object, set_text, WktType-discrete,
  require, find, pack_into,
}
use pbz.Bench.Checks.{◌>>=◌}
use pbz.Bench.Checks.Chain.{called, some-injective}
use pbz.Bench.Setup.Scope.{Scope, check_statement, check_statements, ensure, add_object, add_text}

-- An abort, or a value that the predicate holds of; never a type error.
abbrev pub IsSafe : {A : Type 0} → (A → Type 0) → Outcome A → Type 0
IsSafe P (done a) = P a
IsSafe P aborted = Unit
IsSafe P ill_typed = ⊥

pub IsSafe-weaken :
    {A : Type 0} (P Q : A → Type 0) (o : Outcome A)
    → ((a : A) → P a → Q a)
    → IsSafe P o
    → IsSafe Q o
IsSafe-weaken P Q (done a) f p = f a p
IsSafe-weaken P Q aborted f p = tt
IsSafe-weaken P Q ill_typed f p = p

pub of_safe : {A : Type 0} (P : A → Type 0) {o : Outcome A} {a : A} → o ≡ done a → IsSafe P o → P a
of_safe P e h = subst (IsSafe P) e h

pub same_class-eq : (t u : WktType) → same_class t u ≡ true → t ≡ u
unfolding same_class
same_class-eq t u h = elim (WktType-discrete t u) [ yes p ↦ p | no p ↦ absurd (ground arith) ]

ensure-some :
    {B : Type 0} (t : Bool) {o : Option B} {b : B}
    → (ensure t >>= λ _. o) ≡ some b
    → (t ≡ true) × (o ≡ some b)
ensure-some true h = (refl, h)
ensure-some false h = absurd (cc)

module _ (lib : WktLibrary) where
  abbrev tag : Option (Object lib) → Option WktType
  tag none = none
  tag (some (t, m)) = some t

  abbrev present : {A : Type 0} → Option A → Option (Unit {0})
  present none = none
  present (some a) = some tt

-- The variables of the scope, and no others, have values, of their classes.
pub record InScope (lib : WktLibrary) (g : Scope) (l : Locals lib) : Type 0 where
  pub objects : (x : String) → tag lib (l.objects x) ≡ g.objects x
  pub texts : (x : String) → present lib (l.texts x) ≡ g.texts x

bind-IsSafe :
    {A B : Type 0} (P : A → Type 0) (Q : B → Type 0) (m : Outcome A) (f : A → Outcome B)
    → IsSafe P m
    → ((a : A) → P a → IsSafe Q (f a))
    → IsSafe Q (Run.◌>>=◌ m f)
bind-IsSafe P Q (done a) f p k = k a p
bind-IsSafe P Q aborted f p k = tt
bind-IsSafe P Q ill_typed f p k = elim p [ ]

module _ (lib : WktLibrary) where
  tagged :
      (o : Option (Object lib)) (t : WktType)
      → tag lib o ≡ some t
      → (m : (lib.class t).Msg) × (o ≡ some (t, m))
  tagged none t h = absurd (cc)
  tagged (some (u, m)) t h =
      let same : u ≡ t = cc in
      subst
        (λ v. (n : (lib.class v).Msg) × (◌≡◌ {A = Option (Object lib)} (some (u, m)) (some (v, n))))
        same (m, refl)

  given : {A : Type 0} (o : Option A) → present lib o ≡ some tt → (a : A) × (o ≡ some a)
  given none h = absurd (cc)
  given (some a) h = (a, refl)

  set_object-InScope :
      (x : String) (t : WktType) (m : (lib.class t).Msg) (g : Scope) (l : Locals lib)
      → InScope lib g l
      → InScope lib (add_object x t g) (set_object lib x (t, m) l)
  set_object-InScope x t m g l h = record {
    objects = λ y. elim (Bool-cases (x == y)) [ inl e ↦ rw e refl | inr e ↦ rw e (h.objects y) ];
    texts = h.texts;
  }

  set_text-InScope :
      (x : String) (text : List ℕ) (g : Scope) (l : Locals lib)
      → InScope lib g l
      → InScope lib (add_text x g) (set_text lib x text l)
  set_text-InScope x text g l h = record {
    objects = h.objects;
    texts = λ y. elim (Bool-cases (x == y)) [ inl e ↦ rw e refl | inr e ↦ rw e (h.texts y) ];
  }

  same_scope :
      {g g' : Scope} (l : Locals lib) → some g ≡ some g' → InScope lib g l → InScope lib g' l
  same_scope l e h = subst (λ k. InScope lib k l) (some-injective e) h

  or_abort-IsSafe : {A : Type 0} (o : Option A) → IsSafe (λ a. Unit {0}) (or_abort lib o)
  or_abort-IsSafe none = tt
  or_abort-IsSafe (some a) = tt

  printed-IsSafe :
      (Q : Locals lib → Type 0) (t : WktType) (m : (lib.class t).Msg)
      (f : List ℕ → Outcome (Locals lib))
      → ((json : List ℕ) → IsSafe Q (f json))
      → IsSafe Q (Run.◌>>=◌ (json_string_for lib (t, m)) f)
  printed-IsSafe Q t m f k =
      bind-IsSafe (λ json. Unit {0}) Q (or_abort lib (message_to_json_string (lib.class t) m)) f
        (or_abort-IsSafe _) (λ json p. k json)

  module _ {g : Scope} {l : Locals lib} (h : InScope lib g l) where
    pub object_in_scope :
        (x : String) (t : WktType)
        → g.objects x ≡ some t
        → (m : (lib.class t).Msg) × (l.objects x ≡ some (t, m))
    object_in_scope x t e = tagged (l.objects x) t (h.objects x ∙ e)

    pub text_in_scope :
        (x : String) → g.texts x ≡ some tt → (text : List ℕ) × (l.texts x ≡ some text)
    text_in_scope x e = given (l.texts x) (h.texts x ∙ e)

    after_set :
        (x : String) (t : WktType) (m : (lib.class t).Msg) {g' : Scope}
        → some (add_object x t g) ≡ some g'
        → InScope lib g' (set_object lib x (t, m) l)
    after_set x t m e = same_scope _ e (set_object-InScope x t m g l h)

  run_statement-IsSafe :
      (s : Statement) (g g' : Scope) (l : Locals lib)
      → InScope lib g l
      → check_statement s g ≡ some g'
      → IsSafe (InScope lib g') (run_statement lib s l)
  unfolding check_statement run_statement
  run_statement-IsSafe (declare t x) g g' l h c = after_set h x t _ c
  run_statement-IsSafe (change x path setter) g g' l h c =
      let (t, et, c1) = called (g.objects x) _ c in
      let (member, c2) = ensure-some (place_is t path (λ u. has_setter u setter)) c1 in
      let (m, em) = object_in_scope h x t et in rw (em, member) (after_set h x t _ c2)
  run_statement-IsSafe (reach x path) g g' l h c =
      let (t, et, c1) = called (g.objects x) _ c in
      let (member, c2) = ensure-some (place_is t path (λ u. true)) c1 in
      let (m, em) = object_in_scope h x t et in rw (em, member) (after_set h x t _ c2)
  run_statement-IsSafe (copy x path y) g g' l h c =
      let (s, es, c1) = called (g.objects y) _ c in
      let (t, et, c2) = called (g.objects x) _ c1 in
      let (same, c3) = ensure-some (place_is t path (same_class s)) c2 in
      let (n, en) = object_in_scope h y s es in
      let (m, em) = object_in_scope h x t et in rw (en, em, same) (after_set h x t _ c3)
  run_statement-IsSafe (pack x y) g g' l h c =
      let (s, es, c1) = called (g.objects y) _ c in
      let (t, et, c2) = called (g.objects x) _ c1 in
      let (same, c3) = ensure-some (same_class t any) c2 in
      let (n, en) = object_in_scope h y s es in
      let (m, em) = object_in_scope h x any (et ∙ ap some (same_class-eq t any same)) in
      rw (en, em) (after_set h x any _ c3)
  run_statement-IsSafe (print j x) g g' l h c =
      let (t, et, c1) = called (g.objects x) _ c in
      let (m, em) = object_in_scope h x t et in
      rw em (
        printed-IsSafe (InScope lib g') t m (λ json. done (set_text lib j json l))
          (λ json. same_scope _ c1 (set_text-InScope j json g l h)))
  run_statement-IsSafe (discard x) g g' l h c =
      let (t, et, c1) = called (g.objects x) _ c in
      let (m, em) = object_in_scope h x t et in
      rw em (printed-IsSafe (InScope lib g') t m (λ json. done l) (λ json. same_scope l c1 h))
  run_statement-IsSafe (literal j text) g g' l h c = same_scope _ c (set_text-InScope j _ g l h)
  run_statement-IsSafe (alias j k) g g' l h c =
      let (u, eu, c1) = called (g.texts k) _ c in
      let (text, e) = text_in_scope h k eu in rw e (same_scope _ c1 (set_text-InScope j text g l h))

  pub run_statements-IsSafe :
      (ss : List Statement) (g g' : Scope) (l : Locals lib)
      → InScope lib g l
      → check_statements ss g ≡ some g'
      → IsSafe (InScope lib g') (run_statements lib ss l)
  unfolding check_statements run_statements
  run_statements-IsSafe [] g g' l h c = same_scope l c h
  run_statements-IsSafe (s ∷ ss) g g' l h c =
      let (g1, e, c1) = called (check_statement s g) _ c in
      bind-IsSafe (InScope lib g1) (InScope lib g') (run_statement lib s l) _
        (run_statement-IsSafe s g g1 l h e) (λ l' h'. run_statements-IsSafe ss g1 g' l' h' c1)
