-- ===== src/Bench/Setup/Prepared.antt =====
-- What the setup of the well-known types prepares for the runs.
use mathlib.Core.Path.{subst, subst_refl}
use pbz.Common.{and_true, ℕ, ◌≡◌, refl, ◌∙◌, ap, true, List, [], ◌∷◌, some, All}
use pbz.Bench.Timing.{String}
use pbz.Bench.Message.{message_to_json_string, default_parse}
use pbz.Bench.Runs.Json.Complete.{Parses}
use pbz.Bench.Wkt.{WktType, WktRun, bench_pair, parse_only, parse_block}
use pbz.Bench.Wkt.Complete.{WktContract}
use pbz.Bench.Wkt.Table.{wkt_runs}
use pbz.Bench.Setup.Run.{
  Outcome, done, WktLibrary, Object, Locals, run_statements, no_locals, object_as, text_or_empty,
  wkt_locals, WktType-discrete,
}
use pbz.Bench.Setup.Table.{wkt_setup}
use pbz.Bench.Setup.IsSafe.{of_safe}
use pbz.Bench.Setup.Typed.{HasVariables, wkt_setup-IsSafe}
use pbz.Bench.Setup.Printed.{OnDone, Printed, prints_last, all_printed, prints_last-Printed}

WktType-set : IsSet WktType
WktType-set = hlevel

object_as-same :
    (lib : WktLibrary) (t : WktType) (m : (lib.class t).Msg) → object_as lib t (some (t, m)) ≡ m
unfolding WktType-discrete
object_as-same lib t m =
    elim (WktType-discrete t t)
      as (λ d.
        (elim d [ yes same ↦ subst (λ c. (lib.class c).Msg) same m | no other ↦ (lib.class t).new ])
        ≡ m) [
          | yes same ↦
              ap (λ p. subst (λ c. (lib.class c).Msg) p m) (WktType-set t t same refl)
              ∙ subst_refl {A = WktType} (λ c. (lib.class c).Msg) m
          | no other ↦ absurd (other refl)
        ]

-- On a benchmark pair: its message prints as its text.
abbrev pub PrintsText : (lib : WktLibrary) → Locals lib → WktRun → Type 0
PrintsText lib l (bench_pair t name x j) =
    (m : (lib.class t).Msg) × (text : List ℕ) × (l.objects x ≡ some (t, m))
    × (l.texts j ≡ some text)
    × (message_to_json_string (lib.class t) m ≡ some text)
PrintsText lib l (parse_only t name j) = Unit
PrintsText lib l (parse_block t name j) = Unit

wkt_runs-all_printed : all_printed wkt_setup wkt_runs ≡ true
wkt_runs-all_printed = refl

pub of_done : {A : Type 0} (P : A → Type 0) {o : Outcome A} {a : A} → o ≡ done a → OnDone P o → P a
of_done P e h = subst (OnDone P) e h

module _ (lib : WktLibrary) (l : Locals lib)
    (e : run_statements lib wkt_setup (no_locals lib) ≡ done l) where
  -- The object of `HasVariables` is the one that was printed.
  same_object :
      (t : WktType) (m : (lib.class t).Msg) (x j : String)
      → l.objects x ≡ some (t, m)
      → Printed lib j x l
      → PrintsText lib l (bench_pair t "" x j)
  same_object t m x j h (o, text, eo, et, p) =
      let same : o ≡ (t, m) = cc in
      (
        m,
        text,
        h,
        et,
        subst (λ (q : Object lib). message_to_json_string (lib.class q.0) q.1 ≡ some text) same p,
      )

  runs-PrintText :
      (runs : List WktRun)
      → all_printed wkt_setup runs ≡ true
      → All (HasVariables lib l) runs
      → All (PrintsText lib l) runs
  runs-PrintText [] h v = tt
  runs-PrintText (bench_pair t name x j ∷ runs) h (((m, found), text), v) =
      let both = and_true (prints_last wkt_setup j x) (all_printed wkt_setup runs) h in
      (
        same_object t m x j found (
            of_done (Printed lib j x) e
              (prints_last-Printed lib j x wkt_setup (no_locals lib) both.0)),
        runs-PrintText runs both.1 v,
      )
  runs-PrintText (parse_only t name j ∷ runs) h (text, v) = (tt, runs-PrintText runs h v)
  runs-PrintText (parse_block t name j ∷ runs) h (text, v) = (tt, runs-PrintText runs h v)

  variables : All (HasVariables lib l) wkt_runs
  variables = of_safe (λ l'. All (HasVariables lib l') wkt_runs) e (wkt_setup-IsSafe lib)

-- Where the setup of the well-known types ends without an abort, the text of each benchmark pair is, byte
-- for byte, what its message prints at that point: neither of the two was written after the message was
-- printed into the text.
pub wkt_setup-PrintsText :
    (lib : WktLibrary) (l : Locals lib)
    → run_statements lib wkt_setup (no_locals lib) ≡ done l
    → All (PrintsText lib l) wkt_runs
wkt_setup-PrintsText lib l e =
    runs-PrintText lib l e wkt_runs wkt_runs-all_printed (variables lib l e)

-- On a run that only parses: its text is accepted.
abbrev pub ParsesText : (lib : WktLibrary) → Locals lib → WktRun → Type 0
ParsesText lib l (bench_pair t name x j) = Unit
ParsesText lib l (parse_only t name j) =
    Parses (lib.class t) default_parse (text_or_empty (l.texts j))
ParsesText lib l (parse_block t name j) =
    Parses (lib.class t) default_parse (text_or_empty (l.texts j))

-- What the library is relied on for: it accepts what it prints, and the texts of the runs that only parse.
pub record TextsAccepted (lib : WktLibrary) (l : Locals lib) : Type 0 where
  pub printed :
      (t : WktType) (m : (lib.class t).Msg) (text : List ℕ)
      → message_to_json_string (lib.class t) m ≡ some text
      → Parses (lib.class t) default_parse text
  pub written : All (ParsesText lib l) wkt_runs

pub runs-WktContract :
    (lib : WktLibrary) (l : Locals lib) (runs : List WktRun)
    → TextsAccepted lib l
    → All (ParsesText lib l) runs
    → All (PrintsText lib l) runs
    → All (WktContract (wkt_locals lib l)) runs
runs-WktContract lib l [] k w p = tt
runs-WktContract lib l (bench_pair t name x j ∷ runs) k (w, ws) ((m, text, eo, et, e), ps) =
    let same : object_as lib t (l.objects x) ≡ m =
      ap (object_as lib t) eo ∙ object_as-same lib t m in
    let same_text : text_or_empty (l.texts j) ≡ text = ap (text_or_empty) et in
    (
      record { prints = rw (same, same_text) e; parses = rw same_text (k.printed t m text e) },
      runs-WktContract lib l runs k ws ps,
    )
runs-WktContract lib l (parse_only t name j ∷ runs) k (w, ws) (p, ps) =
    (w, runs-WktContract lib l runs k ws ps)
runs-WktContract lib l (parse_block t name j ∷ runs) k (w, ws) (p, ps) =
    (w, runs-WktContract lib l runs k ws ps)
