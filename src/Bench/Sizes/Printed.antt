-- ===== src/Bench/Sizes/Printed.antt =====
-- All payload sizes are printed, and nearly every text of a well-known type has its size among them.
use text.Mathlib.Text.{◌==◌ as str_eq}
use text.Mathlib.TextEquality.{eq_iff}
use mathlib.Core.Option.{map as map_option}
use pbz.Common.{
  ℕ, zero, suc, ◌≡◌, refl, ap, ◌∙◌, ◌⊎◌, inl, inr, Bool, true, not, ◌&&◌, ◌||◌, List, [], ◌∷◌, map,
  Option, none, some, length, get_elem?, All, if◌then◌else◌, Bool-cases, Option-cases, and_true,
}
use pbz.Bench.Timing.{String}
use pbz.Bench.Program.{Classes, Texts}
use pbz.Bench.Wkt.{WktRun, bench_pair, parse_only, parse_block}
use pbz.Bench.Wkt.Table.{wkt_runs}
use pbz.Bench.Setup.Run.{
  done, WktLibrary, Locals, no_locals, run_statements, text_or_empty, wkt_locals, same_class,
}
use pbz.Bench.Setup.Table.{wkt_setup}
use pbz.Bench.Setup.Scope.{is_some, check_statements}
use pbz.Bench.Setup.Typed.{text_prepared, prepared_text, wkt_scope}
use pbz.Bench.Runs.Json.Complete.{Succeeds}
use pbz.Bench.Sizes.{SizeLine, print_sizes}
use pbz.Bench.Sizes.Table.{size_lines}
use pbz.Bench.Sizes.Variables.{lookup, other_variables, first_of, text_variables}

abbrev pub run_text : WktRun → String
run_text (bench_pair t name x j) = j
run_text (parse_only t name j) = j
run_text (parse_block t name j) = j

-- The two texts of the number value with an exponent.
abbrev pub is_unlisted : String → Bool
is_unlisted j =
    str_eq j "number_value_exponent_json" || str_eq j "any_number_value_exponent_wkt_json"

abbrev index_of : String → List SizeLine → Option ℕ
index_of j [] = none
index_of j ((label, variable) ∷ lines) =
    if str_eq variable j then some zero else map_option suc (index_of j lines)

later : (o : Option ℕ) → is_some (map_option suc o) ≡ true → is_some o ≡ true
later none h = h
later (some i) h = refl

-- The line of the output for a line of the table.
abbrev pub printed_line : (String → Option (List ℕ)) → SizeLine → String × ℕ
printed_line variables (label, x) = (label, length (text_or_empty (variables x)))

print_sizes-map :
    (variables : String → Option (List ℕ)) (lines : List SizeLine)
    → All (λ (line : SizeLine). Succeeds (variables line.1)) lines
    → print_sizes variables lines ≡ some (map (printed_line variables) lines)
unfolding print_sizes
print_sizes-map variables [] h = refl
print_sizes-map variables ((label, x) ∷ lines) ((text, e), h) =
    let rest = print_sizes-map variables lines h in rw (e, rest) refl

index_of-line :
    (j : String) (lines : List SizeLine) (variables : String → Option (List ℕ))
    → is_some (index_of j lines) ≡ true
    → (i : ℕ) × (label : String) × (get_elem? (map (printed_line variables) lines) i
        ≡ some (label, length (text_or_empty (variables j))))
index_of-line j [] variables h = absurd (cc)
index_of-line j ((label, x) ∷ lines) variables h = elim (Bool-cases (str_eq x j)) [
  | inl hit ↦ let same : x ≡ j = (eq_iff x j).0 hit in (zero, label, rw same refl)
  | inr miss ↦
      let (i, l, e) = index_of-line j lines variables (later (index_of j lines) (rw miss at h)) in
      (suc i, l, e)
]

clash : {A : Type 0} {o : Option A} {a : A} → not (is_some o) ≡ true → o ≡ some a → ⊥
clash h e = cc (rw e at h)

abbrev Variables : Type 0
Variables = List (String × List ℕ)

abbrev lines_in_scope : Variables → List SizeLine → Bool
lines_in_scope others [] = true
lines_in_scope others ((label, x) ∷ lines) =
    (is_some (lookup x others) || text_prepared x) && lines_in_scope others lines

abbrev run_listed : Variables → String → Bool
run_listed others j = is_some (index_of j size_lines) && not (is_some (lookup j others))

abbrev runs_listed : Variables → List WktRun → Bool
runs_listed others [] = true
runs_listed others (run ∷ runs) =
    (is_unlisted (run_text run) || run_listed others (run_text run)) && runs_listed others runs

module _ (c : Classes) (texts : Texts) where
  abbrev others : Variables
  others = other_variables c texts

  size_lines_in_scope : lines_in_scope others size_lines ≡ true
  unfolding wkt_scope check_statements same_class
  size_lines_in_scope = refl

  wkt_runs_listed : runs_listed others wkt_runs ≡ true
  wkt_runs_listed = refl

  module _ (lib : WktLibrary) (l : Locals lib)
      (ran : run_statements lib wkt_setup (no_locals lib) ≡ done l) where
    abbrev variables : String → Option (List ℕ)
    variables = text_variables c texts lib l

    variable_in_scope :
        (x : String)
        → (is_some (lookup x others) || text_prepared x) ≡ true
        → Succeeds (variables x)
    variable_in_scope x h = elim (Option-cases (lookup x others)) [
      | inl e ↦
          let (text, found) = prepared_text lib l ran x (rw e at h) in
          (text, ap (λ o. first_of o (l.texts x)) e ∙ found)
      | inr (text, e) ↦ (text, ap (λ o. first_of o (l.texts x)) e)
    ]

    all_in_scope :
        (lines : List SizeLine)
        → lines_in_scope others lines ≡ true
        → All (λ (line : SizeLine). Succeeds (variables line.1)) lines
    all_in_scope [] h = tt
    all_in_scope ((label, x) ∷ lines) h =
        let both = and_true (is_some (lookup x others) || text_prepared x) _ h in
        (variable_in_scope x both.0, all_in_scope lines both.1)

    -- The size of the run's text stands in the output.
    abbrev pub SizeListed : WktRun → Type 0
    SizeListed run =
        (i : ℕ) × (label : String) × (get_elem? (map (printed_line variables) size_lines) i
          ≡ some (label, length ((wkt_locals lib l).json (run_text run))))

    run-SizeListed : (run : WktRun) → run_listed others (run_text run) ≡ true → SizeListed run
    run-SizeListed run h =
        let both = and_true (is_some (index_of (run_text run) size_lines)) _ h in
        let (i, label, e) = index_of-line (run_text run) size_lines variables both.0 in
        elim (Option-cases (lookup (run_text run) others)) [
          | inl none_other ↦ (
            i,
            label,
            e
                ∙ ap
                    (λ o.
                      some (label, length (text_or_empty (first_of o (l.texts (run_text run))))))
                    none_other,
          )
          | inr (text, other) ↦ absurd (clash both.1 other)
        ]

    runs-SizeListed :
        (runs : List WktRun)
        → runs_listed others runs ≡ true
        → All (λ run. (is_unlisted (run_text run) ≡ true) ⊎ SizeListed run) runs
    runs-SizeListed [] h = tt
    runs-SizeListed (run ∷ runs) h =
        let both = and_true (is_unlisted (run_text run) || run_listed others (run_text run)) _ h in
        (
          elim (Bool-cases (is_unlisted (run_text run))) [
            | inl unlisted ↦ inl unlisted
            | inr listed ↦ inr (run-SizeListed run (rw listed at both.0))
          ],
          runs-SizeListed runs both.1,
        )

    -- After a setup of the well-known types that does not abort every size line is printed, with the
    -- length of its variable's text; and the size of the text of each run of a well-known type is among
    -- them, but for the runs on the two texts of the number value with an exponent.
    pub sizes_printed :
        (print_sizes variables size_lines ≡ some (map (printed_line variables) size_lines))
        × All (λ run. (is_unlisted (run_text run) ≡ true) ⊎ SizeListed run) wkt_runs
    sizes_printed = (
      print_sizes-map variables size_lines (all_in_scope size_lines size_lines_in_scope),
      runs-SizeListed wkt_runs wkt_runs_listed,
    )
