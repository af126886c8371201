-- ===== src/Bench/Setup/Payloads.antt =====
-- What the Any messages hold that the runs of the well-known types use.
use text.Mathlib.Text.{◌==◌}
use Prim.Native.String.{◌++◌}
use pbz.Common.{
  and_true, ℕ, zero, suc, ◌≡◌, refl, inl, inr, Bool, true, false, not, ◌&&◌, ◌||◌, List, [], ◌∷◌,
  some, get_elem?, All, Bool-cases,
}
use pbz.Bench.Timing.{String}
use pbz.Bench.Wkt.{WktType, WktRun, any, bench_pair, parse_only, parse_block}
use pbz.Bench.Wkt.Table.{wkt_runs}
use pbz.Bench.Setup.Run.{done, WktLibrary, Locals, run_statements, no_locals}
use pbz.Bench.Setup.Table.{wkt_setup}
use pbz.Bench.Setup.Printed.{not-true}
use pbz.Bench.Setup.Packed.{Packed, packs_last, packs_last-Packed}
use pbz.Bench.Setup.Prepared.{of_done}

-- The run `Any X WKT` is named for the run `X`; two runs have names of their own.
abbrev pub names_payload : String → String → Bool
names_payload name payload =
    name == ("Any " ++ payload ++ " WKT")
    || (name == "Any WKT" && payload == "Duration")
    || (name == "Nested Any WKT" && payload == "Any StringValue WKT")

-- The object `x` of a pair with the name `name` is a new Any, into which the object of the pair was packed
-- that the name stands for.
pub record HoldsPayload (lib : WktLibrary) (l : Locals lib) (runs : List WktRun) (name x : String)
    : Type 0 where
  pub index : ℕ
  pub class : WktType
  pub payload : String
  pub variable : String
  pub text : String
  pub run : get_elem? runs index ≡ some (bench_pair class payload variable text)
  pub named : names_payload name payload ≡ true
  pub packed : Packed lib x variable l

abbrev pub AnyHoldsPayload : (lib : WktLibrary) → Locals lib → WktRun → Type 0
AnyHoldsPayload lib l (bench_pair any name x j) = HoldsPayload lib l wkt_runs name x
AnyHoldsPayload lib l run = Unit

abbrev has_payload : String → String → List WktRun → Bool
has_payload name x [] = false
has_payload name x (bench_pair t payload y k ∷ runs) =
    (names_payload name payload && (not (x == y) && packs_last wkt_setup x y))
    || has_payload name x runs
has_payload name x (run ∷ runs) = has_payload name x runs

abbrev all_packed : List WktRun → Bool
all_packed [] = true
all_packed (bench_pair any name x j ∷ runs) = has_payload name x wkt_runs && all_packed runs
all_packed (run ∷ runs) = all_packed runs

wkt_runs-all_packed : all_packed wkt_runs ≡ true
wkt_runs-all_packed = refl

module _ (lib : WktLibrary) (l : Locals lib)
    (e : run_statements lib wkt_setup (no_locals lib) ≡ done l) where
  later :
      (run : WktRun) (runs : List WktRun) (name x : String)
      → HoldsPayload lib l runs name x
      → HoldsPayload lib l (run ∷ runs) name x
  later run runs name x h = record {
    index = suc h.index;
    class = h.class;
    payload = h.payload;
    variable = h.variable;
    text = h.text;
    run = h.run;
    named = h.named;
    packed = h.packed;
  }

  has_payload-HoldsPayload :
      (runs : List WktRun) (name x : String)
      → has_payload name x runs ≡ true
      → HoldsPayload lib l runs name x
  has_payload-HoldsPayload [] name x h = absurd (cc)
  has_payload-HoldsPayload (bench_pair t payload y k ∷ runs) name x h =
      elim (Bool-cases (names_payload name payload && (not (x == y) && packs_last wkt_setup x y))) [
        | inl found ↦
            let both = and_true (names_payload name payload) _ found in
            let last = and_true (not (x == y)) _ both.1 in
            record {
              index = zero;
              class = t;
              payload = payload;
              variable = y;
              text = k;
              run = refl;
              named = both.0;
              packed =
                  of_done (Packed lib x y) e (
                    packs_last-Packed lib x y (not-true _ last.0) wkt_setup (no_locals lib) last.1);
            }
        | inr not_found ↦
            later _ runs name x (has_payload-HoldsPayload runs name x (rw not_found at h))
      ]
  has_payload-HoldsPayload (parse_only t n j ∷ runs) name x h =
      later _ runs name x (has_payload-HoldsPayload runs name x h)
  has_payload-HoldsPayload (parse_block t n j ∷ runs) name x h =
      later _ runs name x (has_payload-HoldsPayload runs name x h)

  runs-AnyHoldPayload :
      (runs : List WktRun) → all_packed runs ≡ true → All (AnyHoldsPayload lib l) runs
  runs-AnyHoldPayload [] h = tt
  runs-AnyHoldPayload (bench_pair any name x j ∷ runs) h =
      let both = and_true (has_payload name x wkt_runs) _ h in
      (has_payload-HoldsPayload wkt_runs name x both.0, runs-AnyHoldPayload runs both.1)
  runs-AnyHoldPayload (run ∷ runs) h = (tt, runs-AnyHoldPayload runs h)

-- Where the setup of the well-known types ends without an abort, the Any of each benchmark pair `Any X WKT`
-- is, at that point, a new Any into which the message of the pair `X` was packed, with the value that it
-- still has: it was packed once, after the message was filled. The pair `Any WKT` holds the message of
-- `Duration`, and `Nested Any WKT` the Any of `Any StringValue WKT`.
pub wkt_setup-AnyHoldsPayload :
    (lib : WktLibrary) (l : Locals lib)
    → run_statements lib wkt_setup (no_locals lib) ≡ done l
    → All (AnyHoldsPayload lib l) wkt_runs
wkt_setup-AnyHoldsPayload lib l e = runs-AnyHoldPayload lib l e wkt_runs wkt_runs-all_packed
