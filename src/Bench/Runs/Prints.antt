-- ===== src/Bench/Runs/Prints.antt =====
-- Runs that complete and print their results.
use pbz.Common.{
  ℕ, ◌+◌, ◌*◌, ◌≡◌, refl, ◌∙◌, List, [], ◌∷◌, ◌++◌, append_assoc, map, length, length-append,
  length-replicate, Option, some, arith,
}
use mathlib.Core.List.{map-append}
use pbz.Bench.Timing.{String, BenchResult, World, Main, ◌>>=◌, ◌>>◌, print}
use pbz.Bench.Timing.Laws.{KeepsGoing, run_timed_completes, after_readings, timed_result}
use pbz.Bench.Message.{Message}
use pbz.Bench.Runs.{
  timed, encode, encode_reuse, encode_array_reuse, encode_deterministic_reuse, decode, decode_reuse,
}

abbrev pub names : List BenchResult → List String
names rs = map (λ r. r.name) rs

-- From every state `m` runs to its end, prints results of the given names in this order behind what
-- was printed before, and reads the clock six times for each.
pub record Prints (m : Main (Unit {0})) (ns : List String) : Type 0 where
  pub at :
      (w : World)
      → (w' : World) × (m w ≡ some (tt, w'))
        × (names w'.printed ≡ names w.printed ++ ns)
        × (w'.readings ≡ w.readings + 6 * length ns)

pub Prints-seq :
    {m k : Main (Unit {0})} (ns ms : List String)
    → Prints m ns
    → Prints k ms
    → Prints (m >> k) (ns ++ ms)
Prints-seq {m} {k} ns ms pm pk = record {
  at = λ w.
      let (w1, e1, n1, r1) = pm.at w in
      let (w2, e2, n2, r2) = pk.at w1 in
      (
        w2,
        rw (e1, ◌>>=◌) e2,
        n2 ∙ rw n1 (append_assoc (names w.printed) ns ms),
        omega (arith, length-append ns ms),
      );
}

-- What the benchmark relies on for one of its messages.
pub record Contract (M : Message) (message : M.Msg) : Type 0 where
  -- A buffer of exactly the serialized size is filled.
  pub fills_array :
      (buffer : List ℕ)
      → length buffer ≡ length (M.serialize_to_string message)
      → (out : List ℕ) × (M.serialize_to_array message buffer ≡ some out)
        × (length out ≡ length buffer)
  pub fills_deterministic :
      (buffer : List ℕ)
      → length buffer ≡ length (M.serialize_to_string message)
      → (out : List ℕ) × (M.serialize_deterministic message buffer ≡ some out)
        × (length out ≡ length buffer)
  -- A cleared message is a new one, and a new message parses what the library serialized.
  pub clears : (m : M.Msg) → M.clear m ≡ M.new
  pub parses : (m : M.Msg) × (M.parse_from_string (M.serialize_to_string message) M.new ≡ some m)

module _ (clock : ℕ → ℕ) (M : Message) where
  pub timed-Prints :
      {S : Type 0} (name : String) (n size : ℕ) (f : S → Option S) (s : S) (P : S → Type 0)
      → KeepsGoing f P
      → P s
      → Prints (timed clock M name n size f s) (name ∷ [])
  unfolding timed print
  timed-Prints name n size f s P keep h = record {
    at = λ w.
        let (s', e, _) = run_timed_completes clock name n size f s w P keep h in
        let done = after_readings clock w in
        let r = timed_result clock name n size w.readings in
        (
          record done { printed = w.printed ++ (r ∷ []) },
          rw (e, ◌>>=◌),
          map-append (λ (b : BenchResult). b.name) w.printed (r ∷ []),
          omega arith,
        );
  }

  module _ (message : M.Msg) (contract : Contract M message) where
    abbrev HasSize : List ℕ → Type 0
    HasSize buffer = length buffer ≡ length (M.serialize_to_string message)

    pub encode-Prints : (name : String) → Prints (encode clock M name message) (name ∷ [])
    unfolding encode
    encode-Prints name =
        timed-Prints name _ _ _ [] (λ out. Unit {0})
          (λ s h. (M.serialize_to_string message, refl, tt)) tt

    pub encode_reuse-Prints :
        (name : String) → Prints (encode_reuse clock M name message) (name ∷ [])
    unfolding encode_reuse
    encode_reuse-Prints name =
        timed-Prints name _ _ _ [] (λ out. Unit {0})
          (λ s h. (M.serialize_to_string message, refl, tt)) tt

    pub encode_array_reuse-Prints :
        (name : String) → Prints (encode_array_reuse clock M name message) (name ∷ [])
    unfolding encode_array_reuse
    encode_array_reuse-Prints name =
        timed-Prints name _ _ _ _ HasSize
          (λ buffer h. let (out, e, same) = contract.fills_array buffer h in (out, e, same ∙ h))
          (length-replicate (length (M.serialize_to_string message)) 0)

    pub encode_deterministic_reuse-Prints :
        (name : String) → Prints (encode_deterministic_reuse clock M name message) (name ∷ [])
    unfolding encode_deterministic_reuse
    encode_deterministic_reuse-Prints name =
        timed-Prints name _ _ _ _ HasSize
          (λ buffer h.
            let (out, e, same) = contract.fills_deterministic buffer h in (out, e, same ∙ h))
          (length-replicate (length (M.serialize_to_string message)) 0)

    pub decode-Prints : (name : String) → Prints (decode clock M name message) (name ∷ [])
    unfolding decode
    decode-Prints name =
        timed-Prints name _ _ _ _ (λ m. Unit {0})
          (λ s h. let (m, e) = contract.parses in (m, e, tt)) tt

    -- The reused message is cleared in each round, so each parse starts from a new message.
    pub decode_reuse-Prints :
        (name : String) → Prints (decode_reuse clock M name message) (name ∷ [])
    unfolding decode_reuse
    decode_reuse-Prints name =
        timed-Prints name _ _ _ _ (λ m. Unit {0})
          (λ s h. let (m, e) = contract.parses in (m, rw (contract.clears s) e, tt)) tt
