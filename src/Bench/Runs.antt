-- ===== src/Bench/Runs.antt =====
-- The groups of timed runs of `main` in bench/cpp_protobuf/main.cc. The protobuf library is not
-- part of the repository: a generated message class is a parameter, the record `Message`.
pub mod Prints
pub mod Packed
pub mod Mixed
pub mod Json
use pbz.Common.{ℕ, List, [], Option, some, length, replicate}
use pbz.Bench.Message.{Message, message_to_json_string, json_string_to_message}
use pbz.Bench.Timing.{String, BenchResult, World, Main, ◌>>=◌, ◌>>◌, print, run_timed}

-- `kIterations`.
abbrev pub iterations : ℕ
iterations = 20000

-- `std::string buffer; buffer.resize(n)`.
abbrev resized : ℕ → List ℕ
resized n = replicate n 0

module _ (clock : ℕ → ℕ) (M : Message) where
  open M use {
    Msg, new, clear, serialize_to_string, serialize_to_array, serialize_deterministic,
    parse_from_string,
  }

  -- A timed run, printed. What the body leaves behind is of no further use.
  unfoldable pub timed : {S : Type 0} → String → ℕ → ℕ → (S → Option S) → S → Main (Unit {0})
  timed name n size f s = do (r, _) ← run_timed clock name n size f s; print r

  -- `std::string out; out.reserve(...); message.SerializeToString(&out);`. The state is the string
  -- that the last call left.
  unfoldable pub encode : String → Msg → Main (Unit {0})
  unfolding timed
  encode name message =
      let bytes = serialize_to_string message in
      timed name iterations (length bytes) (λ (out : List ℕ). some (serialize_to_string message)) []

  -- `reused.clear(); message.SerializeToString(&reused);`.
  unfoldable pub encode_reuse : String → Msg → Main (Unit {0})
  unfolding timed
  encode_reuse name message =
      let bytes = serialize_to_string message in
      timed name iterations (length bytes) (λ (reused : List ℕ). some (serialize_to_string message))
        []

  unfoldable pub encode_array_reuse : String → Msg → Main (Unit {0})
  unfolding timed
  encode_array_reuse name message =
      let bytes = serialize_to_string message in
      timed name iterations (length bytes) (λ (buffer : List ℕ). serialize_to_array message buffer)
        (resized (length bytes))

  unfoldable pub encode_deterministic_reuse : String → Msg → Main (Unit {0})
  unfolding timed
  encode_deterministic_reuse name message =
      let bytes = serialize_to_string message in
      timed name iterations (length bytes)
        (λ (buffer : List ℕ). serialize_deterministic message buffer) (resized (length bytes))

  -- A new message for each call. The state is the message of the last call.
  unfoldable pub decode : String → Msg → Main (Unit {0})
  unfolding timed
  decode name message =
      let bytes = serialize_to_string message in
      timed name iterations (length bytes) (λ (decoded : Msg). parse_from_string bytes new) new

  -- `reused.Clear()`, then the parse into the same message.
  unfoldable pub decode_reuse : String → Msg → Main (Unit {0})
  unfolding timed
  decode_reuse name message =
      let bytes = serialize_to_string message in
      timed name iterations (length bytes)
        (λ (reused : Msg). parse_from_string bytes (clear reused)) new

  unfoldable pub json_stringify : String → ℕ → Msg → Main (Unit {0})
  unfolding timed
  json_stringify name size message =
      timed name iterations size (λ (out : List ℕ). message_to_json_string M message) []

  unfoldable pub json_parse : String → List ℕ → Main (Unit {0})
  unfolding timed
  json_parse name json =
      timed name iterations (length json) (λ (decoded : Msg). json_string_to_message M json new) new
