-- ===== src/Bench/Checks/SmallFacts.antt =====
-- What the checks of the other texts establish.
use pbz.Common.{ℕ, ◌≡◌, sym, ap, ◌∙◌, List, Option, some, Bool}
use pbz.Bench.Message.{default_parse, message_to_json_string, json_string_to_message}
use pbz.Bench.Program.{LargeMapClass}
use pbz.Bench.Makers.{PersonClass, TextBytesClass, PresenceMixClass, ComplexClass}
use pbz.Bench.Runs.Mixed.Complete.{JsonContract}
use pbz.Bench.Runs.Json.Complete.{Parses, Succeeds}
use pbz.Bench.Runs.Json.{ignore_unknown_json_options, proto_name_json_options}
use pbz.Bench.Checks.{
  PersonReader, TextBytesReader, PresenceMixReader, ComplexReader, LargeMapReader, ◌>>=◌,
}
use pbz.Bench.Checks.Small.{
  check_same, textbytes_differ, ignore_unknown_json, check_ignore_unknown_json,
  prepare_textbytes_json, prepare_presencemix_json, prepare_complex_proto_name_json,
  prepare_large_map_json,
}
use pbz.Bench.Checks.{abort_if}
use pbz.Bench.Checks.Chain.{called, not_aborted}

-- A text that is printed and parsed, with checks in between and after, and returned.
checked :
    {A : Type 0} (o : Option (List ℕ)) (test : List ℕ → Bool) (parse : List ℕ → Option A)
    (rest : List ℕ → A → Option (List ℕ)) (json : List ℕ)
    → (o >>= λ text. (abort_if (test text) >>= λ u. (parse text >>= λ a. rest text a))) ≡ some json
    → ((text : List ℕ) (a : A) → rest text a ≡ some json → text ≡ json)
    → (o ≡ some json) × Succeeds (parse json)
checked o test parse rest json h same =
    let (text, e, h1) = called o _ h in
    let (passed, h2) = not_aborted (test text) h1 in
    let (a, p, h3) = called (parse text) _ h2 in
    let same_text = same text a h3 in (e ∙ ap some same_text, (a, ap parse (sym same_text) ∙ p))

-- The last check, and the text.
last_check :
    {text json : List ℕ} (test : Bool)
    → (abort_if test >>= λ u. some text) ≡ some json
    → text ≡ json
last_check test h = let (passed, e) = not_aborted test h in cc

last_checks :
    {text json : List ℕ} (test : Bool) (tags chunks : Option (Unit {0}))
    → (abort_if test >>= λ u. (tags >>= λ v. (chunks >>= λ w. some text))) ≡ some json
    → text ≡ json
last_checks test tags chunks h =
    let (passed, h1) = not_aborted test h in
    let (v, e, h2) = called tags _ h1 in let (w, e', h3) = called chunks _ h2 in cc

module _ {P : PersonClass} (r : PersonReader P) where
  pub check_ignore_unknown_json-Parses :
      check_ignore_unknown_json r ≡ some tt
      → Parses P.message ignore_unknown_json_options ignore_unknown_json
  unfolding check_ignore_unknown_json
  check_ignore_unknown_json-Parses h =
      let (m, e, h1) =
        called
          (P.message.json_string_to_message_with ignore_unknown_json_options ignore_unknown_json
            P.new)
          _ h in
      (m, e)

module _ {T : TextBytesClass} (r : TextBytesReader T) where
  pub prepare_textbytes_json-JsonContract :
      (m : T.Msg) (json : List ℕ)
      → prepare_textbytes_json r m ≡ some json
      → JsonContract T.message m json
  unfolding prepare_textbytes_json
  prepare_textbytes_json-JsonContract m json h =
      let (e, p) =
        checked (message_to_json_string T.message m) _
          (λ text. json_string_to_message T.message text T.new) _ json h
          (λ text a.
            last_checks (textbytes_differ r m a)
              (check_same (r.tags a) (r.tags m) (r.tags_size m) 0)
              (check_same (r.chunks a) (r.chunks m) (r.chunks_size m) 0)) in
      record { prints = e; parses = p }

module _ {P : PresenceMixClass} (r : PresenceMixReader P) where
  pub prepare_presencemix_json-JsonContract :
      (m : P.Msg) (json : List ℕ)
      → prepare_presencemix_json r m ≡ some json
      → JsonContract P.message m json
  unfolding prepare_presencemix_json
  prepare_presencemix_json-JsonContract m json h =
      let (e, p) =
        checked (message_to_json_string P.message m) _
          (λ text. json_string_to_message P.message text P.new) _ json h (λ text a. last_check _) in
      record { prints = e; parses = p }

module _ {C : ComplexClass} (r : ComplexReader C) where
  pub prepare_complex_proto_name_json-Parses :
      (m : C.Msg) (json : List ℕ)
      → prepare_complex_proto_name_json r m ≡ some json
      → Parses C.message default_parse json
  unfolding prepare_complex_proto_name_json
  prepare_complex_proto_name_json-Parses m json h =
      let (e, p) =
        checked (C.message.message_to_json_string_with proto_name_json_options m) _
          (λ text. json_string_to_message C.message text C.new) _ json h (λ text a. last_check _) in
      p

module _ {L : LargeMapClass} (r : LargeMapReader L) where
  pub prepare_large_map_json-JsonContract :
      (m : L.Msg) (json : List ℕ)
      → prepare_large_map_json r m ≡ some json
      → JsonContract L.message m json
  unfolding prepare_large_map_json
  prepare_large_map_json-JsonContract m json h =
      let (e, p) =
        checked (message_to_json_string L.message m) _
          (λ text. json_string_to_message L.message text L.new) _ json h (λ text a. last_check _) in
      record { prints = e; parses = p }
