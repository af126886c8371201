-- ===== src/Bench/Checks/MixFacts.antt =====
-- What the checks of ScalarMix's texts establish.
use mathlib.Core.Path.{subst}
use pbz.Common.{◌∙◌, ℕ, ◌≡◌, List, some, false, ◌||◌}
use pbz.Wire.ZigZag.{pos, negsuc}
use pbz.Bench.Search.{lacks}
use pbz.Bench.Message.{message_to_json_string, json_string_to_message}
use pbz.Bench.Makers.{ScalarMixClass, bench_kind_beta}
use pbz.Bench.Checks.{ScalarMixReader}
use pbz.Bench.Checks.Mix.{
  open_enum_json, enum_name_json, proto_name_json, int_exponent_json, string_number_json,
  prepare_scalarmix_json, check_open_enum_json, check_enum_name_json, check_proto_name_json,
  check_int_exponent_json, check_string_number_json, values_differ, numbers_differ,
}
use pbz.Bench.Checks.Chain.{called, not_aborted, abort_if-some, or_false, eq_of_test, eq_of_testℤ}

module _ {S : ScalarMixClass} (r : ScalarMixReader S) where
  -- The parsed message has the values of the one that was printed.
  pub record SameValues (m decoded : S.Msg) : Type 0 where
    pub count : r.count decoded ≡ r.count m
    pub total : r.total decoded ≡ r.total m
    pub big_delta : r.big_delta decoded ≡ r.big_delta m
    pub kind : r.kind decoded ≡ r.kind m
    pub ids_size : r.ids_size decoded ≡ r.ids_size m

  pub record PrintsBack (m : S.Msg) (json : List ℕ) : Type 0 where
    pub prints : message_to_json_string S.message m ≡ some json
    pub decoded : S.Msg
    pub parses : json_string_to_message S.message json S.new ≡ some decoded
    pub same : SameValues m decoded

  -- The numbers that the exponent and the string forms of the text write.
  pub record Numbers (m : S.Msg) : Type 0 where
    pub count : r.count m ≡ pos 12345
    pub total : r.total m ≡ 9876543210
    pub delta : r.delta m ≡ negsuc 320
    pub big_delta : r.big_delta m ≡ negsuc 9876542
    pub checksum : r.checksum m ≡ 321
    pub token : r.token m ≡ 4096
    pub signed_fixed : r.signed_fixed m ≡ negsuc 123455
    pub signed_big_fixed : r.signed_big_fixed m ≡ negsuc 9876542
    pub ids_size : r.ids_size m ≡ 3
    pub ids : (r.ids m 0 ≡ 1) × (r.ids m 1 ≡ 127) × (r.ids m 2 ≡ 128)

  abbrev pub Reads : List ℕ → (S.Msg → Type 0) → Type 0
  Reads json P = (m : S.Msg) × (json_string_to_message S.message json S.new ≡ some m) × P m

  values_differ-SameValues :
      (m decoded : S.Msg) → values_differ r m decoded ≡ false → SameValues m decoded
  values_differ-SameValues m decoded h =
      let (rest5, last) = or_false h in
      let (rest4, ids_size) = or_false rest5 in
      let (rest3, kind) = or_false rest4 in
      let (rest2, big_delta) = or_false rest3 in
      let (count, total) = or_false rest2 in
      record {
        count = eq_of_testℤ _ _ count;
        total = eq_of_test _ _ total;
        big_delta = eq_of_testℤ _ _ big_delta;
        kind = eq_of_test _ _ kind;
        ids_size = eq_of_test _ _ ids_size;
      }

  numbers_differ-Numbers : (m : S.Msg) → numbers_differ r m ≡ false → Numbers m
  numbers_differ-Numbers m h =
      let (rest11, third) = or_false h in
      let (rest10, second) = or_false rest11 in
      let (rest9, first) = or_false rest10 in
      let (rest8, ids_size) = or_false rest9 in
      let (rest7, signed_big_fixed) = or_false rest8 in
      let (rest6, signed_fixed) = or_false rest7 in
      let (rest5, token) = or_false rest6 in
      let (rest4, checksum) = or_false rest5 in
      let (rest3, big_delta) = or_false rest4 in
      let (rest2, delta) = or_false rest3 in
      let (count, total) = or_false rest2 in
      record {
        count = eq_of_testℤ _ _ count;
        total = eq_of_test _ _ total;
        delta = eq_of_testℤ _ _ delta;
        big_delta = eq_of_testℤ _ _ big_delta;
        checksum = eq_of_test _ _ checksum;
        token = eq_of_test _ _ token;
        signed_fixed = eq_of_testℤ _ _ signed_fixed;
        signed_big_fixed = eq_of_testℤ _ _ signed_big_fixed;
        ids_size = eq_of_test _ _ ids_size;
        ids = (eq_of_test _ _ first, eq_of_test _ _ second, eq_of_test _ _ third);
      }

  -- The text that the setup prepares for ScalarMix is what the message prints, and is parsed to a message
  -- with its count, total, big_delta, kind and number of ids.
  pub prepare_scalarmix_json-PrintsBack :
      (m : S.Msg) (json : List ℕ) → prepare_scalarmix_json r m ≡ some json → PrintsBack m json
  unfolding prepare_scalarmix_json
  prepare_scalarmix_json-PrintsBack m json h =
      let (text, e, h1) = called (message_to_json_string S.message m) _ h in
      let (found, h2) =
        not_aborted
          (lacks text "\"bigDelta\":\"-9876543\""
            || lacks text "\"kind\":\"BENCH_KIND_BETA\""
            || lacks text "\"ids\":[\"1\",\"127\",\"128\"")
          h1 in
      let (decoded, p, h3) = called (json_string_to_message S.message text S.new) _ h2 in
      let (same, h4) = not_aborted (values_differ r m decoded) h3 in
      let same_text : text ≡ json = cc in
      record {
        prints = e ∙ h4;
        decoded = decoded;
        parses = subst (λ x. json_string_to_message S.message x S.new ≡ some decoded) same_text p;
        same = values_differ-SameValues m decoded same;
      }

  pub check_int_exponent_json-Reads :
      check_int_exponent_json r ≡ some tt → Reads int_exponent_json Numbers
  unfolding check_int_exponent_json
  check_int_exponent_json-Reads h =
      let (m, e, h1) = called (json_string_to_message S.message int_exponent_json S.new) _ h in
      (m, e, numbers_differ-Numbers m (abort_if-some _ h1))

  pub check_string_number_json-Reads :
      check_string_number_json r ≡ some tt → Reads string_number_json Numbers
  unfolding check_string_number_json
  check_string_number_json-Reads h =
      let (m, e, h1) = called (json_string_to_message S.message string_number_json S.new) _ h in
      (m, e, numbers_differ-Numbers m (abort_if-some _ h1))

  pub check_open_enum_json-Reads :
      check_open_enum_json r ≡ some tt → Reads open_enum_json (λ m. r.kind m ≡ 123)
  unfolding check_open_enum_json
  check_open_enum_json-Reads h =
      let (m, e, h1) = called (json_string_to_message S.message open_enum_json S.new) _ h in
      (m, e, eq_of_test _ _ (abort_if-some _ h1))

  pub check_enum_name_json-Reads :
      check_enum_name_json r ≡ some tt → Reads enum_name_json (λ m. r.kind m ≡ bench_kind_beta)
  unfolding check_enum_name_json
  check_enum_name_json-Reads h =
      let (m, e, h1) = called (json_string_to_message S.message enum_name_json S.new) _ h in
      (m, e, eq_of_test _ _ (abort_if-some _ h1))

  pub check_proto_name_json-Reads :
      check_proto_name_json r ≡ some tt → Reads proto_name_json (λ m. r.big_delta m ≡ negsuc 320)
  unfolding check_proto_name_json
  check_proto_name_json-Reads h =
      let (m, e, h1) = called (json_string_to_message S.message proto_name_json S.new) _ h in
      let (rest, big_fixed) = or_false (abort_if-some _ h1) in
      let (big_delta, fixed) = or_false rest in (m, e, eq_of_testℤ _ _ big_delta)
