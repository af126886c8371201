-- ===== src/Bench/Toy/Large.antt =====
-- A class of the message of large bytes whose message is the payload and the chunks beside each other.
use pbz.Common.{ℕ, refl, List, [], ◌∷◌, ◌++◌, none}
use pbz.Bench.Makers.{LargeBytesClass}
use pbz.Bench.Makers.Large.{Reads}

-- The payload and the chunks beside each other.
abbrev pub paired_largebytes : LargeBytesClass
paired_largebytes = record {
  message = record {
    Msg = List ℕ × List (List ℕ);
    new = ([], []);
    clear = λ m. ([], []);
    serialize_to_string = λ m. m.0;
    serialize_to_array = λ m buffer. none;
    serialize_deterministic = λ m buffer. none;
    parse_from_string = λ bytes m. none;
    message_to_json_string_with = λ options m. none;
    json_string_to_message_with = λ options json m. none;
    print_to_string = λ m. none;
    parse_text = λ text m. none;
  };
  set_payload = λ p m. (p, m.1);
  add_chunks = λ c m. (m.0, m.1 ++ (c ∷ []));
}

abbrev pub paired_payload : List ℕ × List (List ℕ) → List ℕ
paired_payload m = m.0

abbrev pub paired_chunks : List ℕ × List (List ℕ) → List (List ℕ)
paired_chunks m = m.1

pub paired_largebytes-Reads : Reads paired_largebytes paired_payload paired_chunks
paired_largebytes-Reads = record {
  new = refl;
  payload-set = λ p m. refl;
  chunks-set = λ p m. refl;
  payload-add = λ c m. refl;
  chunks-add = λ c m. refl;
}
