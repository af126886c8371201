-- ===== src/Bench/Checks.antt =====
-- The checks that `main` of bench/cpp_protobuf/main.cc makes of its JSON texts before it times anything: what
-- a text contains, and what is read from the message that it is parsed to. `none` is `std::abort`. A getter
-- is a function of the message; one of a missing map key is `none`, an exception in the source, which ends
-- the program like an abort.
pub mod Mix
pub mod Small
pub mod Chain
pub mod MixFacts
pub mod SmallFacts
use text.Mathlib.Text.{◌==◌ as str_eq}
use pbz.Common.{
  ℕ, zero, suc, ◌+◌, List, [], ◌∷◌, Option, none, some, Bool, true, false, not, ◌&&◌, ◌||◌, ◌==◌,
}
use pbz.Wire.ZigZag.{ℤ, pos, negsuc}
use pbz.Bench.Timing.{String}
use pbz.Bench.Search.{codes, lacks}
use pbz.Bench.Message.{
  Message, JsonParseOptions, default_print, default_parse, message_to_json_string,
  json_string_to_message,
}
use pbz.Bench.Program.{LargeMapClass}
use pbz.Bench.Makers.{PersonClass, ScalarMixClass, TextBytesClass, PresenceMixClass, ComplexClass}
use pbz.Bench.Runs.Json.{
  always_print_json_options, proto_name_json_options, enum_number_json_options,
  ignore_unknown_json_options,
}

infixl 5 ◌>>=◌ ◌>>◌
abbrev pub ◌>>=◌ : {A B : Type 0} → Option A → (A → Option B) → Option B
none >>= f = none
some a >>= f = f a

abbrev pub ◌>>◌ : {B : Type 0} → Option (Unit {0}) → Option B → Option B
m >> k = m >>= λ _. k

-- `if (test) std::abort();`.
abbrev pub abort_if : Bool → Option (Unit {0})
abort_if true = none
abort_if false = some tt

infix 50 ◌!=◌ ◌!=ℤ◌ ◌!=str◌
abbrev pub ◌!=◌ : ℕ → ℕ → Bool
a != b = not (a == b)

abbrev pub ◌!=ℤ◌ : ℤ → ℤ → Bool
pos a !=ℤ pos b = a != b
negsuc a !=ℤ negsuc b = a != b
a !=ℤ b = true

abbrev pub ◌!=str◌ : String → String → Bool
a !=str b = not (str_eq a b)

-- `map.at(key) != value`.
abbrev pub at_differs : Option ℤ → ℤ → Bool
at_differs none b = true
at_differs (some a) b = a !=ℤ b

pub record PersonReader (P : PersonClass) : Type 0 where
  pub id : P.Msg → ℤ
  pub name : P.Msg → String
  pub scores_size : P.Msg → ℕ
  pub scores : P.Msg → ℕ → ℤ
  pub counts_size : P.Msg → ℕ
  pub counts_at : P.Msg → String → Option ℤ

pub record ScalarMixReader (S : ScalarMixClass) : Type 0 where
  pub count : S.Msg → ℤ
  pub total : S.Msg → ℕ
  pub delta : S.Msg → ℤ
  pub big_delta : S.Msg → ℤ
  pub checksum : S.Msg → ℕ
  pub token : S.Msg → ℕ
  pub signed_fixed : S.Msg → ℤ
  pub signed_big_fixed : S.Msg → ℤ
  pub kind : S.Msg → ℕ
  pub ids_size : S.Msg → ℕ
  pub ids : S.Msg → ℕ → ℕ

pub record TextBytesReader (T : TextBytesClass) : Type 0 where
  pub title : T.Msg → String
  pub payload : T.Msg → String
  pub tags_size : T.Msg → ℕ
  pub tags : T.Msg → ℕ → String
  pub chunks_size : T.Msg → ℕ
  pub chunks : T.Msg → ℕ → String

pub record PresenceMixReader (P : PresenceMixClass) : Type 0 where
  pub has_count : P.Msg → Bool
  pub count : P.Msg → ℤ
  pub has_note : P.Msg → Bool
  pub note : P.Msg → String
  pub raw : P.Msg → String
  pub has_child : P.Msg → Bool
  pub child : P.Msg → P.Child
  pub has_nested : P.Msg → Bool
  pub nested : P.Msg → P.Child
  pub id : P.Child → ℤ
  pub label : P.Child → String

pub record ComplexReader (C : ComplexClass) : Type 0 where
  pub has_audit_subject : C.Msg → Bool
  pub audit_subject : C.Msg → C.Audit
  pub has_audit : C.Msg → Bool
  pub audit : C.Msg → C.Audit
  pub audits_size : C.Msg → ℕ
  pub audits_at : C.Msg → String → Option C.Audit
  pub actor : C.Audit → String
  pub at_unix : C.Audit → ℤ

pub record LargeMapReader (L : LargeMapClass) : Type 0 where
  pub counts_size : L.Msg → ℕ
  pub counts_at : L.Msg → L.Key → Option ℤ
