-- ===== src/Bench/Toy.antt =====
-- A message class with the benchmark's calls, for the examples: a message is its serialized bytes.
pub mod Large
pub mod Printing
pub mod Passes
use pbz.Common.{
  ℕ, List, [], ◌∷◌, ◌++◌, Option, none, some, ◌==◌, if◌then◌else◌, length, ◌≡◌, refl, true, arith,
}
use pbz.Bench.Message.{Message}
use pbz.Bench.Payloads.{Repeated}
use pbz.Bench.Runs.Packed.{PackedClasses}
use pbz.Bench.Runs.Packed.Complete.{PackedContracts}
use pbz.Bench.Runs.Prints.{Contract}
use pbz.Bench.Runs.Mixed.Complete.{JsonContract}
use pbz.Wire.ZigZag.{ℤ, pos, negsuc}
use pbz.Common.{Bool, false}

abbrev fill : List ℕ → List ℕ → Option (List ℕ)
fill message buffer = if length buffer == length message then some message else none

abbrev pub bytes_class : Message
bytes_class = record {
  Msg = List ℕ;
  new = [];
  clear = λ m. [];
  serialize_to_string = λ m. m;
  serialize_to_array = fill;
  serialize_deterministic = fill;
  parse_from_string = λ bytes m. some (m ++ bytes);
  message_to_json_string_with = λ options m. some m;
  json_string_to_message_with = λ options json m. some (m ++ json);
  print_to_string = λ m. some m;
  parse_text = λ text m. some (m ++ text);
}

fill-same :
    (message buffer : List ℕ)
    → length buffer ≡ length message
    → (out : List ℕ) × (fill message buffer ≡ some out) × (length out ≡ length buffer)
fill-same message buffer h =
    let same : (length buffer == length message) ≡ true = ground arith in
    (message, rw same, omega arith)

pub bytes_class-Contract : (message : List ℕ) → Contract bytes_class message
bytes_class-Contract message = record {
  fills_array = fill-same message;
  fills_deterministic = fill-same message;
  clears = λ m. refl;
  parses = (message, refl);
}

pub bytes_class-JsonContract : (message : List ℕ) → JsonContract bytes_class message message
bytes_class-JsonContract message = record { prints = refl; parses = (message, refl) }

-- A value is appended by its code.
abbrev coded : {V : Type 0} → (V → ℕ) → Repeated V
coded code = record { message = bytes_class; add_values = λ v m. m ++ (code v ∷ []) }

abbrev pub int_code : ℤ → ℕ
int_code (pos n) = n
int_code (negsuc n) = n

abbrev pub bool_code : Bool → ℕ
bool_code true = 1
bool_code false = 0

abbrev pub numbers : Repeated ℕ
numbers = coded (λ v. v)

abbrev pub toy_classes : PackedClasses
toy_classes = record {
  packed = coded int_code;
  fixed_packed = numbers;
  fixed64_packed = numbers;
  sfixed_packed = coded int_code;
  sfixed64_packed = coded int_code;
  float_packed = numbers;
  double_packed = numbers;
  uint64_packed = numbers;
  uint32_packed = numbers;
  int64_packed = coded int_code;
  sint32_packed = coded int_code;
  sint64_packed = coded int_code;
  bool_packed = coded bool_code;
  enum_packed = numbers;
}

pub toy_classes-PackedContracts : PackedContracts toy_classes
toy_classes-PackedContracts = record {
  packed = bytes_class-Contract _;
  fixed_packed = bytes_class-Contract _;
  fixed64_packed = bytes_class-Contract _;
  sfixed_packed = bytes_class-Contract _;
  sfixed64_packed = bytes_class-Contract _;
  float_packed = bytes_class-Contract _;
  double_packed = bytes_class-Contract _;
  uint64_packed = bytes_class-Contract _;
  uint32_packed = bytes_class-Contract _;
  int64_packed = bytes_class-Contract _;
  sint32_packed = bytes_class-Contract _;
  sint64_packed = bytes_class-Contract _;
  bool_packed = bytes_class-Contract _;
  enum_packed = bytes_class-Contract _;
}
