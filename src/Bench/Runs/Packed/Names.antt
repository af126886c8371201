-- ===== src/Bench/Runs/Packed/Names.antt =====
-- The names that `main` of bench/cpp_protobuf/main.cc prints for the packed messages.
use pbz.Common.{List, [], ◌∷◌, ◌++◌}
use pbz.Bench.Timing.{String}

-- The names of the results, in their order.
abbrev pub packed_names : List String
packed_names =
    "c++ protobuf packed encode" ∷ "c++ protobuf packed encode reuse"
    ∷ "c++ protobuf packed SerializeToArray reuse" ∷ "c++ protobuf packed decode"
    ∷ "c++ protobuf packed decode reuse" ∷ []

abbrev pub fixed_packed_names : List String
fixed_packed_names =
    "c++ protobuf fixed32 packed encode" ∷ "c++ protobuf fixed32 packed SerializeToArray reuse"
    ∷ "c++ protobuf fixed32 packed decode" ∷ "c++ protobuf fixed32 packed decode reuse" ∷ []

abbrev pub fixed64_packed_names : List String
fixed64_packed_names =
    "c++ protobuf fixed64 packed encode" ∷ "c++ protobuf fixed64 packed SerializeToArray reuse"
    ∷ "c++ protobuf fixed64 packed decode" ∷ "c++ protobuf fixed64 packed decode reuse" ∷ []

abbrev pub sfixed_packed_names : List String
sfixed_packed_names =
    "c++ protobuf sfixed32 packed encode" ∷ "c++ protobuf sfixed32 packed SerializeToArray reuse"
    ∷ "c++ protobuf sfixed32 packed decode" ∷ "c++ protobuf sfixed32 packed decode reuse" ∷ []

abbrev pub sfixed64_packed_names : List String
sfixed64_packed_names =
    "c++ protobuf sfixed64 packed encode" ∷ "c++ protobuf sfixed64 packed SerializeToArray reuse"
    ∷ "c++ protobuf sfixed64 packed decode" ∷ "c++ protobuf sfixed64 packed decode reuse" ∷ []

abbrev pub float_packed_names : List String
float_packed_names =
    "c++ protobuf float packed encode" ∷ "c++ protobuf float packed SerializeToArray reuse"
    ∷ "c++ protobuf float packed decode" ∷ "c++ protobuf float packed decode reuse" ∷ []

abbrev pub double_packed_names : List String
double_packed_names =
    "c++ protobuf double packed encode" ∷ "c++ protobuf double packed SerializeToArray reuse"
    ∷ "c++ protobuf double packed decode" ∷ "c++ protobuf double packed decode reuse" ∷ []

abbrev pub uint64_packed_names : List String
uint64_packed_names =
    "c++ protobuf uint64 packed encode" ∷ "c++ protobuf uint64 packed SerializeToArray reuse"
    ∷ "c++ protobuf uint64 packed decode" ∷ "c++ protobuf uint64 packed decode reuse" ∷ []

abbrev pub uint32_packed_names : List String
uint32_packed_names =
    "c++ protobuf uint32 packed encode" ∷ "c++ protobuf uint32 packed SerializeToArray reuse"
    ∷ "c++ protobuf uint32 packed decode" ∷ "c++ protobuf uint32 packed decode reuse" ∷ []

abbrev pub int64_packed_names : List String
int64_packed_names =
    "c++ protobuf int64 packed encode" ∷ "c++ protobuf int64 packed SerializeToArray reuse"
    ∷ "c++ protobuf int64 packed decode" ∷ "c++ protobuf int64 packed decode reuse" ∷ []

abbrev pub sint32_packed_names : List String
sint32_packed_names =
    "c++ protobuf sint32 packed encode" ∷ "c++ protobuf sint32 packed SerializeToArray reuse"
    ∷ "c++ protobuf sint32 packed decode" ∷ "c++ protobuf sint32 packed decode reuse" ∷ []

abbrev pub sint64_packed_names : List String
sint64_packed_names =
    "c++ protobuf sint64 packed encode" ∷ "c++ protobuf sint64 packed SerializeToArray reuse"
    ∷ "c++ protobuf sint64 packed decode" ∷ "c++ protobuf sint64 packed decode reuse" ∷ []

abbrev pub bool_packed_names : List String
bool_packed_names =
    "c++ protobuf bool packed encode" ∷ "c++ protobuf bool packed SerializeToArray reuse"
    ∷ "c++ protobuf bool packed decode" ∷ "c++ protobuf bool packed decode reuse" ∷ []

abbrev pub enum_packed_names : List String
enum_packed_names =
    "c++ protobuf enum packed encode" ∷ "c++ protobuf enum packed SerializeToArray reuse"
    ∷ "c++ protobuf enum packed decode" ∷ "c++ protobuf enum packed decode reuse" ∷ []

abbrev pub all_packed_names : List String
all_packed_names =
    packed_names
    ++ (fixed_packed_names
        ++ (fixed64_packed_names
            ++ (sfixed_packed_names
                ++ (sfixed64_packed_names
                    ++ (float_packed_names
                        ++ (double_packed_names
                            ++ (uint64_packed_names
                                ++ (uint32_packed_names
                                    ++ (int64_packed_names
                                        ++ (sint32_packed_names
                                            ++ (sint64_packed_names
                                                ++ (bool_packed_names
                                                    ++ (enum_packed_names)))))))))))))
