-- ===== src/Bench/Setup/Table.antt =====
-- The statements of the setup of the well-known types in `main` of bench/cpp_protobuf/main.cc, in their
-- order.
pub mod Times
pub mod Structs
pub mod Numbers
pub mod Words
use pbz.Common.{List, ◌++◌}
use pbz.Bench.Setup.{Statement}
use pbz.Bench.Setup.Table.Times.{duration_setup, field_mask_setup, timestamp_setup}
use pbz.Bench.Setup.Table.Structs.{struct_setup, value_setup, list_setup}
use pbz.Bench.Setup.Table.Numbers.{double_setup, float_setup, int64_setup}
use pbz.Bench.Setup.Table.Words.{int32_setup, bool_setup, string_setup}

abbrev pub wkt_setup : List Statement
wkt_setup =
    duration_setup
    ++ (field_mask_setup
        ++ (timestamp_setup
            ++ (struct_setup
                ++ (value_setup
                    ++ (list_setup
                        ++ (double_setup
                            ++ (float_setup
                                ++ (int64_setup
                                    ++ (int32_setup ++ (bool_setup ++ (string_setup)))))))))))
