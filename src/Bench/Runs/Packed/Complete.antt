-- ===== src/Bench/Runs/Packed/Complete.antt =====
-- The packed benchmarks run to their end.
use pbz.Common.{ℕ, [], ◌∷◌}
use pbz.Bench.Runs.Packed.Names.{
  packed_names, fixed_packed_names, fixed64_packed_names, sfixed_packed_names,
  sfixed64_packed_names, float_packed_names, double_packed_names, uint64_packed_names,
  uint32_packed_names, int64_packed_names, sint32_packed_names, sint64_packed_names,
  bool_packed_names, enum_packed_names, all_packed_names,
}
use pbz.Bench.Timing.{String, ◌>>◌}
use pbz.Bench.Message.{Message}
use pbz.Bench.Runs.{encode, encode_array_reuse, decode, decode_reuse}
use pbz.Bench.Runs.Prints.{
  Prints, Prints-seq, Contract, encode-Prints, encode_reuse-Prints, encode_array_reuse-Prints,
  decode-Prints, decode_reuse-Prints,
}
use pbz.Bench.Payloads.{
  make_packed, make_fixed_packed, make_fixed64_packed, make_sfixed_packed, make_sfixed64_packed,
  make_float_packed, make_double_packed, make_uint64_packed, make_uint32_packed, make_int64_packed,
  make_sint32_packed, make_sint64_packed, make_bool_packed, make_enum_packed,
}
use pbz.Bench.Runs.Packed.{
  PackedClasses, all_packed_runs, packed_runs, fixed_packed_runs, fixed64_packed_runs,
  sfixed_packed_runs, sfixed64_packed_runs, float_packed_runs, double_packed_runs,
  uint64_packed_runs, uint32_packed_runs, int64_packed_runs, sint32_packed_runs, sint64_packed_runs,
  bool_packed_runs, enum_packed_runs,
}

module _ (clock : ℕ → ℕ) (M : Message) (message : M.Msg) (contract : Contract M message) where
  -- The four runs of a packed message class.
  four_runs :
      (a b c d : String)
      → Prints
          (do
            encode clock M a message
            encode_array_reuse clock M b message
            decode clock M c message
            decode_reuse clock M d message)
          (a ∷ b ∷ c ∷ d ∷ [])
  four_runs a b c d = Prints-seq (a ∷ []) _ (encode-Prints clock M message contract a) (
      Prints-seq (b ∷ []) _ (encode_array_reuse-Prints clock M message contract b) (
        Prints-seq (c ∷ []) _ (decode-Prints clock M message contract c)
          (decode_reuse-Prints clock M message contract d)))

  packed_runs-Prints : Prints (packed_runs clock M message) packed_names
  unfolding packed_runs
  packed_runs-Prints =
      Prints-seq ("c++ protobuf packed encode" ∷ []) _ (encode-Prints clock M message contract _) (
        Prints-seq ("c++ protobuf packed encode reuse" ∷ []) _
          (encode_reuse-Prints clock M message contract _)
          (Prints-seq ("c++ protobuf packed SerializeToArray reuse" ∷ []) _
            (encode_array_reuse-Prints clock M message contract _)
            (Prints-seq ("c++ protobuf packed decode" ∷ []) _
              (decode-Prints clock M message contract _)
              (decode_reuse-Prints clock M message contract _))))

  fixed_packed_runs-Prints : Prints (fixed_packed_runs clock M message) fixed_packed_names
  unfolding fixed_packed_runs
  fixed_packed_runs-Prints = four_runs _ _ _ _

  fixed64_packed_runs-Prints : Prints (fixed64_packed_runs clock M message) fixed64_packed_names
  unfolding fixed64_packed_runs
  fixed64_packed_runs-Prints = four_runs _ _ _ _

  sfixed_packed_runs-Prints : Prints (sfixed_packed_runs clock M message) sfixed_packed_names
  unfolding sfixed_packed_runs
  sfixed_packed_runs-Prints = four_runs _ _ _ _

  sfixed64_packed_runs-Prints : Prints (sfixed64_packed_runs clock M message) sfixed64_packed_names
  unfolding sfixed64_packed_runs
  sfixed64_packed_runs-Prints = four_runs _ _ _ _

  float_packed_runs-Prints : Prints (float_packed_runs clock M message) float_packed_names
  unfolding float_packed_runs
  float_packed_runs-Prints = four_runs _ _ _ _

  double_packed_runs-Prints : Prints (double_packed_runs clock M message) double_packed_names
  unfolding double_packed_runs
  double_packed_runs-Prints = four_runs _ _ _ _

  uint64_packed_runs-Prints : Prints (uint64_packed_runs clock M message) uint64_packed_names
  unfolding uint64_packed_runs
  uint64_packed_runs-Prints = four_runs _ _ _ _

  uint32_packed_runs-Prints : Prints (uint32_packed_runs clock M message) uint32_packed_names
  unfolding uint32_packed_runs
  uint32_packed_runs-Prints = four_runs _ _ _ _

  int64_packed_runs-Prints : Prints (int64_packed_runs clock M message) int64_packed_names
  unfolding int64_packed_runs
  int64_packed_runs-Prints = four_runs _ _ _ _

  sint32_packed_runs-Prints : Prints (sint32_packed_runs clock M message) sint32_packed_names
  unfolding sint32_packed_runs
  sint32_packed_runs-Prints = four_runs _ _ _ _

  sint64_packed_runs-Prints : Prints (sint64_packed_runs clock M message) sint64_packed_names
  unfolding sint64_packed_runs
  sint64_packed_runs-Prints = four_runs _ _ _ _

  bool_packed_runs-Prints : Prints (bool_packed_runs clock M message) bool_packed_names
  unfolding bool_packed_runs
  bool_packed_runs-Prints = four_runs _ _ _ _

  enum_packed_runs-Prints : Prints (enum_packed_runs clock M message) enum_packed_names
  unfolding enum_packed_runs
  enum_packed_runs-Prints = four_runs _ _ _ _

-- What `main` relies on for the packed messages.
pub record PackedContracts (c : PackedClasses) : Type 0 where
  pub packed : Contract c.packed.message (make_packed c.packed)
  pub fixed_packed : Contract c.fixed_packed.message (make_fixed_packed c.fixed_packed)
  pub fixed64_packed : Contract c.fixed64_packed.message (make_fixed64_packed c.fixed64_packed)
  pub sfixed_packed : Contract c.sfixed_packed.message (make_sfixed_packed c.sfixed_packed)
  pub sfixed64_packed : Contract c.sfixed64_packed.message (make_sfixed64_packed c.sfixed64_packed)
  pub float_packed : Contract c.float_packed.message (make_float_packed c.float_packed)
  pub double_packed : Contract c.double_packed.message (make_double_packed c.double_packed)
  pub uint64_packed : Contract c.uint64_packed.message (make_uint64_packed c.uint64_packed)
  pub uint32_packed : Contract c.uint32_packed.message (make_uint32_packed c.uint32_packed)
  pub int64_packed : Contract c.int64_packed.message (make_int64_packed c.int64_packed)
  pub sint32_packed : Contract c.sint32_packed.message (make_sint32_packed c.sint32_packed)
  pub sint64_packed : Contract c.sint64_packed.message (make_sint64_packed c.sint64_packed)
  pub bool_packed : Contract c.bool_packed.message (make_bool_packed c.bool_packed)
  pub enum_packed : Contract c.enum_packed.message (make_enum_packed c.enum_packed)

-- Where the protobuf library keeps its contract for the fourteen packed messages, `main` comes through
-- all their runs without an abort, and prints their results in the order of the source.
pub all_packed_runs-Prints :
    (clock : ℕ → ℕ) (c : PackedClasses)
    → PackedContracts c
    → Prints (all_packed_runs clock c) all_packed_names
unfolding all_packed_runs
all_packed_runs-Prints clock c k =
    Prints-seq packed_names _
      (packed_runs-Prints clock c.packed.message (make_packed c.packed) k.packed)
      (Prints-seq fixed_packed_names _
        (fixed_packed_runs-Prints clock c.fixed_packed.message (make_fixed_packed c.fixed_packed)
          k.fixed_packed)
        (Prints-seq fixed64_packed_names _
          (fixed64_packed_runs-Prints clock c.fixed64_packed.message
            (make_fixed64_packed c.fixed64_packed) k.fixed64_packed)
          (Prints-seq sfixed_packed_names _
            (sfixed_packed_runs-Prints clock c.sfixed_packed.message
              (make_sfixed_packed c.sfixed_packed) k.sfixed_packed)
            (Prints-seq sfixed64_packed_names _
              (sfixed64_packed_runs-Prints clock c.sfixed64_packed.message
                (make_sfixed64_packed c.sfixed64_packed) k.sfixed64_packed)
              (Prints-seq float_packed_names _
                (float_packed_runs-Prints clock c.float_packed.message
                  (make_float_packed c.float_packed) k.float_packed)
                (Prints-seq double_packed_names _
                  (double_packed_runs-Prints clock c.double_packed.message
                    (make_double_packed c.double_packed) k.double_packed)
                  (Prints-seq uint64_packed_names _
                    (uint64_packed_runs-Prints clock c.uint64_packed.message
                      (make_uint64_packed c.uint64_packed) k.uint64_packed)
                    (Prints-seq uint32_packed_names _
                      (uint32_packed_runs-Prints clock c.uint32_packed.message
                        (make_uint32_packed c.uint32_packed) k.uint32_packed)
                      (Prints-seq int64_packed_names _
                        (int64_packed_runs-Prints clock c.int64_packed.message
                          (make_int64_packed c.int64_packed) k.int64_packed)
                        (Prints-seq sint32_packed_names _
                          (sint32_packed_runs-Prints clock c.sint32_packed.message
                            (make_sint32_packed c.sint32_packed) k.sint32_packed)
                          (Prints-seq sint64_packed_names _
                            (sint64_packed_runs-Prints clock c.sint64_packed.message
                              (make_sint64_packed c.sint64_packed) k.sint64_packed)
                            (Prints-seq bool_packed_names _
                              (bool_packed_runs-Prints clock c.bool_packed.message
                                (make_bool_packed c.bool_packed) k.bool_packed)
                              (enum_packed_runs-Prints clock c.enum_packed.message
                                (make_enum_packed c.enum_packed) k.enum_packed)))))))))))))
