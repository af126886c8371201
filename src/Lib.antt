-- ===== src/Lib.antt =====
-- A model of the core of pbz, a protobuf library, and of the C++ benchmark that stands beside it.
--
-- Wire models src/wire.zig, the wire format that all of pbz's encoders and decoders share:
--   Wire/Result: `Error`, and a failing function's result.
--   Wire/Tag: `WireType`, `Tag`, `Tag.encode`, `Tag.decode`.
--   Wire/Varint: `encodedVarintSize`, `writeVarintToBuffer` and the writers into a slice,
--     `readVarintAt`. The unrolled tests of a writer are the recursion `ladder` on the tests that are
--     left, those of the reader a recursion on the shifts that are left.
--   Wire/ZigZag: `zigZagEncode32`, `zigZagDecode32`, `zigZagEncode64`, `zigZagDecode64`.
--   Wire/Reader: `Reader`: `nextTag`, `readBytes`, `skipValue` and `skipGroup`, which call each other. A
--     method takes the reader and returns a result and the reader after the call. The fuel of a
--     group's loop is one more than the bytes of the input; each round takes a byte.
--   Wire/Group: `tagSize`, `Reader.readGroupBytes`.
--   Wire/Hot: `readBoolAt`, `readUInt32At`, `readInt32At`, `readSInt32At`.
--   Wire/Reader/Scalars: the scalar readers of `Reader`.
--   Wire/Writer: `Writer` and its field writers, Wire/Writer/Assume those that assume capacity. A
--     growth of the list of bytes may find no memory.
--   Wire/Packed: `nextPackedVarintSegment`, `nextPackedVarint` and `packedUInt64FieldIterator`. A round of
--     a loop takes a byte of what is left, so fuel for its length is enough.
--   Wire/Heap: the allocator, which may run out of memory at any call.
--   Wire/Raw: raw unknown fields. `rawFieldNumber`, `rawFieldCountByNumber`, `validateRawField`;
--     Wire/Raw/Numbers has the sidecars of numbers and runs, Wire/Raw/Matcher `RawFieldNumberMatcher`
--     and the queries on it, Wire/Raw/Store the slices and their owner (`cloneRawFields`,
--     `appendRawFieldsClone`, `clearRawFieldsByNumber`). A function that allocates returns its outcome,
--     the slice behind its pointer and the heap. The loop over the numbers has fuel for their length, the
--     binary search for one round more than the runs.
-- A byte is a number below 256, a `u32` or `u64` one below 2 ^ 32 or 2 ^ 64, an `i32` or `i64` its bit
-- pattern. A slice is a list; an index that a function changes is returned beside its result. A write
-- beyond the end of a buffer, a panic in the source, is dropped.
--
-- Bench models bench/cpp_protobuf/main.cc, which times the C++ protobuf library on the messages that
-- pbz's own benchmark uses:
--   Bench/Timing: `BenchResult` and `RunTimed`. A body is a function of the variables that it captures
--     and may abort; the world holds the number of clock readings and the printed results.
--   Bench/Unknown: `AppendVarint`, `MakeUnknownFieldPayload`, `UnknownFieldCountByNumber`. The loop of
--     `AppendVarint` has fuel for ten rounds, the most that a `uint64_t` needs.
--   Bench/LargeMap: `MakeLargeMap`, `ShuffledLargeMapIndex`, `MakeShuffledLargeMap`. The key text that
--     `snprintf` prints is a parameter.
--   Bench/Payloads: `MakePacked` to `MakeEnumPacked`.
--   Bench/Makers: `MakePerson`, `MakeScalarMix`, `MakeTextBytes`, `MakeLargeBytes`, `MakePresenceMix`
--     and `MakeComplex`. A class is a record of the setters that its maker calls.
--   Bench/Message, Bench/Runs: the groups of runs in `main`. The protobuf library is a parameter: the
--     record `Message` holds the calls of a generated class, and `Contract`, `JsonContract` and
--     `TextContract` say what the benchmark relies on. Bench/Toy has instances for the examples.
--   Bench/Wkt: the JSON runs of the well-known types, as tables of the calls in their order.
--   Bench/Program: the timed part of `main` as a whole, on any texts and variables.
--   Bench/Setup: the setup of the well-known types, lines 671 to 1287, as data: a list of statements on
--     the variables of `main`. Bench/Setup/Run runs them; a statement that the C++ compiler refuses ends
--     in `ill_typed`. A pointer to a part of a message is given by its place in the message. Bench/Setup/Scope
--     is a static checker of the statements. That a name is declared once is not looked at.
--   Bench/Search, Bench/Checks: `std::string::find`, and the checks that `main` makes of its JSON texts:
--     Checks/Mix those of ScalarMix, Checks/Small those of the other messages. The getters are parameters.
--   Bench/Main: `main`: the setup in its order, which an abort ends, then the timed part on what it leaves.
--     Main/Contracts has what it relies on of the protobuf library.
--   Bench/Sizes: the payload sizes that `main` prints between the two, as a table of labels and variables.
--     They are no results of `RunTimed`, so `main` leaves them out.
-- `AppendVarint` and `writeVarintToBuffer` meet in Bench/Unknown/Laws: they store the same bytes.
--
-- Not modelled: of src/wire.zig the packed fields of fixed width and the iterator that decodes short
-- 32-bit varints in place, the growable lists of raw fields and their deterministic order, and the rest
-- of its Writer and Reader; the schema parser, the JSON and text formats, the descriptors, reflection, and
-- the code generator under src, which stand on the wire format; in the benchmark the heading that `main`
-- prints first, and the floating-point rates that `BenchResult::Print` derives.
pub mod Common
pub mod Wire
pub mod Bench
