-- ===== src/Bench.antt =====
-- bench/cpp_protobuf/main.cc: the C++ protobuf benchmark that pbz is compared with.
pub mod Unknown
pub mod LargeMap
pub mod Payloads
pub mod Makers
pub mod Timing
pub mod Message
pub mod Runs
pub mod Wkt
pub mod Search
pub mod Checks
pub mod Sizes
pub mod Setup
pub mod Program
pub mod Main
pub mod Toy
pub mod Examples
