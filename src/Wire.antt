-- ===== src/Wire.antt =====
-- src/wire.zig: the protobuf wire format.
pub mod Result
pub mod Tag
pub mod Varint
pub mod ZigZag
pub mod Reader
pub mod Hot
pub mod Group
pub mod Heap
pub mod Raw
pub mod Writer
pub mod Packed
pub mod Examples
