-- ===== src/Binary.antt =====
-- include/reflgen/binary: the binary format, one module for each of its headers.
pub mod Wire
pub mod Writer
pub mod Reader
pub mod Varint
pub mod Safety
pub mod ScalarSkip
pub mod Skip
pub mod Scalars
pub mod Encoding
pub mod Writing
pub mod ReadCalls
pub mod Reading
pub mod Skipping
pub mod RoundTrip
pub mod ScalarTrip
