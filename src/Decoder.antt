-- ===== src/Decoder.antt =====
-- pkg/decoder: the loader's decoder of map keys, values and ring buffer records.
pub mod Types
pub mod Decode
pub mod Format
pub mod RoundTrip
pub mod Typedef
pub mod Struct
pub mod AnyBytes
pub mod Truncated
mod Tests
