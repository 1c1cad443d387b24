-- ===== src/Wire.antt =====
-- Bytes on the bus and in memory: little-endian numbers, copies into buffers of a fixed size, and
-- the deserialisation calls of libcanard (src/libcanard/canard_dsdl.h), which are a parameter.
mod Bytes
mod Buffers
mod Reader
unfoldable pub use Bytes.*
unfoldable pub use Buffers.*
unfoldable pub use Reader.*
