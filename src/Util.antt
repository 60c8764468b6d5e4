-- ===== src/Util.antt =====
-- ssdb/src/util: byte strings, number conversion, buffers.
pub mod Number
pub mod Escape
pub mod Case
pub mod Endian
pub mod Bytes
pub mod Buffer
pub mod Decoder
pub mod Thread
pub mod Trim
pub mod Config
