-- ===== src/Serialize.antt =====
-- src/hserialize.h: the templates that serialize data to a stream, and the stream itself.
pub mod Stream
pub mod Bytes
pub mod CompactSize
pub mod VarInt
pub mod DataStream
pub mod Codec
pub mod Array
pub mod Containers
pub mod RoundTrip
mod Tests
