-- ===== src/Crypto.antt =====
-- The encodings of bytes as text: crypto.
pub mod UrlEncode
pub mod Hex
mod Tests
