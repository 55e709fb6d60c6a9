-- ===== src/Text.antt =====
-- Rust's `String` and `str`, as far as the crates use them. A text is the list of its characters,
-- each a Unicode scalar value; its UTF-8 bytes are in `Utf8`.
pub mod Utf8
pub mod Utf8Laws
pub mod Format
pub mod Trim
pub mod TrimLaws
pub mod Search
pub mod Parse
pub mod Decimal
pub mod Lines
