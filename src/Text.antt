-- ===== src/Text.antt =====
-- Rust's text operations that several parts use: numerals, trimming, splitting.
pub mod Radix
pub mod Slashes
