-- ===== src/Std.antt =====
-- What the source uses of Rust's standard library on text: decimal numbers, splitting, affixes.
pub mod Decimal
pub mod Split
pub mod Affix
pub mod Utf8
