-- ===== src/Stdlib/Printf.antt =====
-- stdlib/stdio_printf.c: formatted output.
pub mod Digits
pub mod Spec
pub mod Format
pub mod Numerals
pub mod Consumed
pub mod Ends
pub mod Fields
