-- ===== src/Kvprinto.antt =====
-- kernel/utl/printf.c: `kvprinto`, the formatted output of the kernel. Its children hold the
-- character classes, the jump tables, the number conversion, the fields and the loop.
pub mod Classes
pub mod Jumps
pub mod Itoa
pub mod Fields
pub mod Machine
pub mod Digits
pub mod Widths
pub mod ReadBack
pub mod Conversions
pub mod Runs
mod Tests
