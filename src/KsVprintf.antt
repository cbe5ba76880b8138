-- ===== src/KsVprintf.antt =====
-- kernel/boot/utl/printf.c: `ks_vprintf`, the formatted output of the boot stage, in 32 bits. Where the text of the
-- file is that of kernel/utl/printf.c, the definitions of Kvprinto stand for it: the character
-- classes, the flags, and how a conversion lays out its field.
pub mod Jumps
pub mod Machine
pub mod Numbers
pub mod Tables
pub mod Agree
pub mod Runs
mod Tests
