-- ===== src/Libc.antt =====
-- The parts of the C library that the kernel uses (libc).
pub mod Strings
pub mod Print
