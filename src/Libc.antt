-- ===== src/Libc.antt =====
-- The C library of the user programs, kernel/userspace/libc.
pub mod Time
pub mod Malloc
pub mod Memory
mod Examples
