-- ===== src/Boot.antt =====
-- The memory map on its way from the firmware to the kernel.
pub mod Mmap
mod Examples
