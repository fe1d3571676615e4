-- ===== src/Net.antt =====
-- What the network protocols share.
pub mod Csum
pub mod Buf
pub mod Tcp
pub mod Udp
pub mod Arp
