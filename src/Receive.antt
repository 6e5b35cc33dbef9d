-- ===== src/Receive.antt =====
-- daemons/receive.c and daemons/receive.h: what a receiver reads, and the codes in it.
pub mod Timeout
pub mod Buffer
pub mod Expect
pub mod Signal
pub mod Data
pub mod Serial
pub mod Fields
pub mod Raw
pub mod Decode
mod Tests
