-- ===== src/Codes.antt =====
-- daemons/ir_remote.c: which button a received code is, and what a remote remembers of it.
pub mod Lookup
pub mod Mapping
pub mod Match
pub mod Decode
pub mod Dispatch
mod Tests
