-- ===== src/Transmit.antt =====
-- daemons/transmit.c: how a code becomes the pulses and spaces that a driver sends.
pub mod Buffer
pub mod Encode
pub mod Send
mod Tests
