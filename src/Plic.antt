-- ===== src/Plic.antt =====
-- The platform-level interrupt controller: emulator/src/device/plic.c and
-- emulator/include/device/plic.h.
pub mod Defs
pub mod Valid
pub mod Claim
pub mod Service
pub mod Decode
mod Tests
