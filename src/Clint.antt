-- ===== src/Clint.antt =====
-- The core-local interruptor: emulator/src/device/clint.c and emulator/include/device/clint.h.
pub mod Defs
pub mod Timer
pub mod Access
mod Tests
