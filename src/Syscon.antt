-- ===== src/Syscon.antt =====
-- The system controller: emulator/src/device/syscon.c and emulator/include/device/syscon.h.
pub mod Defs
pub mod Reboot
mod Tests
