-- ===== src/Memory.antt =====
-- The memory: emulator/src/memory/memory.c, emulator/include/utils/address_range.h and
-- emulator/src/device/bootROM.c.
pub mod Defs
pub mod Access
mod Tests
