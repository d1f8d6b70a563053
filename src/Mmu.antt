-- ===== src/Mmu.antt =====
-- Address translation: emulator/src/cpu/mmu.c and emulator/include/cpu/mmu.h.
pub mod Defs
pub mod Permission
pub mod Walk
pub mod Translate
mod Tests
