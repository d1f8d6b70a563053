-- ===== src/Tlb.antt =====
-- The translation look-aside buffer: emulator/src/cpu/tlb.c and emulator/include/cpu/tlb.h.
pub mod Defs
pub mod Page
pub mod Coherence
pub mod History
mod Tests
