-- ===== src/Loader.antt =====
-- The program loader: emulator/src/memory/loader.c.
pub mod Defs
pub mod Checks
pub mod Entry
mod Tests
