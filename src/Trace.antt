-- ===== src/Trace.antt =====
-- The trace utilities: emulator/src/utils/iringbuf.c.
pub mod Ring
pub mod Latest
mod Tests
