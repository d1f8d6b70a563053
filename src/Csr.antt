-- ===== src/Csr.antt =====
-- The control and status registers: emulator/src/cpu/csr.c and emulator/include/cpu/csr.h.
pub mod Field
pub mod Masks
pub mod Defs
pub mod Access
pub mod Trap
pub mod Interrupt
pub mod Legal
pub mod Write
pub mod Guards
pub mod Warl
pub mod Bitwise
pub mod Return
pub mod Delegation
pub mod Masking
pub mod Counters
pub mod Reach
mod Tests
