-- ===== src/Uart.antt =====
-- The UART: emulator/src/device/uart16550.c and emulator/include/device/uart16550.h.
pub mod Defs
pub mod Field
pub mod Fifo
pub mod Queue
pub mod Access
pub mod Interrupt
pub mod LineStatus
mod Tests
