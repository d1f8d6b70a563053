-- ===== src/Bus.antt =====
-- The bus and the list of devices: emulator/src/bus/bus.c and emulator/src/device/device.c.
pub mod Defs
pub mod Dispatch
pub mod Sample
mod Tests
