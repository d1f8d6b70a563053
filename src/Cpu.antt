-- ===== src/Cpu.antt =====
-- The CPU core: emulator/src/cpu/cpu.c, emulator/src/cpu/cpu_exec.c and their headers.
pub mod Int
pub mod Arith
pub mod Inst
pub mod Patterns
pub mod Dispatch
pub mod Division
pub mod Extend
pub mod Unique
pub mod Listed
pub mod Meaning
pub mod Decode
pub mod Immediate
pub mod Operate
pub mod Defs
pub mod Access
pub mod Execute
pub mod Step
pub mod Exec
pub mod Loop
pub mod Outcome
pub mod Stored
pub mod Conditional
pub mod Frame
pub mod Sound
pub mod Invariant
pub mod Boot
pub mod Precise
pub mod Delivery
pub mod External
mod Tests
