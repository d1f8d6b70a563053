-- ===== src/Lib.antt =====
-- tiny_linux_rv: a model of the emulator of TinyLinuxRV, a RISC-V machine (RV64IMA with the M, S and
-- U modes) that runs Linux, written in C under emulator/.
--
-- The parts and their files:
--
-- * Csr (emulator/src/cpu/csr.c, emulator/include/cpu/csr.h and riscv.h): the control and status
--   registers. Csr.Defs holds the state `Csr` and the address decoding, Csr.Field and Csr.Masks the
--   field helpers and the masks, Csr.Access `csr_init` and `csr_access`, Csr.Trap `trap_enter`,
--   `trap_exit_mret`, `trap_exit_sret` and the privilege checks, Csr.Interrupt the choice of an
--   interrupt and the updates at the start and the end of a cycle.
-- * Mmu (emulator/src/cpu/mmu.c): Sv39 address translation; Mmu.Defs. The reads of page table entries
--   that the walk makes through the bus are a function from the address to the 8 bytes found there.
-- * Tlb (emulator/src/cpu/tlb.c): the direct-mapped TLB in front of the MMU; Tlb.Defs.
-- * Memory (emulator/src/memory/memory.c, emulator/include/utils/address_range.h and
--   emulator/src/device/bootROM.c): the RAM and the boot ROM as bytes; Memory.Defs.
-- * Plic (emulator/src/device/plic.c): the interrupt controller; Plic.Defs holds all of it.
-- * Clint (emulator/src/device/clint.c): the timer and the software interrupt; Clint.Defs.
-- * Syscon (emulator/src/device/syscon.c): power off and reboot; Syscon.Defs.
-- * Uart (emulator/src/device/uart16550.c): the serial port; Uart.Defs, with its macros in Uart.Field.
-- * Bus (emulator/src/bus/bus.c, emulator/src/device/device.c and
--   platform/include/tinylinuxrv/addrmap.h): the devices and the RAM together, the dispatch of an
--   access by its address, and the interrupt lines that the CPU samples; Bus.Defs. The CPU takes the
--   lines that `device_irq_level` gives to `csr_begin_update` of Csr.
-- * Cpu (emulator/src/cpu/cpu.c and cpu_exec.c, emulator/include/cpu/cpu.h, decode.h and cpu_exec.h): the
--   CPU core over all the other parts. Cpu.Int and Cpu.Arith are C's signed integers and the arithmetic
--   helpers, Cpu.Inst names the 98 instructions, Cpu.Patterns holds MASK and GOLDEN of each, Cpu.Dispatch the
--   opcode switch with its INSTPAT lines, Cpu.Decode the fields and immediates, Cpu.Operate the values that
--   the instructions compute, Cpu.Access the loads, stores, atomic and CSR accesses, Cpu.Execute the
--   instructions, Cpu.Step `cpu_step`, and Cpu.Exec `cpu_exec`. A `Machine` is the CPU with the bus and the
--   bytes sent to the terminal; a jump to the label raise_exception is the constructor `raise` of `Run`.
-- * Loader (emulator/src/memory/loader.c): what puts a raw binary or the segments of an ELF file into the RAM
--   and gives the entry point; Loader.Defs. The content of the file and what <elf.h> declares are parameters.
-- * Trace (emulator/src/utils/iringbuf.c): the ring buffer of the instructions executed last; Trace.Ring.
--
-- The other modules of each part hold what is proved of it, and its Tests module runs it on concrete
-- values. Prelude, Word and Bits hold what the parts share: Boolean tests, arrays as functions,
-- machine words, and the bits of a number.
--
-- How the code corresponds. A C struct is a record with the same fields, an enum a data type, and a
-- function of the C code is a function of the same name from the state to the state after it, paired
-- with what it returns. A status of 0 is `true`, any other status `false`; a value that is read through
-- a pointer is an Option, `none` where the C function returns an error. An array is a function from
-- indices, and the code's own range checks are kept. A register is a natural number, and each operation
-- that can wrap takes its remainder by 2 ^ 64, 2 ^ 32 or 2 ^ 8; `~` is subtraction from the largest
-- word. The loops of the C code run over fixed ranges and are structural recursion on the number of
-- rounds, on the level of the page table, or on the list of interrupts or times. Only the loop of
-- `cpu_exec`, which runs until the guest powers off, has fuel, one unit for each turn: with an instruction
-- limit, that many units are enough.
--
-- Outside the model: the host clock (`get_time`), whose times are arguments, and the host terminal
-- (`poll`, `read`, `putchar`), whose answers are arguments and whose output is a result. Log messages
-- are left out, and so are the traces of instructions and calls, but for the ring buffer of the latest
-- instructions. The command line, the symbol table of the call trace, which the loader fills, and the
-- allocation of the devices are not modelled.
mod Prelude
mod Bits
mod Word
pub mod Csr
pub mod Plic
pub mod Clint
pub mod Syscon
pub mod Uart
pub mod Mmu
pub mod Tlb
pub mod Memory
pub mod Bus
pub mod Cpu
pub mod Loader
pub mod Trace
