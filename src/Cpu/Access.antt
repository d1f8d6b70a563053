-- ===== src/Cpu/Access.antt =====
-- The loads, stores, atomic and CSR accesses of emulator/src/cpu/cpu.c: the macros from CHECK_MA_FETCH to
-- EXEC_AMO, each from the state to the state after it or to a trap.
use tiny_linux_rv.Prelude.{
  ℕ, ◌+◌, ◌*◌, bit_and, Bool, true, false, not, ◌&&◌, ◌||◌, Option, none, some, List, [], ◌∷◌, ◌++◌,
  ltb, ◌==◌, ◌!=◌, if◌then◌else◌,
}
use tiny_linux_rv.Word.{u64, sub64}
use tiny_linux_rv.Csr.Defs.{CsrOp, csr_op_rw}
use tiny_linux_rv.Csr.Access.{CsrOutcome, denied, granted, csr_access}
use tiny_linux_rv.Csr.Trap.{effective_priv_mode}
use tiny_linux_rv.Mmu.Defs.{
  PteFlag, AccessMode, mmu_read, mmu_write, mmu_amo, Translation, mmu_valid, mmu_inst_access_fault,
  mmu_load_access_fault, mmu_store_amo_access_fault, mmu_inst_page_fault, mmu_load_page_fault,
  mmu_store_amo_page_fault,
}
use tiny_linux_rv.Tlb.Defs.{tlb_lookup}
use tiny_linux_rv.Clint.Defs.{clint_mtime}
use tiny_linux_rv.Bus.Defs.{Bus, bus_read, bus_write}
use tiny_linux_rv.Cpu.Arith.{sext}
use tiny_linux_rv.Cpu.Inst.{AmoOp, Width, width_w, width_d}
use tiny_linux_rv.Cpu.Operate.{amo_value}
use tiny_linux_rv.Cpu.Decode.{InstDec}
use tiny_linux_rv.Cpu.Defs.{Machine, Reservation, Run, result, raise, ◌>>=◌, set_rd}

-- The values of `exception_code_t` that cpu.c raises itself.
abbrev pub inst_addr_misaligned : ℕ
inst_addr_misaligned = 0

abbrev pub inst_access_fault : ℕ
inst_access_fault = 1

abbrev pub illegal_instruction : ℕ
illegal_instruction = 2

abbrev pub breakpoint : ℕ
breakpoint = 3

abbrev pub load_addr_misaligned : ℕ
load_addr_misaligned = 4

abbrev pub load_access_fault : ℕ
load_access_fault = 5

abbrev pub store_amo_addr_misaligned : ℕ
store_amo_addr_misaligned = 6

abbrev pub store_amo_access_fault : ℕ
store_amo_access_fault = 7

-- The page table entries that the MMU reads; an 8-byte read leaves the bus as it was.
abbrev pub pte_reader : Bus → ℕ → Option ℕ
pte_reader bus addr = (bus_read bus addr 8).1

-- `flag` of `tlb_lookup` before it is set.
abbrev pub unset_flag : PteFlag
unset_flag = record { a = false; d = false; u = false; x = false; w = false; r = false }

-- The physical address of a valid translation, or the exception code that the value of the enum is.
abbrev pub or_trap : Machine → ℕ → Translation → Run ℕ
or_trap m vaddr (mmu_valid pa) = result pa m
or_trap m vaddr mmu_inst_access_fault = raise m 1 vaddr
or_trap m vaddr mmu_load_access_fault = raise m 5 vaddr
or_trap m vaddr mmu_store_amo_access_fault = raise m 7 vaddr
or_trap m vaddr mmu_inst_page_fault = raise m 12 vaddr
or_trap m vaddr mmu_load_page_fault = raise m 13 vaddr
or_trap m vaddr mmu_store_amo_page_fault = raise m 15 vaddr

-- MMU
unfoldable pub translate : Machine → ℕ → AccessMode → Run ℕ
translate m vaddr mode =
    let c = m.cpu in
    let effective_priv = effective_priv_mode c.csr c.priv in
    let found =
      tlb_lookup c.d_tlb (pte_reader m.bus) vaddr c.csr.csr_reg.satp c.csr.csr_reg.mstatus mode
        effective_priv unset_flag in
    or_trap (record m { cpu = record c { d_tlb = found.0 } }) vaddr found.1

-- The condition of CHECK_MA_LS.
unfoldable pub ma_addr : ℕ → ℕ → Bool
ma_addr addr size =
    size == 2 && bit_and addr 1 != 0
    || (size == 4 && bit_and addr 3 != 0 || size == 8 && bit_and addr 7 != 0)

abbrev pub read_or_trap : Machine → ℕ → ℕ → Bus × Option ℕ → Run ℕ
read_or_trap m vaddr cause (bus, none) = raise (record m { bus = bus }) cause vaddr
read_or_trap m vaddr cause (bus, some data') = result data' (record m { bus = bus })

-- EXEC_LOAD_HELPER, up to the extension of `data`.
unfoldable pub exec_load : Machine → ℕ → ℕ → ℕ → AccessMode → Run ℕ
exec_load m vaddr size access_fault_cause mode = do
  (addr, m') ← translate m vaddr mode
  if ma_addr addr size
      then raise m' load_addr_misaligned vaddr
      else read_or_trap m' vaddr access_fault_cause (bus_read m'.bus addr size)

abbrev output : Option ℕ → List ℕ
output none = []
output (some b) = b ∷ []

abbrev pub wrote_or_trap : Machine → ℕ → Bus × Bool × Option ℕ → Run (Unit {0})
wrote_or_trap m vaddr (bus, ok, byte) =
    let m' = record m { bus = bus; sent = m.sent ++ output byte } in
    if ok then result (record {}) m' else raise m' store_amo_access_fault vaddr

unfoldable pub exec_store : Machine → ℕ → ℕ → ℕ → Run (Unit {0})
exec_store m vaddr data' size = do
  (addr, m') ← translate m vaddr mmu_write
  if ma_addr addr size
      then raise m' store_amo_addr_misaligned vaddr
      else wrote_or_trap m' vaddr (bus_write m'.bus addr size data')

abbrev is_rw : CsrOp → Bool
is_rw csr_op_rw = true
is_rw _ = false

-- `rdata` is set whenever `rd` is not 0.
abbrev pub csr_done : Machine → ℕ → ℕ → CsrOutcome → Run (Unit {0})
csr_done m inst rd (denied c) =
    raise (record m { cpu = record (m.cpu) { csr = c } }) illegal_instruction inst
csr_done m inst rd (granted none c) =
    result (record {}) (record m { cpu = record (m.cpu) { csr = c } })
csr_done m inst rd (granted (some rdata) c) =
    let m' = record m { cpu = record (m.cpu) { csr = c } } in
    result (record {}) (if rd != 0 then set_rd m' rd rdata else m')

unfoldable pub exec_csr : Machine → ℕ → InstDec → CsrOp → ℕ → Run (Unit {0})
exec_csr m inst dec op value =
    let read = not (dec.rd == 0 && is_rw op) in
    let write = not (dec.rs1 == 0 && not (is_rw op)) in
    csr_done m inst dec.rd
      (csr_access m.cpu.csr dec.csr op value read write (clint_mtime m.bus.clint) m.cpu.priv)

abbrev pub bytes_of : Width → ℕ
bytes_of width_w = 4
bytes_of width_d = 8

abbrev pub reserve : Machine → ℕ → ℕ → Machine
reserve m lr_addr size = record m {
  cpu = record (m.cpu) {
    res = record { valid = true; addr_start = lr_addr; addr_end = u64 (lr_addr + size) };
  };
}

-- The address is RS1() before RD() is written.
unfoldable pub exec_lr : Machine → InstDec → ℕ → Run (Unit {0})
exec_lr m dec size =
    let lr_addr = m.cpu.regs dec.rs1 in
    do
      (data', m') ← exec_load m lr_addr size load_access_fault mmu_read
      result (record {}) (reserve (set_rd m' dec.rd (sext data' (size * 8))) lr_addr size)

-- `res.valid = false`
abbrev pub unreserve : Machine → Machine
unreserve m = record m { cpu = record (m.cpu) { res = record (m.cpu.res) { valid = false } } }

-- Whether the reservation misses.
abbrev pub reservation_miss : Reservation → ℕ → ℕ → Bool
reservation_miss res addr size =
    not res.valid || (ltb addr res.addr_start || ltb (sub64 res.addr_end size) addr)

unfoldable pub exec_sc : Machine → InstDec → ℕ → Run (Unit {0})
exec_sc m dec size =
    let addr = m.cpu.regs dec.rs1 in
    if ma_addr addr size
    then raise m store_amo_addr_misaligned addr
    else if reservation_miss m.cpu.res addr size
    then result (record {}) (set_rd (unreserve m) dec.rd 1)
    else do
      (_, m') ← exec_store (unreserve m) addr (m.cpu.regs dec.rs2) size
      result (record {}) (set_rd m' dec.rd 0)

unfoldable pub exec_amo : Machine → InstDec → AmoOp → Width → Run (Unit {0})
exec_amo m dec op width =
    let amo_addr = m.cpu.regs dec.rs1 in
    let amo_src = m.cpu.regs dec.rs2 in
    let size = bytes_of width in
    if ma_addr amo_addr size then raise m store_amo_addr_misaligned amo_addr else do
      (data', m') ← exec_load m amo_addr size store_amo_access_fault mmu_amo
      (_, m'') ← exec_store m' amo_addr (amo_value op width amo_src (sext data' (size * 8))) size
      result (record {}) (set_rd m'' dec.rd (sext data' (size * 8)))
