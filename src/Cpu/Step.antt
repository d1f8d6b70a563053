-- ===== src/Cpu/Step.antt =====
-- `cpu_step` of emulator/src/cpu/cpu.c: the wait for an interrupt, the fetch, the check of the interrupts, the
-- switch, and the two labels at its end. The instruction and function traces are left out.
use tiny_linux_rv.Prelude.{
  ℕ, ◌^◌, bit_or, Bool, true, false, Option, none, some, if◌then◌else◌, update,
}
use tiny_linux_rv.Csr.Trap.{trap_enter}
use tiny_linux_rv.Csr.Interrupt.{
  interrupt_pending, interrupt_pending_and_enabled, csr_begin_update, csr_end_update,
}
use tiny_linux_rv.Mmu.Defs.{mmu_execute}
use tiny_linux_rv.Tlb.Defs.{tlb_lookup}
use tiny_linux_rv.Bus.Defs.{bus_read}
use tiny_linux_rv.Cpu.Inst.{Inst}
use tiny_linux_rv.Cpu.Dispatch.{dispatch}
use tiny_linux_rv.Cpu.Decode.{decode}
use tiny_linux_rv.Cpu.Defs.{Machine, Run, result, raise, ◌>>=◌}
use tiny_linux_rv.Cpu.Access.{
  pte_reader, unset_flag, or_trap, read_or_trap, inst_access_fault, illegal_instruction,
}
use tiny_linux_rv.Cpu.Execute.{execute, void_tlbs}

-- TRAP_INTERRUPT
abbrev pub trap_interrupt : ℕ
trap_interrupt = 2 ^ 63

-- The translation of PC by the instruction TLB.
unfoldable pub translate_pc : Machine → Run ℕ
translate_pc m =
    let c = m.cpu in
    let found =
      tlb_lookup c.i_tlb (pte_reader m.bus) c.pc c.csr.csr_reg.satp c.csr.csr_reg.mstatus
        mmu_execute c.priv unset_flag in
    or_trap (record m { cpu = record c { i_tlb = found.0 } }) c.pc found.1

-- The instruction that PC points to.
unfoldable pub fetch : Machine → Run ℕ
fetch m = do
  (pc_paddr, m') ← translate_pc m
  read_or_trap m' m'.cpu.pc inst_access_fault (bus_read m'.bus pc_paddr 4)

-- The switch, with its jumps to `illegal_instruction`.
abbrev pub execute_or_illegal : Option Inst → ℕ → Machine → Run ℕ
execute_or_illegal none inst m = raise m illegal_instruction inst
execute_or_illegal (some i) inst m = execute i inst (decode inst) m

-- `trap_val` of an interrupt is 0.
abbrev pub unless_interrupted : Option ℕ → ℕ → Machine → Run ℕ
unless_interrupted (some int_id) inst m = raise m (bit_or trap_interrupt int_id) 0
unless_interrupted none inst m = execute_or_illegal (dispatch inst) inst m

-- From the translation of PC to the label `illegal_instruction`.
unfoldable pub step_inst : Machine → Run ℕ
step_inst m = do
  (inst, m') ← fetch m
  unless_interrupted (interrupt_pending_and_enabled m'.cpu.csr m'.cpu.priv) inst m'

-- The label `end_exec`.
unfoldable pub end_exec : Machine → ℕ → Bool → Machine
end_exec m next_pc retired =
    let done = record m { cpu = record (m.cpu) { regs = update m.cpu.regs 0 0; pc = next_pc } } in
    let flushed = if m.cpu.csr.satp_written then void_tlbs done else done in
    record flushed { cpu = record (flushed.cpu) { csr = csr_end_update flushed.cpu.csr retired } }

-- The label `raise_exception`, and then `end_exec`.
unfoldable pub raise_exception : Machine → ℕ → ℕ → Machine
raise_exception m trap_cause trap_val =
    let j = trap_enter m.cpu.csr trap_cause trap_val m.cpu.pc m.cpu.priv in
    end_exec (record m { cpu = record (m.cpu) { csr = j.csr; priv = j.priv } }) j.next_pc false

abbrev pub finish_step : Run ℕ → Machine
finish_step (result next_pc m) = end_exec m next_pc true
finish_step (raise m trap_cause trap_val) = raise_exception m trap_cause trap_val

-- The interrupt lines seen by the CSRs.
abbrev pub begin_step : Machine → Machine
begin_step m =
    let c = m.cpu in
    record m { cpu = record c { csr = csr_begin_update c.csr c.meip c.msip c.mtip c.seip } }

abbrev pub wake : Machine → Machine
wake m = record m { cpu = record (m.cpu) { wfi = false } }

unfoldable pub cpu_step : Machine → Machine
cpu_step m =
    let m' = begin_step m in
    if m'.cpu.wfi
    then (if interrupt_pending m'.cpu.csr then finish_step (step_inst (wake m')) else m')
    else finish_step (step_inst m')
