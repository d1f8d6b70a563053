-- ===== src/Cpu/Execute.antt =====
-- The execution of one instruction in `cpu_step` of emulator/src/cpu/cpu.c: the INSTPAT lines. The result is
-- `next_pc`. The call traces, which only print, are left out.
use tiny_linux_rv.Prelude.{ℕ, ◌+◌, bit_and, true, ◌==◌, ◌!=◌, if◌then◌else◌}
use tiny_linux_rv.Word.{u64, not64}
use tiny_linux_rv.Csr.Defs.{priv_s, priv_m, csr_op_rw, csr_op_rs, csr_op_rc}
use tiny_linux_rv.Csr.Trap.{
  Jump, trap_exit_mret, trap_exit_sret, check_mret_privilege, check_sret_trap, check_wfi_trap,
  check_sfence_vma,
}
use tiny_linux_rv.Mmu.Defs.{mmu_read}
use tiny_linux_rv.Tlb.Defs.{tlb_void}
use tiny_linux_rv.Cpu.Arith.{sext}
use tiny_linux_rv.Cpu.Inst.{
  LoadOp, inst_lb, inst_lh, inst_lw, inst_lbu, inst_lhu, inst_lwu, inst_ld, StoreOp, inst_sb,
  inst_sh, inst_sw, inst_sd, CsrInst, inst_csrrw, inst_csrrs, inst_csrrc, inst_csrrwi, inst_csrrsi,
  inst_csrrci, SysOp, inst_ecall, inst_ebreak, inst_sret, inst_mret, inst_wfi, inst_sfence_vma,
  Inst, inst_lui, inst_auipc, inst_jal, inst_jalr, inst_fence, inst_fencei, imm, reg, load, store,
  branch, muldiv, csr_inst, sys, lr, sc, amo,
}
use tiny_linux_rv.Cpu.Operate.{imm_value, reg_value, muldiv_value, branch_taken}
use tiny_linux_rv.Cpu.Decode.{InstDec}
use tiny_linux_rv.Cpu.Defs.{Machine, Run, result, raise, ◌>>=◌, set_rd}
use tiny_linux_rv.Cpu.Access.{
  inst_addr_misaligned, illegal_instruction, breakpoint, load_access_fault, exec_load, exec_store,
  exec_csr, exec_lr, exec_sc, exec_amo, bytes_of,
}

-- CHECK_MA_FETCH, and the jump if it passes.
abbrev pub jump_to : Machine → ℕ → Run ℕ
jump_to m addr = if bit_and addr 3 != 0 then raise m inst_addr_misaligned addr else result addr m

-- The size of a load and the extension of what is read.
abbrev pub load_size : LoadOp → ℕ
load_size inst_lb = 1
load_size inst_lh = 2
load_size inst_lw = 4
load_size inst_lbu = 1
load_size inst_lhu = 2
load_size inst_lwu = 4
load_size inst_ld = 8

abbrev pub load_ext : LoadOp → ℕ → ℕ
load_ext inst_lb v = sext v 8
load_ext inst_lh v = sext v 16
load_ext inst_lw v = sext v 32
load_ext _ v = v

abbrev pub store_size : StoreOp → ℕ
store_size inst_sb = 1
store_size inst_sh = 2
store_size inst_sw = 4
store_size inst_sd = 8

unfoldable pub exec_csr_inst : CsrInst → ℕ → InstDec → Machine → Run (Unit {0})
exec_csr_inst inst_csrrw inst dec m = exec_csr m inst dec csr_op_rw (m.cpu.regs dec.rs1)
exec_csr_inst inst_csrrs inst dec m = exec_csr m inst dec csr_op_rs (m.cpu.regs dec.rs1)
exec_csr_inst inst_csrrc inst dec m = exec_csr m inst dec csr_op_rc (m.cpu.regs dec.rs1)
exec_csr_inst inst_csrrwi inst dec m = exec_csr m inst dec csr_op_rw dec.imm
exec_csr_inst inst_csrrsi inst dec m = exec_csr m inst dec csr_op_rs dec.imm
exec_csr_inst inst_csrrci inst dec m = exec_csr m inst dec csr_op_rc dec.imm

-- The CSRs, the mode and `next_pc` after a return from a trap.
abbrev pub return_to : Machine → Jump → Run ℕ
return_to m j = result j.next_pc (record m { cpu = record (m.cpu) { csr = j.csr; priv = j.priv } })

abbrev pub void_tlbs : Machine → Machine
void_tlbs m = record m {
  cpu = record (m.cpu) { i_tlb = tlb_void m.cpu.i_tlb; d_tlb = tlb_void m.cpu.d_tlb };
}

abbrev pub ecall_cause : ℕ → ℕ
ecall_cause priv = if priv == priv_m then 11 else if priv == priv_s then 9 else 8

unfoldable pub exec_sys : SysOp → ℕ → ℕ → Machine → Run ℕ
exec_sys inst_ecall inst next m = raise m (ecall_cause m.cpu.priv) 0
exec_sys inst_ebreak inst next m = raise m breakpoint m.cpu.pc
exec_sys inst_mret inst next m =
    if check_mret_privilege m.cpu.priv
    then raise m illegal_instruction inst
    else return_to m (trap_exit_mret m.cpu.csr)
exec_sys inst_sret inst next m =
    if check_sret_trap m.cpu.csr m.cpu.priv
    then raise m illegal_instruction inst
    else return_to m (trap_exit_sret m.cpu.csr)
exec_sys inst_wfi inst next m =
    if check_wfi_trap m.cpu.csr m.cpu.priv
    then raise m illegal_instruction inst
    else result next (record m { cpu = record (m.cpu) { wfi = true } })
exec_sys inst_sfence_vma inst next m =
    if check_sfence_vma m.cpu.csr m.cpu.priv
    then raise m illegal_instruction inst
    else result next (void_tlbs m)

-- Falls through to the next instruction.
abbrev pub then_next : ℕ → Run (Unit {0}) → Run ℕ
then_next next (result _ m) = result next m
then_next next (raise m cause val) = raise m cause val

-- `next_pc` is PC() + 4 unless the instruction jumps.
unfoldable pub execute : Inst → ℕ → InstDec → Machine → Run ℕ
execute inst_lui inst dec m = result (u64 (m.cpu.pc + 4)) (set_rd m dec.rd dec.imm)
execute inst_auipc inst dec m =
    result (u64 (m.cpu.pc + 4)) (set_rd m dec.rd (u64 (m.cpu.pc + dec.imm)))
execute inst_jal inst dec m = do
  (next, m') ← jump_to m (u64 (m.cpu.pc + dec.imm))
  result next (set_rd m' dec.rd (u64 (m'.cpu.pc + 4)))
execute inst_jalr inst dec m = do
  (next, m') ← jump_to m (bit_and (u64 (dec.imm + m.cpu.regs dec.rs1)) (not64 1))
  result next (set_rd m' dec.rd (u64 (m'.cpu.pc + 4)))
execute (branch op) inst dec m =
    if branch_taken op (m.cpu.regs dec.rs1) (m.cpu.regs dec.rs2)
    then jump_to m (u64 (m.cpu.pc + dec.imm))
    else result (u64 (m.cpu.pc + 4)) m
execute (load op) inst dec m = do
  (v, m') ←
      exec_load m (u64 (m.cpu.regs dec.rs1 + dec.imm)) (load_size op) load_access_fault mmu_read
  result (u64 (m.cpu.pc + 4)) (set_rd m' dec.rd (load_ext op v))
execute (store op) inst dec m =
    then_next (u64 (m.cpu.pc + 4))
      (exec_store m (u64 (m.cpu.regs dec.rs1 + dec.imm)) (m.cpu.regs dec.rs2) (store_size op))
execute (imm op) inst dec m =
    result (u64 (m.cpu.pc + 4)) (set_rd m dec.rd (imm_value op (m.cpu.regs dec.rs1) dec.imm))
execute (reg op) inst dec m =
    result (u64 (m.cpu.pc + 4))
      (set_rd m dec.rd (reg_value op (m.cpu.regs dec.rs1) (m.cpu.regs dec.rs2)))
execute (muldiv op) inst dec m =
    result (u64 (m.cpu.pc + 4))
      (set_rd m dec.rd (muldiv_value op (m.cpu.regs dec.rs1) (m.cpu.regs dec.rs2)))
execute inst_fence inst dec m = result (u64 (m.cpu.pc + 4)) m
execute inst_fencei inst dec m = result (u64 (m.cpu.pc + 4)) m
execute (csr_inst op) inst dec m = then_next (u64 (m.cpu.pc + 4)) (exec_csr_inst op inst dec m)
execute (sys op) inst dec m = exec_sys op inst (u64 (m.cpu.pc + 4)) m
execute (lr w) inst dec m = then_next (u64 (m.cpu.pc + 4)) (exec_lr m dec (bytes_of w))
execute (sc w) inst dec m = then_next (u64 (m.cpu.pc + 4)) (exec_sc m dec (bytes_of w))
execute (amo op w) inst dec m = then_next (u64 (m.cpu.pc + 4)) (exec_amo m dec op w)
