-- ===== src/Cpu/Sound.antt =====
-- The instructions of `cpu_step` in emulator/src/cpu/cpu.c all go on at an aligned address with CSRs that their
-- operations reach, or trap with the state before them.
use tiny_linux_rv.Prelude.{ℕ, ◌+◌, ◌-◌, ◌%◌, ◌^◌, bit_and, ◌≡◌, arith}
use tiny_linux_rv.Word.{u64, not64}
use tiny_linux_rv.Csr.Trap.{
  trap_exit_mret, trap_exit_sret, check_mret_privilege, check_sret_trap, check_wfi_trap,
  check_sfence_vma,
}
use tiny_linux_rv.Csr.Field.{get-aligned, get-eq-mod}
use tiny_linux_rv.Csr.Reach.{CsrRun, mret, sret}
use tiny_linux_rv.Cpu.Defs.{Machine, Run, result, raise, ◌>>=◌, set_rd}
use tiny_linux_rv.Cpu.Inst.{
  CsrInst, inst_csrrw, inst_csrrs, inst_csrrc, inst_csrrwi, inst_csrrsi, inst_csrrci, SysOp,
  inst_ecall, inst_ebreak, inst_sret, inst_mret, inst_wfi, inst_sfence_vma, Inst, inst_lui,
  inst_auipc, inst_jal, inst_jalr, inst_fence, inst_fencei, imm, reg, load, store, branch, muldiv,
  csr_inst, sys, lr, sc, amo,
}
use tiny_linux_rv.Cpu.Operate.{branch_taken}
use tiny_linux_rv.Cpu.Decode.{InstDec}
use tiny_linux_rv.Cpu.Access.{bytes_of}
use tiny_linux_rv.Cpu.Execute.{
  jump_to, then_next, exec_csr_inst, exec_sys, execute, load_size, store_size,
}
use tiny_linux_rv.Cpu.Outcome.{Ends, Ends-bind, Ends-if}
use tiny_linux_rv.Cpu.Frame.{
  Proceeds, Ended, IsPrecise, IsPrecise-refl, jump_to-Ends, exec_csr-Ends, exec_load-IsPrecise,
  exec_store-IsPrecise, exec_lr-Ends, exec_sc-Ends, exec_amo-Ends,
}

next-aligned : (pc : ℕ) → pc % 4 ≡ 0 → u64 (pc + 4) % 4 ≡ 0
unfolding u64
next-aligned pc h = omega arith

pub masked-aligned : (v : ℕ) → bit_and v (2 ^ 64 - 1 - 3) % 4 ≡ 0
masked-aligned v = omega (arith, get-aligned v, get-eq-mod (bit_and v (2 ^ 64 - 1 - 3)) 0 2)

module _ (m : Machine) (r : CsrRun m.cpu.csr m.cpu.priv) (h : m.cpu.pc % 4 ≡ 0) where
  then_next-Ends :
      (o : Run (Unit {0}))
      → Ends Ended (λ m'. IsPrecise m m') o
      → Ends Proceeds (λ m'. IsPrecise m m') (then_next (u64 (m.cpu.pc + 4)) o)
  then_next-Ends (result _ m') k = (next-aligned m.cpu.pc h, k)
  then_next-Ends (raise m' cause val) k = k

  exec_csr_inst-Ends :
      (op : CsrInst) (inst : ℕ) (dec : InstDec)
      → Ends Ended (λ m'. IsPrecise m m') (exec_csr_inst op inst dec m)
  unfolding exec_csr_inst
  exec_csr_inst-Ends inst_csrrw inst dec = exec_csr-Ends m r inst dec _ _
  exec_csr_inst-Ends inst_csrrs inst dec = exec_csr-Ends m r inst dec _ _
  exec_csr_inst-Ends inst_csrrc inst dec = exec_csr-Ends m r inst dec _ _
  exec_csr_inst-Ends inst_csrrwi inst dec = exec_csr-Ends m r inst dec _ _
  exec_csr_inst-Ends inst_csrrsi inst dec = exec_csr-Ends m r inst dec _ _
  exec_csr_inst-Ends inst_csrrci inst dec = exec_csr-Ends m r inst dec _ _

  abbrev Traps : Machine → Type 0
  Traps m' = IsPrecise m m'

  exec_sys-Ends :
      (op : SysOp) (inst : ℕ) → Ends Proceeds Traps (exec_sys op inst (u64 (m.cpu.pc + 4)) m)
  unfolding exec_sys trap_exit_mret trap_exit_sret
  exec_sys-Ends inst_ecall inst = IsPrecise-refl m r
  exec_sys-Ends inst_ebreak inst = IsPrecise-refl m r
  exec_sys-Ends inst_mret inst =
      Ends-if Proceeds Traps (check_mret_privilege m.cpu.priv) _ _ (IsPrecise-refl m r)
        (masked-aligned m.cpu.csr.csr_reg.mepc, mret r)
  exec_sys-Ends inst_sret inst =
      Ends-if Proceeds Traps (check_sret_trap m.cpu.csr m.cpu.priv) _ _ (IsPrecise-refl m r)
        (masked-aligned m.cpu.csr.csr_reg.sepc, sret r)
  exec_sys-Ends inst_wfi inst =
      Ends-if Proceeds Traps (check_wfi_trap m.cpu.csr m.cpu.priv) _ _ (IsPrecise-refl m r)
        (next-aligned m.cpu.pc h, r)
  exec_sys-Ends inst_sfence_vma inst =
      Ends-if Proceeds Traps (check_sfence_vma m.cpu.csr m.cpu.priv) _ _ (IsPrecise-refl m r)
        (next-aligned m.cpu.pc h, r)

  -- JAL and JALR, which write RD() once the jump has passed.
  link-Ends :
      (addr : ℕ) (dec : InstDec)
      → Ends Proceeds Traps
          (jump_to m addr >>= λ x. result x.0 (set_rd x.1 dec.rd (u64 (x.1.cpu.pc + 4))))
  link-Ends addr dec =
      Ends-bind Proceeds Proceeds Traps (jump_to m addr)
        (λ x. result x.0 (set_rd x.1 dec.rd (u64 (x.1.cpu.pc + 4)))) (jump_to-Ends m r addr)
        (λ next m' k. k)

  -- Every instruction, on every branch.
  pub execute-Ends :
      (i : Inst) (inst : ℕ) (dec : InstDec) → Ends Proceeds Traps (execute i inst dec m)
  unfolding execute
  execute-Ends inst_lui inst dec = (next-aligned m.cpu.pc h, r)
  execute-Ends inst_auipc inst dec = (next-aligned m.cpu.pc h, r)
  execute-Ends inst_jal inst dec = link-Ends (u64 (m.cpu.pc + dec.imm)) dec
  execute-Ends inst_jalr inst dec =
      link-Ends (bit_and (u64 (dec.imm + m.cpu.regs dec.rs1)) (not64 1)) dec
  execute-Ends (branch op) inst dec =
      Ends-if Proceeds Traps (branch_taken op (m.cpu.regs dec.rs1) (m.cpu.regs dec.rs2)) _ _
        (jump_to-Ends m r _) (next-aligned m.cpu.pc h, r)
  execute-Ends (load op) inst dec =
      Ends-bind (λ v m'. IsPrecise m m') Proceeds Traps _ _
        (exec_load-IsPrecise m _ (load_size op) _ _ r)
        (λ v m' k. (next-aligned m.cpu.pc h, k.csr_run))
  execute-Ends (store op) inst dec =
      then_next-Ends _ (exec_store-IsPrecise m m _ _ (store_size op) (IsPrecise-refl m r))
  execute-Ends (imm op) inst dec = (next-aligned m.cpu.pc h, r)
  execute-Ends (reg op) inst dec = (next-aligned m.cpu.pc h, r)
  execute-Ends (muldiv op) inst dec = (next-aligned m.cpu.pc h, r)
  execute-Ends inst_fence inst dec = (next-aligned m.cpu.pc h, r)
  execute-Ends inst_fencei inst dec = (next-aligned m.cpu.pc h, r)
  execute-Ends (csr_inst op) inst dec = then_next-Ends _ (exec_csr_inst-Ends op inst dec)
  execute-Ends (sys op) inst dec = exec_sys-Ends op inst
  execute-Ends (lr w) inst dec = then_next-Ends _ (exec_lr-Ends m r dec (bytes_of w))
  execute-Ends (sc w) inst dec = then_next-Ends _ (exec_sc-Ends m r dec (bytes_of w))
  execute-Ends (amo op w) inst dec = then_next-Ends _ (exec_amo-Ends m r dec op w)
