-- ===== src/Cpu/Frame.antt =====
-- What each instruction of `cpu_step` in emulator/src/cpu/cpu.c keeps, whether it ends or traps.
use tiny_linux_rv.Prelude.{
  ℕ, ◌%◌, bit_and, ◌≡◌, ◌∙◌, refl, inl, inr, none, some, ◌!=◌, arith, Bool-cases,
}
use tiny_linux_rv.Bits.{bit_and-mask}
use tiny_linux_rv.Csr.Defs.{CsrOp}
use tiny_linux_rv.Csr.Access.{CsrOutcome, denied, granted}
use tiny_linux_rv.Csr.Warl.{state_after}
use tiny_linux_rv.Csr.Reach.{CsrRun, access}
use tiny_linux_rv.Mmu.Defs.{AccessMode}
use tiny_linux_rv.Cpu.Defs.{Machine}
use tiny_linux_rv.Cpu.Inst.{AmoOp, Width}
use tiny_linux_rv.Cpu.Decode.{InstDec}
use tiny_linux_rv.Cpu.Access.{
  csr_done, exec_csr, exec_load, exec_store, exec_lr, exec_sc, exec_amo, unreserve,
  reservation_miss, ma_addr, bytes_of,
}
use tiny_linux_rv.Cpu.Execute.{jump_to}
use tiny_linux_rv.Cpu.Outcome.{
  Ends, Ends-bind, Ends-if, Ends-weaken, IsCpuKept, IsKept, exec_load-IsKept, exec_store-IsKept,
}

-- Execution goes on at an aligned address, with CSRs that a run of their operations reaches.
abbrev pub Proceeds : ℕ → Machine → Type 0
Proceeds next_pc m = (next_pc % 4 ≡ 0) × CsrRun m.cpu.csr m.cpu.priv

abbrev pub Ended : Unit {0} → Machine → Type 0
Ended _ m = CsrRun m.cpu.csr m.cpu.priv

-- A trap finds the registers, PC, the mode and the RAM as they were before the instruction.
pub record IsPrecise (m m' : Machine) : Type 0 where
  pub regs : m'.cpu.regs ≡ m.cpu.regs
  pub pc : m'.cpu.pc ≡ m.cpu.pc
  pub priv : m'.cpu.priv ≡ m.cpu.priv
  pub memory : m'.bus.memory ≡ m.bus.memory
  pub csr_run : CsrRun m'.cpu.csr m'.cpu.priv

pub IsCpuKept-CsrRun :
    {m m' : Machine} → IsCpuKept m m' → CsrRun m.cpu.csr m.cpu.priv → CsrRun m'.cpu.csr m'.cpu.priv
IsCpuKept-CsrRun k r = rw (k.csr, k.priv) r

pub IsKept-IsPrecise : {m m' : Machine} → IsKept m m' → CsrRun m.cpu.csr m.cpu.priv → IsPrecise m m'
IsKept-IsPrecise k r = record {
  regs = k.cpu_kept.regs;
  pc = k.cpu_kept.pc;
  priv = k.cpu_kept.priv;
  memory = k.memory;
  csr_run = IsCpuKept-CsrRun k.cpu_kept r;
}

pub IsPrecise-refl : (m : Machine) → CsrRun m.cpu.csr m.cpu.priv → IsPrecise m m
IsPrecise-refl m r = record { regs = refl; pc = refl; priv = refl; memory = refl; csr_run = r }

pub exec_load-IsPrecise :
    (m : Machine) (vaddr size cause : ℕ) (mode : AccessMode)
    → CsrRun m.cpu.csr m.cpu.priv
    → Ends (λ v m'. IsPrecise m m') (λ m'. IsPrecise m m') (exec_load m vaddr size cause mode)
exec_load-IsPrecise m vaddr size cause mode r =
    Ends-weaken (λ v m'. IsKept m m') (λ v m'. IsPrecise m m') (λ m'. IsKept m m')
      (λ m'. IsPrecise m m') _ (λ v m' k. IsKept-IsPrecise k r) (λ m' k. IsKept-IsPrecise k r)
      (exec_load-IsKept m vaddr size cause mode)

pub exec_store-IsPrecise :
    (m m' : Machine) (vaddr data' size : ℕ)
    → IsPrecise m m'
    → Ends Ended (λ m''. IsPrecise m m'') (exec_store m' vaddr data' size)
exec_store-IsPrecise m m' vaddr data' size k =
    Ends-weaken (λ _ m''. IsCpuKept m' m'') Ended (λ m''. IsKept m' m'') (λ m''. IsPrecise m m'') _
      (λ _ m'' k'. IsCpuKept-CsrRun k' k.csr_run)
      (λ m'' k'. record {
        regs = k'.cpu_kept.regs ∙ k.regs;
        pc = k'.cpu_kept.pc ∙ k.pc;
        priv = k'.cpu_kept.priv ∙ k.priv;
        memory = k'.memory ∙ k.memory;
        csr_run = IsCpuKept-CsrRun k'.cpu_kept k.csr_run;
      })
      (exec_store-IsKept m' vaddr data' size)

and_3 : (v : ℕ) → bit_and v 3 ≡ v % 4
and_3 v = bit_and-mask 2 v

module _ (m : Machine) (r : CsrRun m.cpu.csr m.cpu.priv) where
  pub jump_to-Ends : (addr : ℕ) → Ends Proceeds (λ m'. IsPrecise m m') (jump_to m addr)
  jump_to-Ends addr = elim (Bool-cases (bit_and addr 3 != 0)) [
    | inl e ↦ rw e (IsPrecise-refl m r)
    | inr e ↦ rw e (ground (arith, and_3 addr), r)
  ]

  csr_done-Ends :
      (inst rd : ℕ) (o : CsrOutcome)
      → CsrRun (state_after o) m.cpu.priv
      → Ends Ended (λ m'. IsPrecise m m') (csr_done m inst rd o)
  csr_done-Ends inst rd (denied c) h = record {
    regs = refl;
    pc = refl;
    priv = refl;
    memory = refl;
    csr_run = h;
  }
  csr_done-Ends inst rd (granted none c) h = h
  csr_done-Ends inst rd (granted (some v) c) h = elim (Bool-cases (rd != 0)) [
    | inl e ↦ rw e h
    | inr e ↦ rw e h
  ]

  pub exec_csr-Ends :
      (inst : ℕ) (dec : InstDec) (op : CsrOp) (value : ℕ)
      → Ends Ended (λ m'. IsPrecise m m') (exec_csr m inst dec op value)
  unfolding exec_csr
  exec_csr-Ends inst dec op value = csr_done-Ends inst dec.rd _ (access r _ _ _ _ _ _)

  pub exec_lr-Ends :
      (dec : InstDec) (size : ℕ) → Ends Ended (λ m'. IsPrecise m m') (exec_lr m dec size)
  unfolding exec_lr
  exec_lr-Ends dec size =
      Ends-bind (λ v m'. IsPrecise m m') Ended (λ m'. IsPrecise m m') _ _
        (exec_load-IsPrecise m _ size _ _ r) (λ v m' k. k.csr_run)

  pub exec_sc-Ends :
      (dec : InstDec) (size : ℕ) → Ends Ended (λ m'. IsPrecise m m') (exec_sc m dec size)
  unfolding exec_sc
  exec_sc-Ends dec size =
      Ends-if Ended (λ m'. IsPrecise m m') (ma_addr (m.cpu.regs dec.rs1) size) _ _
        (IsPrecise-refl m r)
        (Ends-if Ended (λ m'. IsPrecise m m') (reservation_miss m.cpu.res (m.cpu.regs dec.rs1) size)
          _ _ r
          (Ends-bind Ended Ended (λ m'. IsPrecise m m') _ _
            (exec_store-IsPrecise m (unreserve m) _ _ size
              record { regs = refl; pc = refl; priv = refl; memory = refl; csr_run = r })
            (λ _ m' h. h)))

  pub exec_amo-Ends :
      (dec : InstDec) (op : AmoOp) (w : Width)
      → Ends Ended (λ m'. IsPrecise m m') (exec_amo m dec op w)
  unfolding exec_amo
  exec_amo-Ends dec op w =
      Ends-if Ended (λ m'. IsPrecise m m') (ma_addr (m.cpu.regs dec.rs1) (bytes_of w)) _ _
        (IsPrecise-refl m r)
        (Ends-bind (λ v m'. IsPrecise m m') Ended (λ m'. IsPrecise m m') _ _
          (exec_load-IsPrecise m _ (bytes_of w) _ _ r)
          (λ v m' k.
            Ends-bind Ended Ended (λ m'. IsPrecise m m') _ _
              (exec_store-IsPrecise m m' _ _ (bytes_of w) k) (λ _ m'' h. h)))
