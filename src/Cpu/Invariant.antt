-- ===== src/Cpu/Invariant.antt =====
-- The invariant of the CPU between two calls of `cpu_step` of emulator/src/cpu/cpu.c, and what a trap leaves.
use tiny_linux_rv.Prelude.{
  ℕ, ◌%◌, ◌≡◌, ◌∙◌, refl, ap, Bool, true, false, Option, none, some, if◌then◌else◌, arith, update,
}
use tiny_linux_rv.Word.{u64, not64}
use tiny_linux_rv.Csr.Field.{csr_field_get}
use tiny_linux_rv.Csr.Defs.{Csr}
use tiny_linux_rv.Csr.Trap.{trap_enter, trap_vector}
use tiny_linux_rv.Csr.Interrupt.{interrupt_pending, interrupt_pending_and_enabled, csr_end_update}
use tiny_linux_rv.Csr.Reach.{CsrRun, reset, enter, begin, finish}
use tiny_linux_rv.Bus.Defs.{bus_read}
use tiny_linux_rv.Cpu.Defs.{Cpu, Machine, Run, result, raise, cpu_init}
use tiny_linux_rv.Cpu.Inst.{Inst}
use tiny_linux_rv.Cpu.Dispatch.{dispatch}
use tiny_linux_rv.Cpu.Decode.{decode}
use tiny_linux_rv.Cpu.Execute.{void_tlbs}
use tiny_linux_rv.Cpu.Step.{
  translate_pc, fetch, execute_or_illegal, unless_interrupted, step_inst, end_exec, raise_exception,
  finish_step, begin_step, wake, cpu_step,
}
use tiny_linux_rv.Cpu.Access.{read_or_trap, inst_access_fault}
use tiny_linux_rv.Cpu.Outcome.{
  Ends, Ends-bind, Ends-weaken, or_trap-kept, read_or_trap-kept, bus_read-memory, IsKept,
}
use tiny_linux_rv.Cpu.Frame.{
  Proceeds, IsPrecise, IsPrecise-refl, IsKept-IsPrecise, IsCpuKept-CsrRun,
}
use tiny_linux_rv.Cpu.Sound.{masked-aligned, execute-Ends}

-- Register x0 is 0, PC is aligned, and the CSRs with the mode are those of a run of their operations.
pub record IsSound (c : Cpu) : Type 0 where
  pub zero_reg : c.regs 0 ≡ 0
  pub pc_aligned : c.pc % 4 ≡ 0
  pub csr_run : CsrRun c.csr c.priv

pub cpu_init-IsSound : IsSound cpu_init
unfolding cpu_init
cpu_init-IsSound = record { zero_reg = refl; pc_aligned = refl; csr_run = reset }

translate_pc-Ends : (m : Machine) → Ends (λ _ m'. IsKept m m') (λ m'. IsKept m m') (translate_pc m)
unfolding translate_pc
translate_pc-Ends m =
    or_trap-kept (λ m'. IsKept m m') _ m.cpu.pc _
      record {
        cpu_kept = record { regs = refl; pc = refl; csr = refl; priv = refl; res = refl };
        memory = refl;
      }

pub fetch-Ends : (m : Machine) → Ends (λ _ m'. IsKept m m') (λ m'. IsKept m m') (fetch m)
unfolding fetch
fetch-Ends m =
    Ends-bind (λ _ m'. IsKept m m') (λ _ m'. IsKept m m') (λ m'. IsKept m m') (translate_pc m)
      (λ x. read_or_trap x.1 x.1.cpu.pc inst_access_fault (bus_read x.1.bus x.0 4))
      (translate_pc-Ends m)
      (λ addr m' k.
        read_or_trap-kept (λ m'. IsKept m m') m' m'.cpu.pc inst_access_fault
          (bus_read m'.bus addr 4)
          record {
            cpu_kept = record {
              regs = k.cpu_kept.regs;
              pc = k.cpu_kept.pc;
              csr = k.cpu_kept.csr;
              priv = k.cpu_kept.priv;
              res = k.cpu_kept.res;
            };
            memory = bus_read-memory m'.bus addr 4 ∙ k.memory;
          })

-- A trap of what follows the fetch is one of the whole.
IsKept-then :
    (m m' : Machine) (o : Run ℕ)
    → IsKept m m'
    → Ends Proceeds (λ m''. IsPrecise m' m'') o
    → Ends Proceeds (λ m''. IsPrecise m m'') o
IsKept-then m m' o k e =
    Ends-weaken Proceeds Proceeds (λ m''. IsPrecise m' m'') (λ m''. IsPrecise m m'') o
      (λ a m'' g. g)
      (λ m'' p. record {
        regs = p.regs ∙ k.cpu_kept.regs;
        pc = p.pc ∙ k.cpu_kept.pc;
        priv = p.priv ∙ k.cpu_kept.priv;
        memory = p.memory ∙ k.memory;
        csr_run = p.csr_run;
      })
      e

execute_or_illegal-Ends :
    (m : Machine) (o : Option Inst) (inst : ℕ)
    → m.cpu.pc % 4 ≡ 0
    → CsrRun m.cpu.csr m.cpu.priv
    → Ends Proceeds (λ m'. IsPrecise m m') (execute_or_illegal o inst m)
execute_or_illegal-Ends m none inst h r = IsPrecise-refl m r
execute_or_illegal-Ends m (some i) inst h r = execute-Ends m r h i inst (decode inst)

unless_interrupted-Ends :
    (m : Machine) (o : Option ℕ) (inst : ℕ)
    → m.cpu.pc % 4 ≡ 0
    → CsrRun m.cpu.csr m.cpu.priv
    → Ends Proceeds (λ m'. IsPrecise m m') (unless_interrupted o inst m)
unless_interrupted-Ends m (some int_id) inst h r = IsPrecise-refl m r
unless_interrupted-Ends m none inst h r = execute_or_illegal-Ends m (dispatch inst) inst h r

-- The fetch, the check of the interrupts and the instruction.
pub step_inst-Ends :
    (m : Machine)
    → m.cpu.pc % 4 ≡ 0
    → CsrRun m.cpu.csr m.cpu.priv
    → Ends Proceeds (λ m'. IsPrecise m m') (step_inst m)
unfolding step_inst
step_inst-Ends m h r =
    Ends-bind (λ _ m'. IsKept m m') Proceeds (λ m'. IsPrecise m m') (fetch m)
      (λ x. unless_interrupted (interrupt_pending_and_enabled x.1.cpu.csr x.1.cpu.priv) x.0 x.1)
      (Ends-weaken (λ _ m'. IsKept m m') (λ _ m'. IsKept m m') (λ m'. IsKept m m')
        (λ m'. IsPrecise m m') (fetch m) (λ _ m' k. k) (λ m' k. IsKept-IsPrecise k r)
        (fetch-Ends m))
      (λ inst m' k. IsKept-then m m' _ k (
        unless_interrupted-Ends m' (interrupt_pending_and_enabled m'.cpu.csr m'.cpu.priv) inst
          (ap (λ v. v % 4) k.cpu_kept.pc ∙ h) (IsCpuKept-CsrRun k.cpu_kept r)))

trap_vector-aligned : (tvec interrupt code : ℕ) → trap_vector tvec interrupt code % 4 ≡ 0
unfolding trap_vector u64 not64
trap_vector-aligned tvec interrupt code = ground (arith, masked-aligned tvec)

trap_enter-aligned :
    (c : Csr) (cause tval pc priv : ℕ) → (trap_enter c cause tval pc priv).next_pc % 4 ≡ 0
unfolding trap_enter
trap_enter-aligned c cause tval pc priv = ground (
  arith,
  trap_vector-aligned c.csr_reg.mtvec (csr_field_get cause 63 1) (csr_field_get cause 0 63),
  trap_vector-aligned c.csr_reg.stvec (csr_field_get cause 63 1) (csr_field_get cause 0 63),
)

flushed-IsSound :
    (b : Bool) (m : Machine) (retired : Bool)
    → IsSound m.cpu
    → IsSound (
        let flushed = if b then void_tlbs m else m in
        record (flushed.cpu) { csr = csr_end_update flushed.cpu.csr retired })
flushed-IsSound true m retired s = record {
  zero_reg = s.zero_reg;
  pc_aligned = s.pc_aligned;
  csr_run = finish s.csr_run retired;
}
flushed-IsSound false m retired s = record {
  zero_reg = s.zero_reg;
  pc_aligned = s.pc_aligned;
  csr_run = finish s.csr_run retired;
}

end_exec-IsSound :
    (m : Machine) (next_pc : ℕ) (retired : Bool)
    → next_pc % 4 ≡ 0
    → CsrRun m.cpu.csr m.cpu.priv
    → IsSound (end_exec m next_pc retired).cpu
unfolding end_exec
end_exec-IsSound m next_pc retired h r =
    flushed-IsSound m.cpu.csr.satp_written
      (record m { cpu = record (m.cpu) { regs = update m.cpu.regs 0 0; pc = next_pc } }) retired
      record { zero_reg = refl; pc_aligned = h; csr_run = r }

finish_step-IsSound :
    (m : Machine) (o : Run ℕ) → Ends Proceeds (λ m'. IsPrecise m m') o → IsSound (finish_step o).cpu
unfolding raise_exception
finish_step-IsSound m (result next_pc m') k = end_exec-IsSound m' next_pc true k.0 k.1
finish_step-IsSound m (raise m' cause val) p =
    end_exec-IsSound _ _ false (trap_enter-aligned m'.cpu.csr cause val m'.cpu.pc m'.cpu.priv)
      (enter p.csr_run cause val m'.cpu.pc)

stepped-IsSound : (m : Machine) → IsSound m.cpu → IsSound (finish_step (step_inst m)).cpu
stepped-IsSound m s = finish_step-IsSound m (step_inst m) (step_inst-Ends m s.pc_aligned s.csr_run)

if-IsSound :
    (b : Bool) (x y : Machine) → IsSound x.cpu → IsSound y.cpu → IsSound (if b then x else y).cpu
if-IsSound true x y p q = p
if-IsSound false x y p q = q

-- Every step of the CPU keeps the invariant: x0 is 0, PC is a multiple of 4, and the CSRs and the mode are
-- reached from reset by accesses, traps, returns and updates.
pub cpu_step-IsSound : (m : Machine) → IsSound m.cpu → IsSound (cpu_step m).cpu
unfolding cpu_step
cpu_step-IsSound m s =
    let seen : IsSound (begin_step m).cpu = record {
      zero_reg = s.zero_reg;
      pc_aligned = s.pc_aligned;
      csr_run = begin s.csr_run m.cpu.meip m.cpu.msip m.cpu.mtip m.cpu.seip;
    } in
    let woken : IsSound (wake (begin_step m)).cpu = record {
      zero_reg = seen.zero_reg;
      pc_aligned = seen.pc_aligned;
      csr_run = seen.csr_run;
    } in
    if-IsSound m.cpu.wfi _ _
      (if-IsSound (interrupt_pending (begin_step m).cpu.csr) _ _ (stepped-IsSound _ woken) seen)
      (stepped-IsSound _ seen)
