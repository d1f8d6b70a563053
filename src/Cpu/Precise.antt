-- ===== src/Cpu/Precise.antt =====
-- The traps of `cpu_step` in emulator/src/cpu/cpu.c are precise: what an exception or an interrupt leaves.
use tiny_linux_rv.Prelude.{
  ℕ, ◌≡◌, ◌⊎◌, ◌∙◌, refl, sym, ap, ap₂, subst, fun_ext, inl, inr, Bool, true, false, if◌then◌else◌,
  arith, Bool-cases, update,
}
use tiny_linux_rv.Csr.Defs.{Csr}
use tiny_linux_rv.Csr.Trap.{trap_enter}
use tiny_linux_rv.Csr.Interrupt.{csr_end_update, interrupt_pending}
use tiny_linux_rv.Csr.Reach.{begin}
use tiny_linux_rv.Cpu.Defs.{Machine, raise}
use tiny_linux_rv.Cpu.Execute.{void_tlbs}
use tiny_linux_rv.Cpu.Step.{
  step_inst, end_exec, raise_exception, finish_step, begin_step, wake, cpu_step,
}
use tiny_linux_rv.Cpu.Outcome.{Ends}
use tiny_linux_rv.Cpu.Frame.{Proceeds, IsPrecise}
use tiny_linux_rv.Cpu.Invariant.{IsSound, step_inst-Ends}

-- What the label `end_exec` leaves of a machine.
abbrev IsEnded : Machine → ℕ → Bool → Machine → Type 0
IsEnded m next_pc retired m' =
    (m'.cpu.regs ≡ update m.cpu.regs 0 0)
    × (m'.cpu.pc ≡ next_pc)
    × (m'.cpu.csr ≡ csr_end_update m.cpu.csr retired)
    × (m'.cpu.priv ≡ m.cpu.priv)
    × (m'.bus ≡ m.bus)

end_exec_lem :
    (m : Machine) (next_pc : ℕ) (retired : Bool)
    → IsEnded m next_pc retired (end_exec m next_pc retired)
unfolding end_exec
end_exec_lem m next_pc retired = flushed m.cpu.csr.satp_written
  where
    flushed :
        (b : Bool)
        → IsEnded m next_pc retired (
            let done = record m {
              cpu = record (m.cpu) { regs = update m.cpu.regs 0 0; pc = next_pc };
            } in
            let f = if b then void_tlbs done else done in
            record f { cpu = record (f.cpu) { csr = csr_end_update f.cpu.csr retired } })
    flushed true = (refl, refl, refl, refl, refl)
    flushed false = (refl, refl, refl, refl, refl)

-- x0 is written with the value that it has.
regs-zero : (regs : ℕ → ℕ) → regs 0 ≡ 0 → update regs 0 0 ≡ regs
regs-zero regs h = fun_ext λ i. ground arith

-- The machine that a step starts with.
abbrev pub ready : Machine → Machine
ready m = wake (begin_step m)

-- The CPU does not wait, or an interrupt is pending.
abbrev pub IsAwake : Machine → Type 0
IsAwake m = (m.cpu.wfi ≡ false) ⊎ (interrupt_pending (begin_step m).cpu.csr ≡ true)

-- `cpu_step` by what it tests.
by_tests : Machine → Bool → Bool → Machine
by_tests m wfi pending =
    if wfi
    then (if pending then finish_step (step_inst (ready m)) else begin_step m)
    else finish_step (step_inst (begin_step m))

ready-running : (m : Machine) → m.cpu.wfi ≡ false → begin_step m ≡ ready m
ready-running m h =
    ap (λ b. record (begin_step m) { cpu = record ((begin_step m).cpu) { wfi = b } }) h

cpu_step-running :
    (m : Machine) → m.cpu.wfi ≡ false → cpu_step m ≡ finish_step (step_inst (ready m))
unfolding cpu_step by_tests
cpu_step-running m h =
    ap (λ b. by_tests m b (interrupt_pending (begin_step m).cpu.csr)) h
    ∙ ap (λ x. finish_step (step_inst x)) (ready-running m h)

pub cpu_step-awake : (m : Machine) → IsAwake m → cpu_step m ≡ finish_step (step_inst (ready m))
unfolding cpu_step by_tests
cpu_step-awake m (inl h) = cpu_step-running m h
cpu_step-awake m (inr h) = elim (Bool-cases m.cpu.wfi) [
  | inl w ↦ ap₂ (λ wfi pending. by_tests m wfi pending) w h
  | inr w ↦ cpu_step-running m w
]

-- `after` is `m` with the trap `cause` taken: PC, the mode and the CSRs are those of trap_enter for the address
-- of the instruction, and no register and no byte of the RAM has changed.
abbrev pub IsTrapped : Machine → Csr → ℕ → ℕ → Machine → Type 0
IsTrapped m csr cause val after =
    let j = trap_enter csr cause val m.cpu.pc m.cpu.priv in
    (after.cpu.pc ≡ j.next_pc)
    × (after.cpu.priv ≡ j.priv)
    × (after.cpu.csr ≡ csr_end_update j.csr false)
    × (after.cpu.regs ≡ m.cpu.regs)
    × (after.bus.memory ≡ m.bus.memory)

raise_exception-IsTrapped :
    (m m' : Machine) (cause val : ℕ)
    → m.cpu.regs 0 ≡ 0
    → IsPrecise m m'
    → IsTrapped m m'.cpu.csr cause val (raise_exception m' cause val)
unfolding raise_exception
raise_exception-IsTrapped m m' cause val h p =
    let entered = ap₂ (λ pc priv. trap_enter m'.cpu.csr cause val pc priv) p.pc p.priv in
    let j = trap_enter m'.cpu.csr cause val m'.cpu.pc m'.cpu.priv in
    let (regs, pc, csr, priv, bus) =
      end_exec_lem (record m' { cpu = record (m'.cpu) { csr = j.csr; priv = j.priv } }) j.next_pc
        false in
    (
      pc ∙ ap (λ k. k.next_pc) entered,
      priv ∙ ap (λ k. k.priv) entered,
      csr ∙ ap (λ k. csr_end_update k.csr false) entered,
      regs ∙ ap (λ f. update f 0 0) p.regs ∙ regs-zero m.cpu.regs h,
      ap (λ b. b.memory) bus ∙ p.memory,
    )

-- Traps are precise. Of a CPU with x0 = 0, an aligned PC and CSRs reached from reset, that does not wait for an
-- interrupt or has one pending: when the fetch, the check of the interrupts or the instruction raises a trap,
-- the step enters the trap at PC and in the mode before the step, does not count the instruction as retired,
-- and leaves all the registers and the whole RAM as they were.
pub cpu_step-IsTrapped :
    (m m' : Machine) (cause val : ℕ)
    → IsSound m.cpu
    → IsAwake m
    → step_inst (ready m) ≡ raise m' cause val
    → IsTrapped m m'.cpu.csr cause val (cpu_step m)
cpu_step-IsTrapped m m' cause val s h e =
    let precise : IsPrecise (ready m) m' =
      subst (λ o. Ends Proceeds (λ m''. IsPrecise (ready m) m'') o) e
        (step_inst-Ends (ready m) s.pc_aligned
          (begin s.csr_run m.cpu.meip m.cpu.msip m.cpu.mtip m.cpu.seip)) in
    subst (λ x. IsTrapped m m'.cpu.csr cause val x) (sym (cpu_step-awake m h ∙ ap finish_step e))
      (raise_exception-IsTrapped (ready m) m' cause val s.zero_reg precise)
