-- ===== src/Cpu/Delivery.antt =====
-- How an interrupt reaches the guest: from the line of a device through emulator/src/device/plic.c and the CSRs
-- to the trap of `cpu_step` in emulator/src/cpu/cpu.c.
use tiny_linux_rv.Prelude.{
  ℕ, ◌+◌, bit_or, ◌≡◌, ◌∙◌, ap, ap₂, subst, inr, true, some, List, [], ◌∷◌, arith,
}
use tiny_linux_rv.Bits.{test_bit-zero, bits_ext}
use tiny_linux_rv.Csr.Field.{csr_field_get, test_bit-get}
use tiny_linux_rv.Csr.Defs.{Csr}
use tiny_linux_rv.Csr.Interrupt.{
  check_interrupt, first_interrupt, interrupt_order, interrupt_pending_and_enabled,
  interrupt_pending,
}
use tiny_linux_rv.Cpu.Defs.{Machine, result, raise, ◌>>=◌}
use tiny_linux_rv.Cpu.Step.{
  trap_interrupt, fetch, unless_interrupted, step_inst, begin_step, cpu_step,
}
use tiny_linux_rv.Cpu.Outcome.{Ends, IsKept}
use tiny_linux_rv.Cpu.Invariant.{IsSound, fetch-Ends}
use tiny_linux_rv.Cpu.Precise.{ready, IsTrapped, cpu_step-IsTrapped}

get-zero : (p w : ℕ) → csr_field_get 0 p w ≡ 0
get-zero p w =
    bits_ext _ _ λ i. ground (arith, test_bit-get 0 p w i, test_bit-zero (i + p), test_bit-zero i)

-- An interrupt that is taken is pending.
first_interrupt-pending :
    (c : Csr) (priv id : ℕ) (ids : List ℕ)
    → first_interrupt c priv ids ≡ some id
    → interrupt_pending c ≡ true
unfolding first_interrupt check_interrupt interrupt_pending
first_interrupt-pending c priv id [] e = ground arith
first_interrupt-pending c priv id (i ∷ ids) e =
    ground (arith, first_interrupt-pending c priv id ids, get-zero i 1)

-- The interrupt found before the instruction that was fetched is raised.
step_inst-interrupted :
    (m m' : Machine) (inst int_id : ℕ)
    → fetch m ≡ result inst m'
    → interrupt_pending_and_enabled m.cpu.csr m.cpu.priv ≡ some int_id
    → step_inst m ≡ raise m' (bit_or trap_interrupt int_id) 0
unfolding step_inst
step_inst-interrupted m m' inst int_id f e =
    let kept : IsKept m m' =
      subst (λ o. Ends (λ _ m''. IsKept m m'') (λ m''. IsKept m m'') o) f (fetch-Ends m) in
    ap
      (λ o. o >>= λ x.
        unless_interrupted (interrupt_pending_and_enabled x.1.cpu.csr x.1.cpu.priv) x.0 x.1)
      f
    ∙ ap (λ o. unless_interrupted o inst m')
        (ap₂ interrupt_pending_and_enabled kept.cpu_kept.csr kept.cpu_kept.priv ∙ e)

-- An enabled interrupt is taken at the next instruction. Of a CPU with x0 = 0, an aligned PC and CSRs reached
-- from reset: when the lines of the devices, as the step connects them to mip, make an interrupt pending and
-- enabled in the mode, and the instruction can be fetched, the step enters the trap of that interrupt with a
-- trap value of 0 instead of the instruction; registers and RAM are unchanged. This holds as well for a CPU
-- that waits in WFI, which thereby wakes.
pub cpu_step-interrupted :
    (m m' : Machine) (inst int_id : ℕ)
    → IsSound m.cpu
    → fetch (ready m) ≡ result inst m'
    → interrupt_pending_and_enabled (begin_step m).cpu.csr m.cpu.priv ≡ some int_id
    → IsTrapped m (begin_step m).cpu.csr (bit_or trap_interrupt int_id) 0 (cpu_step m)
unfolding interrupt_pending_and_enabled
cpu_step-interrupted m m' inst int_id s f e =
    let kept : IsKept (ready m) m' =
      subst (λ o. Ends (λ _ m''. IsKept (ready m) m'') (λ m''. IsKept (ready m) m'') o) f
        (fetch-Ends (ready m)) in
    let pending =
      first_interrupt-pending (begin_step m).cpu.csr m.cpu.priv int_id interrupt_order e in
    subst (λ c. IsTrapped m c (bit_or trap_interrupt int_id) 0 (cpu_step m)) kept.cpu_kept.csr
      (cpu_step-IsTrapped m m' (bit_or trap_interrupt int_id) 0 s (inr pending)
        (step_inst-interrupted (ready m) m' inst int_id f e))
