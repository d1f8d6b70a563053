-- ===== src/Cpu/External.antt =====
-- From the interrupt line of the UART to the trap: emulator/src/device/device.c, emulator/src/device/plic.c,
-- emulator/src/cpu/cpu_exec.c and emulator/src/cpu/cpu.c together.
use tiny_linux_rv.Prelude.{
  ℕ, zero, suc, ◌+◌, ◌^◌, ◌<◌, ◌≤◌, bit_or, ◌≡◌, ◌⊎◌, ◌∙◌, refl, sym, ap, subst, Bool, true, false,
  some, ◌==◌, nonzero, if◌then◌else◌, arith,
}
use tiny_linux_rv.Bits.{test_bit}
use tiny_linux_rv.Csr.Field.{csr_field_get, test_bit-get, get-lt}
use tiny_linux_rv.Csr.Masks.{int_meip}
use tiny_linux_rv.Csr.Defs.{Csr, priv_m}
use tiny_linux_rv.Csr.Interrupt.{
  check_interrupt, first_interrupt, interrupt_pending_and_enabled, csr_begin_update,
}
use tiny_linux_rv.Csr.Masking.{csr_begin_update_mip}
use tiny_linux_rv.Plic.Defs.{Plic, max_interrupt, irq_update_scan, plic_irq_update, plic_meip}
use tiny_linux_rv.Plic.Valid.{gateway_pending, gateway_busy, gateway_regs}
use tiny_linux_rv.Plic.Claim.{Interrupts, interrupt_per_context_iff}
use tiny_linux_rv.Uart.Defs.{uart16550_irq_level}
use tiny_linux_rv.Bus.Defs.{device_irq_level}
use tiny_linux_rv.Cpu.Defs.{Machine, result}
use tiny_linux_rv.Cpu.Step.{trap_interrupt, fetch, begin_step, cpu_step}
use tiny_linux_rv.Cpu.Exec.{connect_irq}
use tiny_linux_rv.Cpu.Invariant.{IsSound}
use tiny_linux_rv.Cpu.Precise.{ready, IsTrapped}
use tiny_linux_rv.Cpu.Delivery.{cpu_step-interrupted}

-- What an update of the lines keeps of the controller.
irq_update_scan-regs :
    (p : Plic) (lines : ℕ → Bool) (n : ℕ)
    → ((irq_update_scan p lines n).regs.priority ≡ p.regs.priority)
      × ((irq_update_scan p lines n).regs.enable ≡ p.regs.enable)
      × ((irq_update_scan p lines n).regs.threshold ≡ p.regs.threshold)
unfolding irq_update_scan
irq_update_scan-regs p lines zero = (refl, refl, refl)
irq_update_scan-regs p lines (suc n) =
    let (a, b, c) = irq_update_scan-regs p lines n in
    let (x, y, z, _) = gateway_regs (irq_update_scan p lines n) n (lines n) in (x ∙ a, y ∙ b, z ∙ c)

-- The gateways below `n` do not touch those from `n` on.
irq_update_scan-busy :
    (p : Plic) (lines : ℕ → Bool) (n i : ℕ)
    → n ≤ i
    → 0 < i
    → (irq_update_scan p lines n).gw_busy i ≡ p.gw_busy i
unfolding irq_update_scan
irq_update_scan-busy p lines zero i h h' = refl
irq_update_scan-busy p lines (suc n) i h h' = ground (
  arith,
  gateway_busy (irq_update_scan p lines n) n (lines n) i,
  irq_update_scan-busy p lines n i,
)

-- The line of source 10 is up, and its gateway free: the source is pending.
source_10-pending :
    (p : Plic) (lines : ℕ → Bool)
    → lines 10 ≡ true
    → p.gw_busy 10 ≡ false
    → test_bit ((plic_irq_update p lines).regs.pending 0) 10 ≡ true
unfolding plic_irq_update irq_update_scan
source_10-pending p lines up free = ground (
  arith,
  gateway_pending (irq_update_scan p lines 10) 10 (lines 10) 10,
  irq_update_scan-busy p lines 10 10,
)

-- The UART's interrupt at the controller: its source is enabled in the context of M-mode with a priority above
-- the threshold, and its gateway is free.
pub record IsRouted (p : Plic) : Type 0 where
  pub free : p.gw_busy 10 ≡ false
  pub enabled : test_bit (p.regs.enable 0 0) 10 ≡ true
  pub urgent : p.regs.threshold 0 < p.regs.priority 10

plic_irq_update-meip :
    (p : Plic) (lines : ℕ → Bool)
    → lines 10 ≡ true
    → IsRouted p
    → plic_meip (plic_irq_update p lines) ≡ true
unfolding plic_meip plic_irq_update
plic_irq_update-meip p lines up r =
    let q = plic_irq_update p lines in
    let (x, y, z) = irq_update_scan-regs p lines max_interrupt in
    let waiting = source_10-pending p lines up r.free in
    let enabled : test_bit (q.regs.enable 0 0) 10 ≡ true =
      ap (λ f. test_bit (f 0 0) 10) y ∙ r.enabled in
    let threshold : q.regs.threshold 0 ≡ p.regs.threshold 0 = ap (λ f. f 0) z in
    let priority : q.regs.priority 10 ≡ p.regs.priority 10 = ap (λ f. f 10) x in
    let found : Interrupts q 0 10 = ground (arith, r.urgent) in
    (interrupt_per_context_iff q 0).1 (10, omega arith, found)

-- The line reaches the CPU, and nothing else of it changes but the other lines.
connect_irq-meip :
    (m : Machine)
    → (uart16550_irq_level m.bus.uart0).1 ≡ true
    → IsRouted m.bus.plic
    → (connect_irq m).cpu.meip ≡ true
unfolding connect_irq device_irq_level
connect_irq-meip m up r = plic_irq_update-meip m.bus.plic (λ i. if i == 10 then _ else false) up r

-- M-mode takes external interrupts: they are enabled and not delegated, and the mode is below M or MIE is set.
pub record TakesExternal (c : Csr) (priv : ℕ) : Type 0 where
  pub enabled : test_bit c.csr_reg.mie 11 ≡ true
  pub not_delegated : test_bit c.csr_reg.mideleg 11 ≡ false
  pub mode : (priv < priv_m) ⊎ ((priv ≡ priv_m) × (test_bit c.csr_reg.mstatus 3 ≡ true))

-- A field of one bit.
nonzero-get : (r p : ℕ) → nonzero (csr_field_get r p 1) ≡ test_bit r p
unfolding test_bit
nonzero-get r p = ground (arith, test_bit-get r p 1 0, get-lt r p 1)

meip-fires :
    (c : Csr) (priv : ℕ) (msip mtip seip : Bool)
    → TakesExternal c priv
    → check_interrupt (csr_begin_update c true msip mtip seip) priv int_meip ≡ true
unfolding check_interrupt csr_begin_update
meip-fires c priv msip mtip seip t =
    let b = csr_begin_update c true msip mtip seip in
    ground (
      arith,
      csr_begin_update_mip c true msip mtip seip 11,
      nonzero-get b.csr_reg.mip 11,
      nonzero-get c.csr_reg.mie 11,
      nonzero-get c.csr_reg.mideleg 11,
      nonzero-get c.csr_reg.mstatus 3,
      t.mode,
    )

meip-first :
    (c : Csr) (priv : ℕ) (msip mtip seip : Bool)
    → TakesExternal c priv
    → interrupt_pending_and_enabled (csr_begin_update c true msip mtip seip) priv ≡ some int_meip
unfolding interrupt_pending_and_enabled first_interrupt
meip-first c priv msip mtip seip t = rw (meip-fires c priv msip mtip seip t) refl

-- An interrupt of the UART is delivered. When the UART raises its interrupt, its source 10 is enabled at the
-- PLIC for M-mode with a priority above the threshold and its gateway is free, and M-mode takes external
-- interrupts, then the CPU, which is sound and waits or not, enters M-mode's trap for the external interrupt
-- in the step after the loop has connected the lines, provided the instruction at PC can be fetched; registers
-- and RAM are unchanged.
pub external_interrupt-delivered :
    (m m' : Machine) (inst : ℕ)
    → (uart16550_irq_level m.bus.uart0).1 ≡ true
    → IsRouted m.bus.plic
    → TakesExternal m.cpu.csr m.cpu.priv
    → IsSound m.cpu
    → fetch (ready (connect_irq m)) ≡ result inst m'
    → IsTrapped
        (connect_irq m)
        (begin_step (connect_irq m)).cpu.csr
        (bit_or trap_interrupt int_meip)
        0
        (cpu_step (connect_irq m))
      × (bit_or trap_interrupt int_meip ≡ 2 ^ 63 + 11)
unfolding connect_irq
external_interrupt-delivered m m' inst up r t s f =
    let c = (connect_irq m).cpu in
    let seen : interrupt_pending_and_enabled (begin_step (connect_irq m)).cpu.csr m.cpu.priv
        ≡ some int_meip =
      subst
        (λ b.
          interrupt_pending_and_enabled (csr_begin_update m.cpu.csr b c.msip c.mtip c.seip)
            m.cpu.priv
          ≡ some int_meip)
        (sym (connect_irq-meip m up r)) (meip-first m.cpu.csr m.cpu.priv c.msip c.mtip c.seip t) in
    (
      cpu_step-interrupted (connect_irq m) m' inst int_meip
          record { zero_reg = s.zero_reg; pc_aligned = s.pc_aligned; csr_run = s.csr_run } f seen,
      refl,
    )
