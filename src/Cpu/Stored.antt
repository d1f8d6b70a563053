-- ===== src/Cpu/Stored.antt =====
-- The stores of emulator/src/cpu/cpu.c reach the bus: EXEC_STORE.
use tiny_linux_rv.Prelude.{ℕ, ◌≡◌, ◌∙◌, sym, Option, refl, ap, Bool, true, false}
use tiny_linux_rv.Cpu.Defs.{Machine}
use tiny_linux_rv.Mmu.Defs.{
  mmu_write, Translation, mmu_valid, mmu_inst_access_fault, mmu_load_access_fault,
  mmu_store_amo_access_fault, mmu_inst_page_fault, mmu_load_page_fault, mmu_store_amo_page_fault,
}
use tiny_linux_rv.Csr.Trap.{effective_priv_mode}
use tiny_linux_rv.Tlb.Defs.{tlb_lookup}
use tiny_linux_rv.Bus.Defs.{Bus, bus_write}
use tiny_linux_rv.Cpu.Access.{
  pte_reader, unset_flag, translate, or_trap, wrote_or_trap, exec_store, ma_addr,
}
use tiny_linux_rv.Cpu.Outcome.{Ends, Ends-bind, Ends-if, Ends-weaken}

-- What the MMU makes of an address that is to be stored to.
abbrev pub store_translation : Machine → ℕ → Translation
store_translation m vaddr =
    let c = m.cpu in
    (tlb_lookup c.d_tlb (pte_reader m.bus) vaddr c.csr.csr_reg.satp c.csr.csr_reg.mstatus mmu_write
      (effective_priv_mode c.csr c.priv) unset_flag).1

-- The value was written to the bus, at the physical address that the MMU gives, and the bus took it.
abbrev pub IsStored : Machine → ℕ → ℕ → ℕ → Machine → Type 0
IsStored m vaddr data' size m' =
    (pa : ℕ) × (store_translation m vaddr ≡ mmu_valid pa)
    × (m'.bus ≡ (bus_write m.bus pa size data').0)
    × ((bus_write m.bus pa size data').1 ≡ true)

or_trap-valid :
    (q : Machine → Type 0) (m : Machine) (vaddr : ℕ) (t : Translation)
    → q m
    → Ends (λ pa m'. (t ≡ mmu_valid pa) × (m'.bus ≡ m.bus)) q (or_trap m vaddr t)
or_trap-valid q m vaddr (mmu_valid pa) h = (refl, refl)
or_trap-valid q m vaddr mmu_inst_access_fault h = h
or_trap-valid q m vaddr mmu_load_access_fault h = h
or_trap-valid q m vaddr mmu_store_amo_access_fault h = h
or_trap-valid q m vaddr mmu_inst_page_fault h = h
or_trap-valid q m vaddr mmu_load_page_fault h = h
or_trap-valid q m vaddr mmu_store_amo_page_fault h = h

wrote_or_trap-took :
    (m : Machine) (vaddr : ℕ) (o : Bus × Bool × Option ℕ)
    → Ends (λ _ m'. (m'.bus ≡ o.0) × (o.1 ≡ true)) (λ _. Unit {0}) (wrote_or_trap m vaddr o)
wrote_or_trap-took m vaddr (bus, true, byte) = (refl, refl)
wrote_or_trap-took m vaddr (bus, false, byte) = record {}

-- A store that does not trap has reached the bus.
pub exec_store-IsStored :
    (m : Machine) (vaddr data' size : ℕ)
    → Ends (λ _ m'. IsStored m vaddr data' size m') (λ _. Unit {0}) (exec_store m vaddr data' size)
unfolding exec_store translate
exec_store-IsStored m vaddr data' size =
    let t = store_translation m vaddr in
    Ends-bind (λ pa m'. (t ≡ mmu_valid pa) × (m'.bus ≡ m.bus))
      (λ _ m'. IsStored m vaddr data' size m') (λ _. Unit {0}) (translate m vaddr mmu_write) _
      (or_trap-valid (λ _. Unit {0}) _ vaddr t (record {}))
      (λ pa m' (valid, same).
        Ends-if (λ _ m''. IsStored m vaddr data' size m'') (λ _. Unit {0}) (ma_addr pa size) _ _
          (record {})
          (Ends-weaken
            (λ _ m''.
              (m''.bus ≡ (bus_write m'.bus pa size data').0)
              × ((bus_write m'.bus pa size data').1 ≡ true))
            (λ _ m''. IsStored m vaddr data' size m'') (λ _. Unit {0}) (λ _. Unit {0}) _
            (λ _ m'' (bus, took). (
              pa,
              valid,
              bus ∙ ap (λ b. (bus_write b pa size data').0) same,
              sym (ap (λ b. (bus_write b pa size data').1) same) ∙ took,
            ))
            (λ _ h. h) (wrote_or_trap-took m' vaddr (bus_write m'.bus pa size data'))))
