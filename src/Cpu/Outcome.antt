-- ===== src/Cpu/Outcome.antt =====
-- What the parts of `cpu_step` in emulator/src/cpu/cpu.c keep, on every way out: conditions on the results and
-- on the traps of a `Run`, and the frame of the translations, loads and stores.
use tiny_linux_rv.Prelude.{
  ℕ, ◌≡◌, ◌∙◌, refl, Bool, true, false, Option, none, some, if◌then◌else◌, arith,
}
use tiny_linux_rv.Memory.Defs.{ram_write}
use tiny_linux_rv.Mmu.Defs.{
  AccessMode, Translation, mmu_valid, mmu_inst_access_fault, mmu_load_access_fault,
  mmu_store_amo_access_fault, mmu_inst_page_fault, mmu_load_page_fault, mmu_store_amo_page_fault,
}
use tiny_linux_rv.Bus.Defs.{Bus, bus_read, bus_write}
use tiny_linux_rv.Cpu.Defs.{Machine, Run, result, raise, ◌>>=◌}
use tiny_linux_rv.Cpu.Access.{
  translate, or_trap, read_or_trap, wrote_or_trap, exec_load, exec_store, ma_addr,
}

-- A condition on what is returned, and one on the state at a trap.
abbrev pub Ends {ℓ κ} : {A : Type ℓ} → (A → Machine → Type κ) → (Machine → Type κ) → Run A → Type κ
Ends p q (result a m) = p a m
Ends p q (raise m cause val) = q m

pub Ends-bind {ℓ κ μ} :
    {A : Type ℓ} {B : Type κ} (p : A → Machine → Type μ) (p' : B → Machine → Type μ)
    (q : Machine → Type μ) (r : Run A) (k : A × Machine → Run B)
    → Ends p q r
    → ((a : A) (m : Machine) → p a m → Ends p' q (k (a, m)))
    → Ends p' q (r >>= k)
Ends-bind p p' q (result a m) k h f = f a m h
Ends-bind p p' q (raise m cause val) k h f = h

pub Ends-if {ℓ κ} :
    {A : Type ℓ} (p : A → Machine → Type κ) (q : Machine → Type κ) (b : Bool) (r r' : Run A)
    → Ends p q r
    → Ends p q r'
    → Ends p q (if b then r else r')
Ends-if p q true r r' h h' = h
Ends-if p q false r r' h h' = h'

pub Ends-weaken {ℓ κ} :
    {A : Type ℓ} (p p' : A → Machine → Type κ) (q q' : Machine → Type κ) (r : Run A)
    → ((a : A) (m : Machine) → p a m → p' a m)
    → ((m : Machine) → q m → q' m)
    → Ends p q r
    → Ends p' q' r
Ends-weaken p p' q q' (result a m) f g h = f a m h
Ends-weaken p p' q q' (raise m cause val) f g h = g m h

-- The registers, PC, the CSRs, the mode and the reservation are those of `m`; and so is the RAM.
pub record IsCpuKept (m m' : Machine) : Type 0 where
  pub regs : m'.cpu.regs ≡ m.cpu.regs
  pub pc : m'.cpu.pc ≡ m.cpu.pc
  pub csr : m'.cpu.csr ≡ m.cpu.csr
  pub priv : m'.cpu.priv ≡ m.cpu.priv
  pub res : m'.cpu.res ≡ m.cpu.res

pub record IsKept (m m' : Machine) : Type 0 where
  pub cpu_kept : IsCpuKept m m'
  pub memory : m'.bus.memory ≡ m.bus.memory

pub bus_read-memory : (bus : Bus) (addr size : ℕ) → (bus_read bus addr size).0.memory ≡ bus.memory
unfolding bus_read
bus_read-memory bus addr size = ground arith

-- A write that fails leaves the RAM as it was.
pub bus_write-memory :
    (bus : Bus) (addr size data' : ℕ)
    → (bus_write bus addr size data').1 ≡ false
    → (bus_write bus addr size data').0.memory ≡ bus.memory
unfolding bus_write ram_write
bus_write-memory bus addr size data' e = ground arith

pub or_trap-kept :
    (q : Machine → Type 0) (m : Machine) (vaddr : ℕ) (t : Translation)
    → q m
    → Ends (λ pa m'. q m') q (or_trap m vaddr t)
or_trap-kept q m vaddr (mmu_valid pa) h = h
or_trap-kept q m vaddr mmu_inst_access_fault h = h
or_trap-kept q m vaddr mmu_load_access_fault h = h
or_trap-kept q m vaddr mmu_store_amo_access_fault h = h
or_trap-kept q m vaddr mmu_inst_page_fault h = h
or_trap-kept q m vaddr mmu_load_page_fault h = h
or_trap-kept q m vaddr mmu_store_amo_page_fault h = h

pub read_or_trap-kept :
    (q : Machine → Type 0) (m : Machine) (vaddr cause : ℕ) (o : Bus × Option ℕ)
    → q (record m { bus = o.0 })
    → Ends (λ v m'. q m') q (read_or_trap m vaddr cause o)
read_or_trap-kept q m vaddr cause (bus, none) h = h
read_or_trap-kept q m vaddr cause (bus, some v) h = h

wrote_or_trap-IsKept :
    (m m' : Machine) (vaddr : ℕ) (o : Bus × Bool × Option ℕ)
    → IsKept m m'
    → (o.1 ≡ false → o.0.memory ≡ m'.bus.memory)
    → Ends (λ _ m''. IsCpuKept m m'') (λ m''. IsKept m m'') (wrote_or_trap m' vaddr o)
wrote_or_trap-IsKept m m' vaddr (bus, true, byte) k h = record {
  regs = k.cpu_kept.regs;
  pc = k.cpu_kept.pc;
  csr = k.cpu_kept.csr;
  priv = k.cpu_kept.priv;
  res = k.cpu_kept.res;
}
wrote_or_trap-IsKept m m' vaddr (bus, false, byte) k h = record {
  cpu_kept = record {
    regs = k.cpu_kept.regs;
    pc = k.cpu_kept.pc;
    csr = k.cpu_kept.csr;
    priv = k.cpu_kept.priv;
    res = k.cpu_kept.res;
  };
  memory = h refl ∙ k.memory;
}

translate-IsKept :
    (m : Machine) (vaddr : ℕ) (mode : AccessMode)
    → Ends (λ pa m'. IsKept m m') (λ m'. IsKept m m') (translate m vaddr mode)
unfolding translate
translate-IsKept m vaddr mode =
    or_trap-kept (λ m'. IsKept m m') _ vaddr _
      record {
        cpu_kept = record { regs = refl; pc = refl; csr = refl; priv = refl; res = refl };
        memory = refl;
      }

-- A load changes neither the registers nor the RAM, whether it traps or not.
pub exec_load-IsKept :
    (m : Machine) (vaddr size cause : ℕ) (mode : AccessMode)
    → Ends (λ v m'. IsKept m m') (λ m'. IsKept m m') (exec_load m vaddr size cause mode)
unfolding exec_load
exec_load-IsKept m vaddr size cause mode =
    Ends-bind (λ pa m'. IsKept m m') (λ v m'. IsKept m m') (λ m'. IsKept m m')
      (translate m vaddr mode) _ (translate-IsKept m vaddr mode)
      (λ addr m' k.
        Ends-if (λ v m'. IsKept m m') (λ m'. IsKept m m') (ma_addr addr size) _ _ k
          (read_or_trap-kept (λ m'. IsKept m m') m' vaddr cause (bus_read m'.bus addr size)
            record {
              cpu_kept = record {
                regs = k.cpu_kept.regs;
                pc = k.cpu_kept.pc;
                csr = k.cpu_kept.csr;
                priv = k.cpu_kept.priv;
                res = k.cpu_kept.res;
              };
              memory = bus_read-memory m'.bus addr size ∙ k.memory;
            }))

-- A store changes no register, and a store that traps does not change the RAM.
pub exec_store-IsKept :
    (m : Machine) (vaddr data' size : ℕ)
    → Ends (λ _ m'. IsCpuKept m m') (λ m'. IsKept m m') (exec_store m vaddr data' size)
unfolding exec_store
exec_store-IsKept m vaddr data' size =
    Ends-bind (λ pa m'. IsKept m m') (λ _ m'. IsCpuKept m m') (λ m'. IsKept m m')
      (translate m vaddr _) _ (translate-IsKept m vaddr _)
      (λ addr m' k.
        Ends-if (λ _ m'. IsCpuKept m m') (λ m'. IsKept m m') (ma_addr addr size) _ _ k
          (wrote_or_trap-IsKept m m' vaddr (bus_write m'.bus addr size data') k
            (bus_write-memory m'.bus addr size data')))
