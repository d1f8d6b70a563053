-- ===== src/Bus/Dispatch.antt =====
-- The dispatch of emulator/src/bus/bus.c: which device an address reaches, and what a wide read does.
use tiny_linux_rv.Prelude.{
  ℕ, ◌+◌, ◌≤◌, ◌<◌, ◌≡◌, refl, ap, Bool, true, false, not, ◌||◌, none, arith,
}
use tiny_linux_rv.Memory.Defs.{check_addr_range, ram_write, bootrom_write}
use tiny_linux_rv.Syscon.Defs.{syscon_write}
use tiny_linux_rv.Uart.Defs.{Uart, uart16550_read, uart16550_write}
use tiny_linux_rv.Clint.Defs.{clint_write}
use tiny_linux_rv.Plic.Defs.{Plic, plic_read, plic_write, addr_decode, read_kind}
use tiny_linux_rv.Bus.Defs.{
  Bus, bus_read, bus_write, inside, bootrom_region, syscon_region, uart0_region, clint_region,
  plic_region,
}

plic_wide : (p : Plic) (addr : ℕ) → (plic_read p addr 8).0 ≡ p
unfolding plic_read addr_decode read_kind
plic_wide p addr = refl

uart_wide : (u : Uart) (addr : ℕ) → (uart16550_read u addr 8).0 ≡ u
unfolding uart16550_read
uart_wide u addr = refl

-- A read of 8 bytes, as the walk of the page table makes, changes nothing, whatever it reaches.
pub bus_read_wide : (bus : Bus) (addr : ℕ) → (bus_read bus addr 8).0 ≡ bus
unfolding bus_read
bus_read_wide bus addr = ground (
  arith,
  ap (λ (u : Uart). record bus { uart0 = u }) (uart_wide bus.uart0 addr),
  ap (λ (p : Plic). record bus { plic = p }) (plic_wide bus.plic addr),
)

-- The RAM lies above the devices.
abbrev pub Placed : Bus → Type 0
Placed bus = plic_region.base + plic_region.size + uart0_region.size ≤ bus.memory.base

-- Outside every region.
abbrev pub unmapped : Bus → ℕ → ℕ → Bool
unmapped bus addr size = not (
    inside addr size bootrom_region
    || (inside addr size syscon_region
        || (inside addr size uart0_region
            || (inside addr size clint_region
                || (inside addr size plic_region
                    || check_addr_range addr size bus.memory.base bus.memory.size)))))

-- With the RAM above the devices, a write of at least one byte inside the region of a device, or inside
-- the RAM, is the write of that device alone, whatever the order in which the bus tries them; a write
-- to the boot ROM, or outside every region, fails and changes nothing.
pub bus_write_routes :
    (bus : Bus) (addr size v : ℕ)
    → Placed bus
    → 0 < size
    → (inside addr size syscon_region ≡ true
        → bus_write bus addr size v ≡ (
          record bus { syscon = (syscon_write bus.syscon addr size v).0 },
          (syscon_write bus.syscon addr size v).1,
          none,
        ))
      × (inside addr size uart0_region ≡ true
          → bus_write bus addr size v ≡ (
            record bus { uart0 = (uart16550_write bus.uart0 addr size v).0 },
            (uart16550_write bus.uart0 addr size v).1,
            (uart16550_write bus.uart0 addr size v).2,
          ))
      × (inside addr size clint_region ≡ true
          → bus_write bus addr size v ≡ (
            record bus { clint = (clint_write bus.clint addr size v).0 },
            (clint_write bus.clint addr size v).1,
            none,
          ))
      × (inside addr size plic_region ≡ true
          → bus_write bus addr size v ≡ (
            record bus { plic = (plic_write bus.plic addr size v).0 },
            (plic_write bus.plic addr size v).1,
            none,
          ))
      × (check_addr_range addr size bus.memory.base bus.memory.size ≡ true
          → bus_write bus addr size v ≡ (
            record bus { memory = (ram_write bus.memory addr size v).0 },
            (ram_write bus.memory addr size v).1,
            none,
          ))
      × (inside addr size bootrom_region ≡ true → bus_write bus addr size v ≡ (bus, false, none))
      × (unmapped bus addr size ≡ true → bus_write bus addr size v ≡ (bus, false, none))
unfolding bus_write check_addr_range bootrom_write
bus_write_routes bus addr size v placed some_bytes = (
  λ h. ground (arith, h),
  λ h. ground (arith, h),
  λ h. ground (arith, h),
  λ h. ground (arith, h),
  λ h. ground (arith, h),
  λ h. ground (arith, h),
  λ h. ground (arith, h),
)
