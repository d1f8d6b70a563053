-- ===== src/Bus/Tests.antt =====
-- The bus of the sample machine at work, and the theorems about it.
use tiny_linux_rv.Prelude.{◌≡◌, refl, true, false, none, some, arith}
use tiny_linux_rv.Memory.Defs.{check_addr_range, ram_write}
use tiny_linux_rv.Syscon.Defs.{syscon_write}
use tiny_linux_rv.Uart.Field.{field_read}
use tiny_linux_rv.Uart.Defs.{uart16550_write}
use tiny_linux_rv.Clint.Defs.{clint_write}
use tiny_linux_rv.Plic.Defs.{plic_write}
use tiny_linux_rv.Bus.Defs.{
  bus_write, inside, syscon_region, uart0_region, clint_region, plic_region, bootrom_region,
}
use tiny_linux_rv.Bus.Sample.{machine}
use tiny_linux_rv.Bus.Dispatch.{unmapped, bus_write_routes}

-- The letter `A` goes to the terminal.
sent : (bus_write machine 0x10000000 1 65).2 ≡ some 65
unfolding bus_write check_addr_range uart16550_write field_read
sent = refl

bus_write_routes_example :
    (inside 0x10000000 1 syscon_region ≡ true
      → bus_write machine 0x10000000 1 65 ≡ (
        record machine { syscon = (syscon_write machine.syscon 0x10000000 1 65).0 },
        (syscon_write machine.syscon 0x10000000 1 65).1,
        none,
      ))
    × (inside 0x10000000 1 uart0_region ≡ true
        → bus_write machine 0x10000000 1 65 ≡ (
          record machine { uart0 = (uart16550_write machine.uart0 0x10000000 1 65).0 },
          (uart16550_write machine.uart0 0x10000000 1 65).1,
          (uart16550_write machine.uart0 0x10000000 1 65).2,
        ))
    × (inside 0x10000000 1 clint_region ≡ true
        → bus_write machine 0x10000000 1 65 ≡ (
          record machine { clint = (clint_write machine.clint 0x10000000 1 65).0 },
          (clint_write machine.clint 0x10000000 1 65).1,
          none,
        ))
    × (inside 0x10000000 1 plic_region ≡ true
        → bus_write machine 0x10000000 1 65 ≡ (
          record machine { plic = (plic_write machine.plic 0x10000000 1 65).0 },
          (plic_write machine.plic 0x10000000 1 65).1,
          none,
        ))
    × (check_addr_range 0x10000000 1 machine.memory.base machine.memory.size ≡ true
        → bus_write machine 0x10000000 1 65 ≡ (
          record machine { memory = (ram_write machine.memory 0x10000000 1 65).0 },
          (ram_write machine.memory 0x10000000 1 65).1,
          none,
        ))
    × (inside 0x10000000 1 bootrom_region ≡ true
        → bus_write machine 0x10000000 1 65 ≡ (machine, false, none))
    × (unmapped machine 0x10000000 1 ≡ true
        → bus_write machine 0x10000000 1 65 ≡ (machine, false, none))
bus_write_routes_example = bus_write_routes machine 0x10000000 1 65 (omega arith) (omega arith)
