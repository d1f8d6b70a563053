-- ===== src/Bus/Defs.antt =====
-- `bus_read` and `bus_write` of emulator/src/bus/bus.c, and `device_reset`, `device_update` and
-- `device_irq_level` of emulator/src/device/device.c. A status of 0 is `true`. The host's clock and
-- terminal are arguments, and a byte that the UART sends is a result.
use tiny_linux_rv.Prelude.{ℕ, Bool, true, false, ◌||◌, Option, none, ◌==◌, if◌then◌else◌}
use tiny_linux_rv.Memory.Defs.{
  Memory, check_addr_range, ram_read, ram_write, bootrom_read, bootrom_write,
}
use tiny_linux_rv.Syscon.Defs.{Syscon, syscon_read, syscon_write, syscon_reset}
use tiny_linux_rv.Uart.Defs.{
  Uart, HostInput, uart16550_read, uart16550_write, uart16550_reset, uart16550_poll_input,
  uart16550_irq_level,
}
use tiny_linux_rv.Clint.Defs.{
  Clint, clint_read, clint_write, clint_reset, clint_mtime_tick, clint_irq_level,
}
use tiny_linux_rv.Plic.Defs.{
  Plic, plic_read, plic_write, plic_reset, plic_irq_update, plic_meip, plic_seip,
}

-- Where `device_init` places a device.
pub record Region : Type 0 where
  pub base : ℕ
  pub size : ℕ

abbrev pub bootrom_region : Region
bootrom_region = record { base = 0x1000; size = 0x1000 }

abbrev pub syscon_region : Region
syscon_region = record { base = 0x100000; size = 0x1000 }

abbrev pub clint_region : Region
clint_region = record { base = 0x2000000; size = 0x10000 }

abbrev pub plic_region : Region
plic_region = record { base = 0xc000000; size = 0x4000000 }

abbrev pub uart0_region : Region
uart0_region = record { base = 0x10000000; size = 0x1000 }

-- The RAM and the devices that the bus reaches.
pub record Bus : Type 0 where
  pub memory : Memory
  pub bootrom : Memory
  pub syscon : Syscon
  pub uart0 : Uart
  pub clint : Clint
  pub plic : Plic

abbrev pub inside : ℕ → ℕ → Region → Bool
inside addr size region = check_addr_range addr size region.base region.size

abbrev uart_answer : Bus → Uart × Option ℕ → Bus × Option ℕ
uart_answer bus (u, v) = (record bus { uart0 = u }, v)

abbrev plic_answer : Bus → Plic × Option ℕ → Bus × Option ℕ
plic_answer bus (p, v) = (record bus { plic = p }, v)

unfoldable pub bus_read : Bus → ℕ → ℕ → Bus × Option ℕ
bus_read bus addr size =
    if inside addr size bootrom_region
    then (bus, bootrom_read bus.bootrom addr size)
    else if inside addr size syscon_region
    then (bus, syscon_read bus.syscon addr size)
    else if inside addr size uart0_region
    then uart_answer bus (uart16550_read bus.uart0 addr size)
    else if inside addr size clint_region
    then (bus, clint_read bus.clint addr size)
    else if inside addr size plic_region
    then plic_answer bus (plic_read bus.plic addr size)
    else if check_addr_range addr size bus.memory.base bus.memory.size
    then (bus, ram_read bus.memory addr size)
    else (bus, none)

-- The byte that is sent to the terminal comes last.
unfoldable pub bus_write : Bus → ℕ → ℕ → ℕ → Bus × Bool × Option ℕ
bus_write bus addr size data' =
    if inside addr size bootrom_region
    then (let done = bootrom_write bus.bootrom addr size data' in
        (record bus { bootrom = done.0 }, done.1, none))
    else if inside addr size syscon_region
    then (let done = syscon_write bus.syscon addr size data' in
        (record bus { syscon = done.0 }, done.1, none))
    else if inside addr size uart0_region
    then (let done = uart16550_write bus.uart0 addr size data' in
        (record bus { uart0 = done.0 }, done.1, done.2))
    else if inside addr size clint_region
    then (let done = clint_write bus.clint addr size data' in
        (record bus { clint = done.0 }, done.1, none))
    else if inside addr size plic_region
    then (let done = plic_write bus.plic addr size data' in
        (record bus { plic = done.0 }, done.1, none))
    else if check_addr_range addr size bus.memory.base bus.memory.size
    then (let done = ram_write bus.memory addr size data' in
        (record bus { memory = done.0 }, done.1, none))
    else (bus, false, none)

unfoldable pub device_reset : Bus → Bus
device_reset bus = record bus {
  syscon = syscon_reset bus.syscon;
  uart0 = uart16550_reset bus.uart0;
  clint = clint_reset bus.clint;
  plic = plic_reset bus.plic;
}

-- The clock ticks only if the input could be polled.
unfoldable pub device_update : Bus → HostInput → ℕ → Bus × Bool
device_update bus input time_ns =
    let polled = uart16550_poll_input bus.uart0 input in
    if polled.1
    then (record bus { uart0 = polled.0; clint = clint_mtime_tick bus.clint time_ns }, true)
    else (record bus { uart0 = polled.0 }, false)

pub record IrqLines : Type 0 where
  pub msip : Bool
  pub mtip : Bool
  pub meip : Bool
  pub seip : Bool

-- The UART is source 10 of the PLIC, and no other source has a device.
unfoldable pub device_irq_level : Bus → Bus × IrqLines × Bool
device_irq_level bus =
    let clint = (clint_irq_level bus.clint).0 in
    let serial = uart16550_irq_level bus.uart0 in
    let plic = plic_irq_update bus.plic (λ i. if i == 10 then serial.1 else false) in
    let lines : IrqLines = record {
      msip = clint.msip_line;
      mtip = clint.mtip_line;
      meip = plic_meip plic;
      seip = plic_seip plic;
    } in
    (
      record bus { clint = clint; uart0 = serial.0; plic = plic },
      lines,
      clint.msip_line || (clint.mtip_line || plic_meip plic),
    )
