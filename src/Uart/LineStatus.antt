-- ===== src/Uart/LineStatus.antt =====
-- A read of the line status register of emulator/src/device/uart16550.c.
use tiny_linux_rv.Prelude.{ℕ, ◌≡◌, ap, ◌∙◌, refl, false, arith, ltb, to_num, if◌then◌else◌, some}
use tiny_linux_rv.Word.{u8, sub64}
use tiny_linux_rv.Uart.Field.{field_read, field_write, read-write_self, read-write_ne}
use tiny_linux_rv.Uart.Defs.{Uart, lsr_value, uart16550_read}

-- The fields of the value that is read.
lsr_fields :
    (u : Uart)
    → (field_read (lsr_value u) 0 1 ≡ (if ltb 0 u.rx_fifo.size then 1 else 0))
      × (field_read (lsr_value u) 1 1 ≡ to_num u.rx_fifo.overrun)
      × (field_read (lsr_value u) 5 1 ≡ 1)
      × (field_read (lsr_value u) 6 1 ≡ 1)
unfolding lsr_value
lsr_fields u =
    let r = u.reg.lsr in
    let d = if ltb 0 u.rx_fifo.size then 1 else 0 in
    let o = to_num u.rx_fifo.overrun in
    let dr = field_write r d 0 1 in
    let oe = field_write dr o 1 1 in
    let five = field_write oe 1 5 1 in
    (
      read-write_ne five 1 6 1 0 1 (ground arith) (ground arith) (ground arith) (ground arith)
          ∙ read-write_ne oe 1 5 1 0 1 (ground arith) (ground arith) (ground arith) (ground arith)
          ∙ read-write_ne dr o 1 1 0 1 (ground arith) (ground arith) (ground arith) (ground arith)
          ∙ read-write_self r d 0 1 (ground arith) (ground arith)
          ∙ ground arith,
      read-write_ne five 1 6 1 1 1 (ground arith) (ground arith) (ground arith) (ground arith)
          ∙ read-write_ne oe 1 5 1 1 1 (ground arith) (ground arith) (ground arith) (ground arith)
          ∙ read-write_self dr o 1 1 (ground arith) (ground arith)
          ∙ ground arith,
      read-write_ne five 1 6 1 5 1 (ground arith) (ground arith) (ground arith) (ground arith)
          ∙ read-write_self oe 1 5 1 (ground arith) (ground arith),
      read-write_self five 1 6 1 (ground arith) (ground arith),
    )

lsr_byte : (u : Uart) → u8 (lsr_value u) ≡ lsr_value u
unfolding lsr_value field_write
lsr_byte u = omega arith

read_lsr_lem :
    (u : Uart) (addr : ℕ)
    → sub64 addr u.base ≡ 5
    → ((uart16550_read u addr 1).1 ≡ some (lsr_value u))
      × ((uart16550_read u addr 1).0.rx_fifo ≡ record (u.rx_fifo) { overrun = false })
unfolding uart16550_read
read_lsr_lem u addr at = rw at (ap some (lsr_byte u), refl)

-- A byte read of the line status register succeeds: bit 0 of the value says whether a byte waits, bit
-- 1 whether a byte was lost since the register was last read, and bits 5 and 6 that the transmitter is
-- empty. The read clears the overrun flag and leaves the rest of the FIFO as it was.
pub uart16550_read-line_status :
    (u : Uart) (addr : ℕ)
    → sub64 addr u.base ≡ 5
    → (value : ℕ) × ((uart16550_read u addr 1).1 ≡ some value)
      × (field_read value 0 1 ≡ (if ltb 0 u.rx_fifo.size then 1 else 0))
      × (field_read value 1 1 ≡ to_num u.rx_fifo.overrun)
      × (field_read value 5 1 ≡ 1)
      × (field_read value 6 1 ≡ 1)
      × ((uart16550_read u addr 1).0.rx_fifo ≡ record (u.rx_fifo) { overrun = false })
uart16550_read-line_status u addr at =
    let read = read_lsr_lem u addr at in
    let f = lsr_fields u in (lsr_value u, read.0, f.0, f.1, f.2, f.3, read.1)
