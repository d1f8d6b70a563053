-- ===== src/Uart/Access.antt =====
-- The register accesses of emulator/src/device/uart16550.c: every operation keeps the receive FIFO
-- well formed.
use tiny_linux_rv.Prelude.{
  ℕ, ◌<◌, ◌≡◌, ◌⊎◌, refl, bit_xor, arith, ltb, ◌!=◌, Bool-cases, inl, inr, nonzero,
}
use tiny_linux_rv.Word.{u8}
use tiny_linux_rv.Uart.Field.{field_read, one_bit}
use tiny_linux_rv.Uart.Defs.{
  Uart, rx_fifo_clear, uart16550_write, uart16550_read, uart16550_poll_input, uart16550_irq_level,
  uart16550_reset, uart16550_init, clear_reg, HostInput, poll_failed, no_input, read_failed,
  end_of_input, byte,
}
use tiny_linux_rv.Uart.Fifo.{IsValid, receive_lem, fetch_lem}

cleared-IsValid :
    (u : Uart) → u.rx_fifo.size ≡ 0 → u.rx_fifo.rd_ptr ≡ 0 → u.rx_fifo.wr_ptr ≡ 0 → IsValid u
cleared-IsValid u s r w = record {
  rd_in = ground arith;
  wr_at = ground arith;
  size_in = ground arith;
}

binary : (a : ℕ) → a < 2 → (a ≡ 0) ⊎ (a ≡ 1)
binary a h = ground arith

xor_bits : (a b : ℕ) → a < 2 → b < 2 → nonzero (bit_xor a b) ≡ (a != b)
xor_bits a b h h' = elim (binary a h) [
  | inl zero_a ↦
      rw zero_a (elim (binary b h') [ inl zero_b ↦ rw zero_b refl | inr one_b ↦ rw one_b refl ])
  | inr one_a ↦
      rw one_a (elim (binary b h') [ inl zero_b ↦ rw zero_b refl | inr one_b ↦ rw one_b refl ])
]

pub uart16550_write-IsValid :
    (u : Uart) (addr size value : ℕ) → IsValid u → IsValid (uart16550_write u addr size value).0
unfolding uart16550_write rx_fifo_clear
uart16550_write-IsValid u addr size value v =
    let toggled =
      xor_bits (field_read (u8 value) 0 1) (field_read u.reg.fcr 0 1) (one_bit (u8 value) 0)
        (one_bit u.reg.fcr 0) in
    record {
      rd_in = ground (arith, v.rd_in);
      wr_at = ground (arith, v.wr_at);
      size_in = ground (arith, v.size_in, toggled);
    }

pub uart16550_read-IsValid :
    (u : Uart) (addr size : ℕ) → IsValid u → IsValid (uart16550_read u addr size).0
unfolding uart16550_read
uart16550_read-IsValid u addr size v =
    let f = fetch_lem u v in
    record {
      rd_in = ground (arith, v.rd_in, f.3.rd_in);
      wr_at = ground (arith, v.wr_at, f.3.wr_at);
      size_in = ground (arith, v.size_in, f.3.size_in);
    }

pub uart16550_poll_input-IsValid :
    (u : Uart) (input : HostInput) → IsValid u → IsValid (uart16550_poll_input u input).0
unfolding uart16550_poll_input
uart16550_poll_input-IsValid u poll_failed v = ground (arith, v)
uart16550_poll_input-IsValid u no_input v = ground (arith, v)
uart16550_poll_input-IsValid u read_failed v = ground (arith, v)
uart16550_poll_input-IsValid u end_of_input v = ground (arith, v)
uart16550_poll_input-IsValid u (byte b) v = elim (Bool-cases (ltb u.rx_fifo.size 16)) [
  | inl e ↦ rw e (receive_lem u (u8 b) v).2
  | inr e ↦ rw e v
]

-- One operation of the UART, whatever its arguments: an access of the guest, a round of the device
-- loop, or a reset.
pub data UartStep : Uart → Uart → Type 0 where
  write_step : (u : Uart) (addr size value : ℕ) → UartStep u (uart16550_write u addr size value).0
  read_step : (u : Uart) (addr size : ℕ) → UartStep u (uart16550_read u addr size).0
  poll_step : (u : Uart) (input : HostInput) → UartStep u (uart16550_poll_input u input).0
  irq_step : (u : Uart) → UartStep u (uart16550_irq_level u).0
  reset_step : (u : Uart) → UartStep u (uart16550_reset u)

pub data UartRun (blank : Uart) (base : ℕ) : Uart → Type 0 where
  start : UartRun blank base (uart16550_init blank base)
  next : {u u' : Uart} → UartRun blank base u → UartStep u u' → UartRun blank base u'

pub uart16550_reset-IsValid : (u : Uart) → IsValid (uart16550_reset u)
unfolding uart16550_reset clear_reg rx_fifo_clear
uart16550_reset-IsValid u = cleared-IsValid (uart16550_reset u) refl refl refl

UartStep-IsValid : {u u' : Uart} → UartStep u u' → IsValid u → IsValid u'
unfolding uart16550_irq_level
UartStep-IsValid (write_step u addr size value) v = uart16550_write-IsValid u addr size value v
UartStep-IsValid (read_step u addr size) v = uart16550_read-IsValid u addr size v
UartStep-IsValid (poll_step u input) v = uart16550_poll_input-IsValid u input v
UartStep-IsValid (irq_step u) v = record { rd_in = v.rd_in; wr_at = v.wr_at; size_in = v.size_in }
UartStep-IsValid (reset_step u) v = uart16550_reset-IsValid u

-- Whatever sequence of accesses, polls, interrupt samples and resets follows `uart16550_init`, the
-- receive FIFO is well formed: the read index is inside the buffer, the write index is the read index
-- plus the count, modulo 16, and the count is at most 16, or at most 1 while the FIFO is disabled.
pub UartRun-IsValid : {blank : Uart} {base : ℕ} {u : Uart} → UartRun blank base u → IsValid u
unfolding uart16550_init
UartRun-IsValid {blank} {base} start = uart16550_reset-IsValid (record blank { base = base })
UartRun-IsValid (next run step) = UartStep-IsValid step (UartRun-IsValid run)
