-- ===== src/Uart/Interrupt.antt =====
-- The interrupt line of emulator/src/device/uart16550.c and the interrupt identification register.
use tiny_linux_rv.Prelude.{
  ℕ, ◌%◌, ◌^◌, ◌<◌, ◌≡◌, refl, sym, ◌∙◌, Bool, true, false, ◌&&◌, ◌||◌, arith, ltb, if◌then◌else◌,
  nonzero, Bool-cases, inl, inr,
}
use tiny_linux_rv.Uart.Field.{field_read, field_write, one_bit, read-write_self, read-write_ne}
use tiny_linux_rv.Uart.Defs.{
  Uart, receiver_line_status, receiver_data_available, timeout_indication,
  transmitter_holding_register_empty, next_iir, uart16550_irq_level,
}

-- The code of the pending interrupt of highest priority.
abbrev pub interrupt_id : Uart → ℕ
interrupt_id u =
    if receiver_line_status u
    then 3
    else if receiver_data_available u
    then 2
    else if timeout_indication u
    then 6
    else 1

has_interrupt_lem :
    (u : Uart)
    → (uart16550_irq_level u).1
      ≡ (receiver_line_status u || (timeout_indication u || transmitter_holding_register_empty u))
unfolding uart16550_irq_level
has_interrupt_lem u = ground arith

-- The register before the identification is written.
abbrev staged : Uart → Bool → ℕ
staged u has_interrupt =
    let enabled = field_read u.reg.fcr 0 1 in
    field_write
      (field_write (field_write u.reg.iir (if has_interrupt then 0 else 1) 0 1) enabled 6 1) enabled
      7 1

staged_fields :
    (u : Uart) (b : Bool)
    → (field_read (staged u b) 0 1 ≡ (if b then 0 else 1))
      × (field_read (staged u b) 6 1 ≡ field_read u.reg.fcr 0 1)
      × (field_read (staged u b) 7 1 ≡ field_read u.reg.fcr 0 1)
staged_fields u b =
    let e = field_read u.reg.fcr 0 1 in
    let x = field_write u.reg.iir (if b then 0 else 1) 0 1 in
    let y = field_write x e 6 1 in
    let small : e % 2 ^ 1 ≡ e = ground (arith, one_bit u.reg.fcr 0) in
    (
      read-write_ne y e 7 1 0 1 (ground arith) (ground arith) (ground arith) (ground arith)
          ∙ read-write_ne x e 6 1 0 1 (ground arith) (ground arith) (ground arith) (ground arith)
          ∙ read-write_self u.reg.iir (if b then 0 else 1) 0 1 (ground arith) (ground arith)
          ∙ ground arith,
      read-write_ne y e 7 1 6 1 (ground arith) (ground arith) (ground arith) (ground arith)
          ∙ read-write_self x e 6 1 (ground arith) (ground arith)
          ∙ small,
      read-write_self y e 7 1 (ground arith) (ground arith) ∙ small,
    )

-- The identification changes only its own three bits.
id_fields :
    (p id : ℕ)
    → id < 8
    → (field_read (field_write p id 1 3) 0 1 ≡ field_read p 0 1)
      × (field_read (field_write p id 1 3) 6 1 ≡ field_read p 6 1)
      × (field_read (field_write p id 1 3) 7 1 ≡ field_read p 7 1)
      × (field_read (field_write p id 1 3) 1 3 ≡ id)
id_fields p id h = (
  read-write_ne p id 1 3 0 1 (ground arith) (ground arith) (ground arith) (ground arith),
  read-write_ne p id 1 3 6 1 (ground arith) (ground arith) (ground arith) (ground arith),
  read-write_ne p id 1 3 7 1 (ground arith) (ground arith) (ground arith) (ground arith),
  read-write_self p id 1 3 (ground arith) (ground arith) ∙ ground arith,
)

next_iir_some :
    (u : Uart)
    → (uart16550_irq_level u).1 ≡ true
    → next_iir u true ≡ field_write (staged u true) (interrupt_id u) 1 3
unfolding next_iir uart16550_irq_level
next_iir_some u h = ground (arith, h)

next_iir_none : (u : Uart) → (uart16550_irq_level u).1 ≡ false → next_iir u false ≡ staged u false
unfolding next_iir uart16550_irq_level
next_iir_none u h = ground (arith, h)

iir_is : (u : Uart) → (uart16550_irq_level u).0.reg.iir ≡ next_iir u (uart16550_irq_level u).1
unfolding uart16550_irq_level
iir_is u = refl

-- The line is raised exactly for an overrun with IER bit 2, a waiting byte with IER bit 0, or IER
-- bit 1; bit 0 of the IIR is then 0, and is 1 otherwise; bits 6 and 7 show the FIFO enable bit of the
-- FCR; and while the line is raised, bits 3 to 1 hold the code of the highest pending interrupt.
pub uart16550_irq_level_lem :
    (u : Uart)
    → ((uart16550_irq_level u).1 ≡ (
        (nonzero (field_read u.reg.ier 2 1) && u.rx_fifo.overrun)
        || ((nonzero (field_read u.reg.ier 0 1) && ltb 0 u.rx_fifo.size)
            || nonzero (field_read u.reg.ier 1 1))))
      × (field_read (uart16550_irq_level u).0.reg.iir 0 1
          ≡ (if (uart16550_irq_level u).1 then 0 else 1))
      × (field_read (uart16550_irq_level u).0.reg.iir 6 1 ≡ field_read u.reg.fcr 0 1)
      × (field_read (uart16550_irq_level u).0.reg.iir 7 1 ≡ field_read u.reg.fcr 0 1)
      × ((uart16550_irq_level u).1 ≡ true
          → field_read (uart16550_irq_level u).0.reg.iir 1 3 ≡ interrupt_id u)
uart16550_irq_level_lem u = elim (Bool-cases (uart16550_irq_level u).1) [
  | inl raised ↦
      let at = staged_fields u true in
      let id = id_fields (staged u true) (interrupt_id u) (ground arith) in
      rw (iir_is u, raised, next_iir_some u raised)
        (sym raised ∙ has_interrupt_lem u, id.0 ∙ at.0, id.1 ∙ at.1, id.2 ∙ at.2, λ h. id.3)
  | inr quiet ↦
      let at = staged_fields u false in
      rw (iir_is u, quiet, next_iir_none u quiet)
        (sym quiet ∙ has_interrupt_lem u, at.0, at.1, at.2, λ h. ground (arith, h))
]
