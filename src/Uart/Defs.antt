-- ===== src/Uart/Defs.antt =====
-- The state and the functions of emulator/src/device/uart16550.c. The host's `poll`, `read` and
-- `putchar` are outside the program: what comes from the standard input is an argument, and what is
-- sent is a result. A status of 0 is `true`, and -1 is `false`.
use tiny_linux_rv.Prelude.{
  ℕ, ◌+◌, ◌-◌, bit_and, bit_xor, Bool, true, false, not, ◌&&◌, ◌||◌, Option, none, some, ltb, leb,
  ◌==◌, ◌!=◌, nonzero, to_num, if◌then◌else◌, update,
}
use tiny_linux_rv.Word.{u8, sub64}
use tiny_linux_rv.Uart.Field.{field_read, field_write}

pub record UartReg : Type 0 where
  pub rbr : ℕ
  pub thr : ℕ
  pub ier : ℕ
  pub iir : ℕ
  pub fcr : ℕ
  pub lcr : ℕ
  pub mcr : ℕ
  pub lsr : ℕ
  pub msr : ℕ
  pub scr : ℕ
  pub dll : ℕ
  pub dlm : ℕ

-- `data` is the array of 16 bytes.
pub record Fifo : Type 0 where
  pub bytes : ℕ → ℕ
  pub rd_ptr : ℕ
  pub wr_ptr : ℕ
  pub size : ℕ
  pub overrun : Bool
  pub underrun : Bool

pub record Uart : Type 0 where
  pub base : ℕ
  pub reg : UartReg
  pub rx_fifo : Fifo

-- FIFO_ENABLE as a condition.
abbrev pub fifo_enable : Uart → Bool
fifo_enable u = nonzero (field_read u.reg.fcr 0 1)

unfoldable pub clear_reg : Uart → Uart
clear_reg u = record u {
  reg = record {
    rbr = 0;
    thr = 0;
    ier = 0;
    iir = 0xc1;
    fcr = 0xc1;
    lcr = 3;
    mcr = 0;
    lsr = 0x60;
    msr = 0;
    scr = 0;
    dll = 0;
    dlm = 0;
  };
}

unfoldable pub rx_fifo_clear : Uart → Uart
rx_fifo_clear u = record u {
  rx_fifo = record (u.rx_fifo) {
    size = 0;
    wr_ptr = 0;
    rd_ptr = 0;
    overrun = false;
    underrun = false;
  };
}

unfoldable pub rx_fifo_write : Uart → ℕ → Uart
rx_fifo_write u value =
    let f = u.rx_fifo in
    if not (fifo_enable u) && f.size == 1
    then record u { rx_fifo = record f { overrun = true } }
    else if fifo_enable u && f.size == 16
    then record u { rx_fifo = record f { overrun = true } }
    else record u {
      rx_fifo = record f {
        bytes = update f.bytes f.wr_ptr value;
        size = u8 (f.size + 1);
        wr_ptr = bit_and (f.wr_ptr + 1) 0xf;
      };
    }

unfoldable pub rx_fifo_read : Uart → Uart × ℕ
rx_fifo_read u =
    let f = u.rx_fifo in
    if f.size == 0 then (record u { rx_fifo = record f { underrun = true } }, 0) else (
      record u { rx_fifo = record f { size = f.size - 1; rd_ptr = bit_and (f.rd_ptr + 1) 0xf } },
      f.bytes f.rd_ptr,
    )

unfoldable pub uart16550_reset : Uart → Uart
uart16550_reset u =
    let u' = rx_fifo_clear (clear_reg u) in
    record u' { reg = record (u'.reg) { iir = field_write u'.reg.iir 1 0 1 } }

unfoldable pub uart16550_init : Uart → ℕ → Uart
uart16550_init u base = uart16550_reset (record u { base = base })

-- The case of the FIFO control register.
write_fcr : Uart → ℕ → Uart
write_fcr u value =
    let toggled =
      if nonzero (bit_xor (field_read value 0 1) (field_read u.reg.fcr 0 1))
      then rx_fifo_clear u
      else u in
    let cleared = if nonzero (field_read value 1 1) then rx_fifo_clear toggled else toggled in
    record cleared { reg = record (cleared.reg) { fcr = value } }

-- The switch of `uart16550_write`; the last part is the byte given to `putchar`.
write_reg : Uart → ℕ → ℕ → Uart × Bool × Option ℕ
write_reg u offset value =
    let dlab = field_read u.reg.lcr 7 1 in
    if offset == 0
    then (if dlab == 0
        then (record u { reg = record (u.reg) { thr = value } }, true, some value)
        else (record u { reg = record (u.reg) { dll = value } }, true, none))
    else if offset == 1
    then (if dlab == 0
        then (record u { reg = record (u.reg) { ier = value } }, true, none)
        else (record u { reg = record (u.reg) { dlm = value } }, true, none))
    else if offset == 2
    then (write_fcr u value, true, none)
    else if offset == 3
    then (record u { reg = record (u.reg) { lcr = value } }, true, none)
    else if offset == 4
    then (record u { reg = record (u.reg) { mcr = value } }, true, none)
    else if offset == 5
    then (u, true, none)
    else if offset == 6
    then (u, true, none)
    else if offset == 7
    then (record u { reg = record (u.reg) { scr = value } }, true, none)
    else (u, false, none)

unfoldable pub uart16550_write : Uart → ℕ → ℕ → ℕ → Uart × Bool × Option ℕ
unfolding write_fcr write_reg
uart16550_write u addr size value =
    if size != 1 then (u, false, none) else write_reg u (sub64 addr u.base) (u8 value)

-- The line status register as it is read, and as the read leaves it.
unfoldable pub lsr_value : Uart → ℕ
lsr_value u =
    let dr = field_write u.reg.lsr (if ltb 0 u.rx_fifo.size then 1 else 0) 0 1 in
    let oe = field_write dr (to_num u.rx_fifo.overrun) 1 1 in
    field_write (field_write oe 1 5 1) 1 6 1

read_lsr : Uart → Uart × ℕ
read_lsr u =
    let value = lsr_value u in
    let no_oe = field_write value 0 1 1 in
    let no_pe = field_write no_oe 0 2 1 in
    let no_fe = field_write no_pe 0 3 1 in
    let no_bi = field_write no_fe 0 4 1 in
    (
      record u {
        reg = record (u.reg) { lsr = field_write no_bi 0 7 1 };
        rx_fifo = record (u.rx_fifo) { overrun = false };
      },
      value,
    )

abbrev found : Uart × ℕ → Uart × Option ℕ
found (u, value) = (u, some (u8 value))

-- The switch of `uart16550_read`.
read_reg : Uart → ℕ → Uart × Option ℕ
read_reg u offset =
    let dlab = field_read u.reg.lcr 7 1 in
    if offset == 0
    then (if dlab == 0 then found (rx_fifo_read u) else found (u, u.reg.dll))
    else if offset == 1
    then (if dlab == 0 then found (u, u.reg.ier) else found (u, u.reg.dlm))
    else if offset == 2
    then found (u, u.reg.iir)
    else if offset == 3
    then found (u, u.reg.lcr)
    else if offset == 4
    then found (u, u.reg.mcr)
    else if offset == 5
    then found (read_lsr u)
    else if offset == 6
    then found (u, u.reg.msr)
    else if offset == 7
    then found (u, u.reg.scr)
    else (u, none)

-- What is read into the byte at `data`; `none` is a return of -1.
unfoldable pub uart16550_read : Uart → ℕ → ℕ → Uart × Option ℕ
unfolding read_reg read_lsr
uart16550_read u addr size = if size != 1 then (u, none) else read_reg u (sub64 addr u.base)

-- What `poll` and `read` of the host report.
pub data HostInput : Type 0 where
  poll_failed no_input read_failed end_of_input : HostInput
  byte : ℕ → HostInput

take_input : Uart → HostInput → Uart × Bool
take_input u poll_failed = (u, false)
take_input u no_input = (u, true)
take_input u read_failed = (u, false)
take_input u end_of_input = (u, true)
take_input u (byte b) = (rx_fifo_write u (u8 b), true)

-- The host is asked only while the FIFO has space.
unfoldable pub uart16550_poll_input : Uart → HostInput → Uart × Bool
unfolding take_input
uart16550_poll_input u input = if ltb u.rx_fifo.size 16 then take_input u input else (u, true)

-- fifo_interrupt_level
abbrev pub fifo_interrupt_level : ℕ → ℕ
fifo_interrupt_level trigger =
    if trigger == 0 then 1 else if trigger == 1 then 4 else if trigger == 2 then 8 else 14

-- The conditions of `uart16550_irq_level`.
abbrev pub receiver_line_status : Uart → Bool
receiver_line_status u = nonzero (field_read u.reg.ier 2 1) && u.rx_fifo.overrun

abbrev pub receiver_data_available : Uart → Bool
receiver_data_available u =
    nonzero (field_read u.reg.ier 0 1)
    && (if fifo_enable u
        then leb (fifo_interrupt_level (field_read u.reg.fcr 6 2)) u.rx_fifo.size
        else ltb 0 u.rx_fifo.size)

abbrev pub timeout_indication : Uart → Bool
timeout_indication u = nonzero (field_read u.reg.ier 0 1) && ltb 0 u.rx_fifo.size

abbrev pub transmitter_holding_register_empty : Uart → Bool
transmitter_holding_register_empty u = nonzero (field_read u.reg.ier 1 1)

-- The identification is left as it was where no condition holds; the modem status never does.
unfoldable pub next_iir : Uart → Bool → ℕ
next_iir u has_interrupt =
    let pending = field_write u.reg.iir (if has_interrupt then 0 else 1) 0 1 in
    let enabled = field_read u.reg.fcr 0 1 in
    let iir = field_write (field_write pending enabled 6 1) enabled 7 1 in
    if receiver_line_status u
    then field_write iir 3 1 3
    else if receiver_data_available u
    then field_write iir 2 1 3
    else if timeout_indication u
    then field_write iir 6 1 3
    else if transmitter_holding_register_empty u
    then field_write iir 1 1 3
    else iir

unfoldable pub uart16550_irq_level : Uart → Uart × Bool
uart16550_irq_level u =
    let has_interrupt =
      receiver_line_status u
      || (receiver_data_available u
          || (timeout_indication u || transmitter_holding_register_empty u)) in
    (record u { reg = record (u.reg) { iir = next_iir u has_interrupt } }, has_interrupt)
