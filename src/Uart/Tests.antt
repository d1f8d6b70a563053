-- ===== src/Uart/Tests.antt =====
-- A UART that receives more than it can hold, and the line it raises.
use tiny_linux_rv.Prelude.{◌≡◌, ◌&&◌, ◌||◌, refl, true, List, [], ◌∷◌, ltb, nonzero, if◌then◌else◌}
use tiny_linux_rv.Uart.Field.{field_read, field_write}
use tiny_linux_rv.Uart.Defs.{
  Uart, clear_reg, rx_fifo_clear, rx_fifo_write, rx_fifo_read, uart16550_init, uart16550_reset,
  uart16550_write, uart16550_irq_level,
}
use tiny_linux_rv.Uart.Fifo.{IsValid, capacity}
use tiny_linux_rv.Uart.Access.{start, next, write_step, UartRun-IsValid}
use tiny_linux_rv.Uart.Queue.{
  RxEvent, receive, fetch, rx_run, rx_step, queue_run, queue_of, rx_run_refines,
}
use tiny_linux_rv.Uart.Interrupt.{interrupt_id, uart16550_irq_level_lem}

abbrev blank : Uart
blank = record {
  base = 0;
  reg = record {
    rbr = 7;
    thr = 7;
    ier = 7;
    iir = 7;
    fcr = 0;
    lcr = 7;
    mcr = 7;
    lsr = 7;
    msr = 7;
    scr = 7;
    dll = 7;
    dlm = 7;
  };
  rx_fifo = record {
    bytes = λ i. 9;
    rd_ptr = 3;
    wr_ptr = 5;
    size = 99;
    overrun = true;
    underrun = true;
  };
}

abbrev started : Uart
started = uart16550_init blank 0x10000000

-- The FIFO disabled by a write to the FCR, so that one byte is kept.
abbrev single : Uart
single = (uart16550_write started 0x10000002 1 0).0

abbrev history : List RxEvent
history = receive 65 ∷ receive 66 ∷ fetch ∷ receive 67 ∷ fetch ∷ fetch ∷ []

single-IsValid : IsValid single
single-IsValid = UartRun-IsValid (next (start) (write_step started 0x10000002 1 0))

history_bytes : (rx_run single history).1 ≡ 65 ∷ 67 ∷ 0 ∷ []
unfolding rx_run rx_step rx_fifo_write rx_fifo_read uart16550_write uart16550_init uart16550_reset
    clear_reg rx_fifo_clear field_write field_read
history_bytes = refl

UartRun-IsValid_example : IsValid single
UartRun-IsValid_example = UartRun-IsValid (next (start) (write_step started 0x10000002 1 0))

rx_run_refines_example :
    ((queue_of (rx_run single history).0, (rx_run single history).1)
      ≡ queue_run (capacity single) (queue_of single) history)
    × IsValid (rx_run single history).0
rx_run_refines_example = rx_run_refines single history single-IsValid

-- A byte received with its interrupt enabled.
abbrev waiting : Uart
waiting = rx_fifo_write (uart16550_write started 0x10000001 1 1).0 65

waiting_raised : (uart16550_irq_level waiting).1 ≡ true
unfolding uart16550_irq_level rx_fifo_write uart16550_write uart16550_init uart16550_reset clear_reg
    rx_fifo_clear field_write field_read
waiting_raised = refl

uart16550_irq_level_lem_example :
    ((uart16550_irq_level waiting).1 ≡ (
      (nonzero (field_read waiting.reg.ier 2 1) && waiting.rx_fifo.overrun)
      || ((nonzero (field_read waiting.reg.ier 0 1) && ltb 0 waiting.rx_fifo.size)
          || nonzero (field_read waiting.reg.ier 1 1))))
    × (field_read (uart16550_irq_level waiting).0.reg.iir 0 1
        ≡ (if (uart16550_irq_level waiting).1 then 0 else 1))
    × (field_read (uart16550_irq_level waiting).0.reg.iir 6 1 ≡ field_read waiting.reg.fcr 0 1)
    × (field_read (uart16550_irq_level waiting).0.reg.iir 7 1 ≡ field_read waiting.reg.fcr 0 1)
    × ((uart16550_irq_level waiting).1 ≡ true
        → field_read (uart16550_irq_level waiting).0.reg.iir 1 3 ≡ interrupt_id waiting)
uart16550_irq_level_lem_example = uart16550_irq_level_lem waiting
