-- ===== src/Trace/Tests.antt =====
-- Three instructions in the ring buffer.
use tiny_linux_rv.Prelude.{ℕ, ◌+◌, ◌*◌, ◌-◌, ◌≡◌, arith, some}
use tiny_linux_rv.Trace.Ring.{iringbuf_print}
use tiny_linux_rv.Trace.Latest.{written, slice, kept, iringbuf_print-latest}

abbrev history : ℕ → ℕ × ℕ
history i = (0x80000000 + 4 * i, 0x13)

iringbuf_print-latest_example :
    iringbuf_print (written history 3) ≡ some (slice history (3 - kept 3) (kept 3))
iringbuf_print-latest_example = iringbuf_print-latest history 3 (omega arith)
