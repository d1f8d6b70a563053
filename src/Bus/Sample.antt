-- ===== src/Bus/Sample.antt =====
-- A machine with its devices where `device_init` of emulator/src/device/device.c puts them, and 4096 bytes of
-- RAM, for the tests.
use tiny_linux_rv.Prelude.{false}
use tiny_linux_rv.Bus.Defs.{Bus}

abbrev pub machine : Bus
machine = record {
  memory = record { bytes = λ i. 0; base = 0x80000000; size = 0x1000 };
  bootrom = record { bytes = λ i. 0; base = 0x1000; size = 0x1000 };
  syscon = record {
    base = 0x100000;
    reg = record { sys_ctrl = 0; reset_cause = 0 };
    poweroff = false;
    reboot = false;
  };
  uart0 = record {
    base = 0x10000000;
    reg = record {
      rbr = 0;
      thr = 0;
      ier = 0;
      iir = 0;
      fcr = 1;
      lcr = 0;
      mcr = 0;
      lsr = 0;
      msr = 0;
      scr = 0;
      dll = 0;
      dlm = 0;
    };
    rx_fifo = record {
      bytes = λ i. 0;
      rd_ptr = 0;
      wr_ptr = 0;
      size = 0;
      overrun = false;
      underrun = false;
    };
  };
  clint = record {
    base = 0x2000000;
    reg = record { msip = 0; mtimecmp = 0; mtime = 0 };
    msip_line = false;
    mtip_line = false;
    prev_time_ns = 0;
  };
  plic = record {
    base = 0xc000000;
    regs = record { priority = λ i. 0; pending = λ i. 0; enable = λ k i. 0; threshold = λ i. 0 };
    gw_busy = λ i. false;
  };
}
