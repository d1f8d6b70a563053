-- ===== src/Clint/Defs.antt =====
-- The state and the functions of emulator/src/device/clint.c. The host's monotonic clock is outside
-- the program: `time_ns` is what `get_time` returns. A status of 0 is `true`, and -1 is `false`.
use tiny_linux_rv.Prelude.{
  ℕ, ◌+◌, ◌-◌, ◌*◌, ◌/◌, bit_and, Bool, true, false, ◌||◌, Option, none, some, leb, ◌==◌,
  if◌then◌else◌,
}
use tiny_linux_rv.Word.{u32, u64, uint64_max, sub64, ◌>>>◌}

pub record ClintReg : Type 0 where
  pub msip : ℕ
  pub mtimecmp : ℕ
  pub mtime : ℕ

pub record Clint : Type 0 where
  pub base : ℕ
  pub reg : ClintReg
  pub msip_line : Bool
  pub mtip_line : Bool
  pub prev_time_ns : ℕ

unfoldable pub clint_reset : Clint → Clint
clint_reset c = record c {
  msip_line = false;
  mtip_line = false;
  reg = record { msip = 0; mtimecmp = uint64_max; mtime = 0 };
}

unfoldable pub clint_init : Clint → ℕ → ℕ → Clint
clint_init c base time_ns =
    let c' = clint_reset (record c { base = base }) in record c' { prev_time_ns = time_ns }

-- `value` is what the `size` bytes at `data` hold.
unfoldable pub clint_write : Clint → ℕ → ℕ → ℕ → Clint × Bool
clint_write c addr size value =
    let offset = sub64 addr c.base in
    if offset == 0
    then (if size == 4
        then (record c { reg = record (c.reg) { msip = bit_and (u32 value) 1 } }, true)
        else (c, false))
    else if offset == 0x4000
    then (if size == 8
        then (record c { reg = record (c.reg) { mtimecmp = u64 value } }, true)
        else (c, false))
    else if offset == 0xbff8
    then (if size == 8
        then (record c { reg = record (c.reg) { mtime = u64 value } }, true)
        else (c, false))
    else (c, false)

-- A register of eight bytes, read whole or by its low half.
read_wide : ℕ → ℕ → Option ℕ
read_wide size r = if size == 8 then some r else if size == 4 then some (u32 r) else none

-- The high half.
read_high : ℕ → ℕ → Option ℕ
read_high size r = if size == 4 then some (u32 (r >>> 32)) else none

-- What is read into the `size` bytes at `data`; `none` is a return of -1.
unfoldable pub clint_read : Clint → ℕ → ℕ → Option ℕ
unfolding read_wide read_high
clint_read c addr size =
    let offset = sub64 addr c.base in
    if offset == 0
    then (if size == 4 then some (u32 c.reg.msip) else none)
    else if offset == 0x4000
    then read_wide size c.reg.mtimecmp
    else if offset == 0x4004
    then read_high size c.reg.mtimecmp
    else if offset == 0xbff8
    then read_wide size c.reg.mtime
    else if offset == 0xbffc
    then read_high size c.reg.mtime
    else none

-- `elapsed_ns / 10` rounds towards zero also when the clock has gone back.
unfoldable pub clint_mtime_tick : Clint → ℕ → Clint
clint_mtime_tick c time_ns =
    let ticks = (time_ns - c.prev_time_ns) / 10 in
    let back = (c.prev_time_ns - time_ns) / 10 in
    if leb c.prev_time_ns time_ns
    then record c {
      reg = record (c.reg) { mtime = u64 (c.reg.mtime + ticks) };
      prev_time_ns = c.prev_time_ns + ticks * 10;
    }
    else record c {
      reg = record (c.reg) { mtime = sub64 c.reg.mtime (u64 back) };
      prev_time_ns = c.prev_time_ns - back * 10;
    }

unfoldable pub clint_irq_level : Clint → Clint × Bool
clint_irq_level c =
    let msip_line = c.reg.msip == 1 in
    let mtip_line = leb c.reg.mtimecmp c.reg.mtime in
    (record c { msip_line = msip_line; mtip_line = mtip_line }, msip_line || mtip_line)

unfoldable pub clint_msip : Clint → Bool
clint_msip c = c.msip_line

unfoldable pub clint_mtip : Clint → Bool
clint_mtip c = c.mtip_line

unfoldable pub clint_mtime : Clint → ℕ
clint_mtime c = c.reg.mtime
