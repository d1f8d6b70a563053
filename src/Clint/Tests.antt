-- ===== src/Clint/Tests.antt =====
-- The CLINT on concrete states.
use tiny_linux_rv.Prelude.{◌+◌, ◌-◌, ◌/◌, ◌%◌, ◌^◌, ◌≡◌, false, some, [], ◌∷◌, arith, refl}
use tiny_linux_rv.Clint.Defs.{Clint, clint_write, clint_read, clint_mtime, clint_mtime_tick}
use tiny_linux_rv.Clint.Timer.{ticks, ticks_no_drift}
use tiny_linux_rv.Clint.Access.{clint_roundtrip}

abbrev clock : Clint
clock = record {
  base = 0x2000000;
  reg = record { msip = 0; mtimecmp = 100; mtime = 90 };
  msip_line = false;
  mtip_line = false;
  prev_time_ns = 1003;
}

-- Readings at 1009, 1020 and 1105 nanoseconds make ten ticks.
ticks_example : clint_mtime (ticks clock (1009 ∷ 1020 ∷ 1105 ∷ [])) ≡ 100
unfolding clint_mtime ticks clint_mtime_tick
ticks_example = refl

ticks_no_drift_example :
    clint_mtime (ticks clock (1009 ∷ 1020 ∷ 1105 ∷ [])) ≡ (90 + (1105 - 1003) / 10) % 2 ^ 64
ticks_no_drift_example = ticks_no_drift clock (1009 ∷ 1020 ∷ 1105 ∷ []) (omega arith) (omega arith)

clint_roundtrip_example :
    ((clint_read (clint_write clock (0x2000000 + 0x4000) 8 77).0 (0x2000000 + 0x4000) 8 ≡ some 77)
      × (clint_read (clint_write clock (0x2000000 + 0x4000) 8 77).0 (0x2000000 + 0x4000) 4
          ≡ some (77 % 2 ^ 32))
      × (clint_read (clint_write clock (0x2000000 + 0x4000) 8 77).0 (0x2000000 + 0x4004) 4
          ≡ some (77 / 2 ^ 32)))
    × ((clint_read (clint_write clock (0x2000000 + 0xbff8) 8 77).0 (0x2000000 + 0xbff8) 8 ≡ some 77)
        × (clint_read (clint_write clock (0x2000000 + 0xbff8) 8 77).0 (0x2000000 + 0xbff8) 4
            ≡ some (77 % 2 ^ 32))
        × (clint_read (clint_write clock (0x2000000 + 0xbff8) 8 77).0 (0x2000000 + 0xbffc) 4
            ≡ some (77 / 2 ^ 32)))
clint_roundtrip_example = clint_roundtrip clock 77 (omega arith) (omega arith)
