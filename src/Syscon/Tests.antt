-- ===== src/Syscon/Tests.antt =====
-- A power-on, a bad command and a reboot.
use tiny_linux_rv.Prelude.{ℕ, ◌+◌, ◌≡◌, true, false, some, List, [], ◌∷◌, arith, refl}
use tiny_linux_rv.Syscon.Defs.{
  Syscon, syscon_init, syscon_reset, syscon_write, syscon_read, syscon_reboot_requested,
  syscon_poweroff_requested,
}
use tiny_linux_rv.Syscon.Reboot.{writes, reboot_cause_survives}

abbrev blank : Syscon
blank = record {
  base = 0;
  reg = record { sys_ctrl = 9; reset_cause = 9 };
  poweroff = true;
  reboot = true;
}

abbrev idle : Syscon
idle = record {
  base = 0x100000;
  reg = record { sys_ctrl = 0; reset_cause = 0 };
  poweroff = false;
  reboot = false;
}

abbrev commands : List (ℕ × ℕ × ℕ)
commands = (0x100000, 4, 7) ∷ (0x100000, 4, 2) ∷ []

reboot_cause_survives_example :
    (syscon_read (syscon_reset (writes (syscon_init blank 0x100000) commands)) (0x100000 + 4) 4
      ≡ some 1)
    × (syscon_reboot_requested (syscon_reset (writes (syscon_init blank 0x100000) commands))
        ≡ false)
    × (syscon_poweroff_requested (syscon_reset (writes (syscon_init blank 0x100000) commands))
        ≡ false)
unfolding syscon_reboot_requested writes syscon_init syscon_reset syscon_write
reboot_cause_survives_example = reboot_cause_survives blank 0x100000 commands (omega arith) refl
