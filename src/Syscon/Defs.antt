-- ===== src/Syscon/Defs.antt =====
-- The state and the functions of emulator/src/device/syscon.c. A status of 0 is `true`, and -1 is
-- `false`.
use tiny_linux_rv.Prelude.{ℕ, Bool, true, false, Option, none, some, ◌==◌, ◌!=◌, if◌then◌else◌}
use tiny_linux_rv.Word.{u32, sub64}

pub record SysconReg : Type 0 where
  pub sys_ctrl : ℕ
  pub reset_cause : ℕ

pub record Syscon : Type 0 where
  pub base : ℕ
  pub reg : SysconReg
  pub poweroff : Bool
  pub reboot : Bool

abbrev pub reset_cause_power_on : ℕ
reset_cause_power_on = 0

abbrev pub reset_cause_reboot : ℕ
reset_cause_reboot = 1

unfoldable pub syscon_reset : Syscon → Syscon
syscon_reset s = record s {
  reg = record (s.reg) { sys_ctrl = 0 };
  poweroff = false;
  reboot = false;
}

unfoldable pub syscon_init : Syscon → ℕ → Syscon
syscon_init s base =
    syscon_reset
      (record s { reg = record (s.reg) { reset_cause = reset_cause_power_on }; base = base })

-- The switch on the command, which is stored before it is looked at.
run_command : Syscon → ℕ → Syscon × Bool
run_command s value =
    let stored = record s { reg = record (s.reg) { sys_ctrl = value } } in
    if value == 1
    then (record stored { poweroff = true }, true)
    else if value == 2
    then (
      record stored {
        reboot = true;
        reg = record { sys_ctrl = value; reset_cause = reset_cause_reboot };
      },
      true,
    )
    else (stored, false)

-- `value` is what the `size` bytes at `data` hold.
unfoldable pub syscon_write : Syscon → ℕ → ℕ → ℕ → Syscon × Bool
unfolding run_command
syscon_write s addr size value =
    if size != 4
    then (s, false)
    else if sub64 addr s.base == 0
    then run_command s (u32 value)
    else (s, false)

unfoldable pub syscon_read : Syscon → ℕ → ℕ → Option ℕ
syscon_read s addr size =
    let offset = sub64 addr s.base in
    if size != 4
    then none
    else if offset == 0
    then some 0
    else if offset == 4
    then some (u32 s.reg.reset_cause)
    else none

unfoldable pub syscon_reboot_requested : Syscon → Bool
syscon_reboot_requested s = s.reboot

unfoldable pub syscon_poweroff_requested : Syscon → Bool
syscon_poweroff_requested s = s.poweroff
