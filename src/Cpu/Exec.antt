-- ===== src/Cpu/Exec.antt =====
-- `cpu_exec` of emulator/src/cpu/cpu_exec.c. The loop runs on fuel, one unit for each turn. What the host's
-- terminal and its clock give in each turn are functions of the number of turns so far.
use tiny_linux_rv.Prelude.{
  ℕ, zero, suc, ◌+◌, Bool, true, false, ◌&&◌, Option, none, some, ltb, leb, if◌then◌else◌,
}
use tiny_linux_rv.Syscon.Defs.{syscon_poweroff_requested, syscon_reboot_requested}
use tiny_linux_rv.Uart.Defs.{HostInput}
use tiny_linux_rv.Tlb.Defs.{tlb_init}
use tiny_linux_rv.Bus.Defs.{Bus, device_reset, device_update, device_irq_level}
use tiny_linux_rv.Cpu.Int.{ℤ, pos, negsuc}
use tiny_linux_rv.Cpu.Defs.{Machine, cpu_init}
use tiny_linux_rv.Cpu.Step.{cpu_step}

-- `CPU_EXEC_STATUS_t`
pub data ExecStatus : Type 0 where
  finish mem_error cpu_error device_error poweroff timeout : ExecStatus

-- What the host answers in each turn.
pub record Host : Type 0 where
  pub input : ℕ → HostInput
  pub time_ns : ℕ → ℕ

-- `max_instruction > 0 && max_instruction <= inst_count`
abbrev pub limit_reached : ℤ → ℕ → Bool
limit_reached (pos max_instruction) inst_count =
    ltb 0 max_instruction && leb max_instruction inst_count
limit_reached (negsuc _) inst_count = false

unfoldable pub reboot_if_requested : Machine → Machine
reboot_if_requested m =
    if syscon_reboot_requested m.bus.syscon
    then record m { cpu = cpu_init; bus = device_reset m.bus }
    else m

-- The lines of the devices reach the CPU.
unfoldable pub connect_irq : Machine → Machine
connect_irq m =
    let (bus, lines, _) = device_irq_level m.bus in
    record m {
      cpu = record (m.cpu) {
        msip = lines.msip;
        mtip = lines.mtip;
        meip = lines.meip;
        seip = lines.seip;
      };
      bus = bus;
    }

abbrev pub after_update : Machine → Bus × Bool → Machine × Option ExecStatus
after_update m (bus, true) = (connect_irq (record m { bus = bus }), none)
after_update m (bus, false) = (record m { bus = bus }, some device_error)

-- A turn of the loop: the machine, and a status if the loop is left.
unfoldable pub turn : Host → ℤ → ℕ → Machine → Machine × Option ExecStatus
turn host max_instruction inst_count m =
    let stepped = cpu_step m in
    let booted = reboot_if_requested stepped in
    if syscon_poweroff_requested stepped.bus.syscon
    then (stepped, some poweroff)
    else if limit_reached max_instruction (inst_count + 1)
    then (booted, some timeout)
    else after_update booted
        (device_update booted.bus (host.input inst_count) (host.time_ns inst_count))

abbrev pub leave_or :
    Machine → Option ExecStatus → Option (Machine × ExecStatus) → Option (Machine × ExecStatus)
leave_or m (some status) rest = some (m, status)
leave_or m none rest = rest

-- `none` means that the fuel ran out.
unfoldable pub exec_loop : ℕ → Host → ℤ → ℕ → Machine → Option (Machine × ExecStatus)
exec_loop zero host max_instruction inst_count m = none
exec_loop (suc fuel) host max_instruction inst_count m =
    let after = turn host max_instruction inst_count m in
    let rest = exec_loop fuel host max_instruction (inst_count + 1) after.0 in
    if m.cpu.halted then some (m, finish) else leave_or after.0 after.1 rest

unfoldable pub cpu_exec : ℕ → Host → ℤ → Machine → Option (Machine × ExecStatus)
cpu_exec fuel host max_instruction m =
    exec_loop fuel host max_instruction 0 record m {
      cpu = record (m.cpu) { i_tlb = tlb_init m.cpu.i_tlb; d_tlb = tlb_init m.cpu.d_tlb };
    }
