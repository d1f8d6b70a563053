-- ===== src/Cpu/Boot.antt =====
-- The invariant of the CPU in the loop of `cpu_exec` of emulator/src/cpu/cpu_exec.c, reboots included.
use tiny_linux_rv.Prelude.{ℕ, ◌+◌, ◌%◌, ◌≡◌, Bool, true, false, Option, some, if◌then◌else◌}
use tiny_linux_rv.Syscon.Defs.{syscon_poweroff_requested, syscon_reboot_requested}
use tiny_linux_rv.Csr.Legal.{IsLegal}
use tiny_linux_rv.Csr.Reach.{IsMode, CsrRun-IsLegal}
use tiny_linux_rv.Bus.Defs.{Bus, device_reset, device_update}
use tiny_linux_rv.Cpu.Int.{ℤ}
use tiny_linux_rv.Cpu.Defs.{Machine, cpu_init}
use tiny_linux_rv.Cpu.Step.{cpu_step}
use tiny_linux_rv.Cpu.Exec.{
  ExecStatus, Host, limit_reached, reboot_if_requested, connect_irq, after_update, turn, poweroff,
  timeout,
}
use tiny_linux_rv.Cpu.Loop.{Turns, here, onward}
use tiny_linux_rv.Cpu.Invariant.{IsSound, cpu_init-IsSound, cpu_step-IsSound}

reboot-IsSound : (m : Machine) → IsSound m.cpu → IsSound (reboot_if_requested m).cpu
unfolding reboot_if_requested
reboot-IsSound m s = by_request (syscon_reboot_requested m.bus.syscon)
  where
    by_request :
        (b : Bool)
        → IsSound (if b then record m { cpu = cpu_init; bus = device_reset m.bus } else m).cpu
    by_request true = cpu_init-IsSound
    by_request false = s

if-IsSound :
    (b : Bool) (x y : Machine × Option ExecStatus)
    → IsSound x.0.cpu
    → IsSound y.0.cpu
    → IsSound (if b then x else y).0.cpu
if-IsSound true x y p q = p
if-IsSound false x y p q = q

after_update-IsSound :
    (m : Machine) (o : Bus × Bool) → IsSound m.cpu → IsSound (after_update m o).0.cpu
unfolding connect_irq
after_update-IsSound m (bus, true) s = record {
  zero_reg = s.zero_reg;
  pc_aligned = s.pc_aligned;
  csr_run = s.csr_run;
}
after_update-IsSound m (bus, false) s = s

turn-IsSound :
    (host : Host) (limit : ℤ) (count : ℕ) (m : Machine)
    → IsSound m.cpu
    → IsSound (turn host limit count m).0.cpu
unfolding turn
turn-IsSound host limit count m s =
    let stepped = cpu_step-IsSound m s in
    let booted = reboot_if_requested (cpu_step m) in
    let sound = reboot-IsSound (cpu_step m) stepped in
    let updated =
      after_update booted (device_update booted.bus (host.input count) (host.time_ns count)) in
    if-IsSound (syscon_poweroff_requested (cpu_step m).bus.syscon) (cpu_step m, some poweroff)
      (if limit_reached limit (count + 1) then (booted, some timeout) else updated) stepped
      (if-IsSound (limit_reached limit (count + 1)) (booted, some timeout) updated sound
        (after_update-IsSound booted
          (device_update booted.bus (host.input count) (host.time_ns count)) sound))

-- Whatever the guest executes and the host answers, through traps, interrupts and reboots, the loop keeps the
-- CPU sound: from a sound state, such as that of cpu_init, after any number of full turns x0 is 0, PC is a
-- multiple of 4, the restricted fields of the CSRs hold what they may hold, and the mode is U, S or M.
pub Turns-IsSound :
    {host : Host} {limit : ℤ} {count n : ℕ} {m last : Machine}
    → Turns host limit count m n last
    → IsSound m.cpu
    → (last.cpu.regs 0 ≡ 0)
      × (last.cpu.pc % 4 ≡ 0)
      × IsLegal last.cpu.csr.csr_reg
      × IsMode last.cpu.priv
Turns-IsSound here s =
    let (legal, mode) = CsrRun-IsLegal s.csr_run in (s.zero_reg, s.pc_aligned, legal, mode)
Turns-IsSound {host} {limit} {count} {n} {m} (onward running no_status rest) s =
    Turns-IsSound rest (turn-IsSound host limit count m s)
