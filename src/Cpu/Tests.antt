-- ===== src/Cpu/Tests.antt =====
-- Programs that the CPU executes, and the theorems about it at such machines.
use tiny_linux_rv.Prelude.{
  ℕ, ◌+◌, ◌-◌, ◌*◌, ◌^◌, ◌<◌, ◌%◌, bit_and, bit_or, ◌≡◌, refl, inl, ◌==◌, if◌then◌else◌, true,
  false, some, none, [], arith,
}
use tiny_linux_rv.Bits.{test_bit}
use tiny_linux_rv.Memory.Defs.{check_addr_range, cpu_access_check, load_bytes, ram_read}
use tiny_linux_rv.Syscon.Defs.{syscon_poweroff_requested, syscon_reboot_requested}
use tiny_linux_rv.Csr.Field.{csr_field_get, csr_field_set}
use tiny_linux_rv.Csr.Masks.{int_meip}
use tiny_linux_rv.Csr.Defs.{
  Csr, priv_m, csr_op_rw, decode_addr, read_only, csr_ptr, get_reg, set_reg,
}
use tiny_linux_rv.Csr.Access.{
  csr_init, csr_access, access_reg, read_phase, read_value, write_phase, imp_read_only, write_reg,
  written_value, write_parts, apply_op, post_write, mark_written,
}
use tiny_linux_rv.Csr.Trap.{trap_exit_mret, pop_m}
use tiny_linux_rv.Csr.Interrupt.{
  csr_end_update, check_interrupt, first_interrupt, interrupt_pending_and_enabled, csr_begin_update,
}
use tiny_linux_rv.Csr.Legal.{IsLegal}
use tiny_linux_rv.Csr.Warl.{state_after}
use tiny_linux_rv.Csr.Reach.{IsMode, reset, access, mret}
use tiny_linux_rv.Mmu.Defs.{bypass_address_translation}
use tiny_linux_rv.Tlb.Defs.{tlb_void, tlb_lookup}
use tiny_linux_rv.Uart.Field.{field_read}
use tiny_linux_rv.Uart.Defs.{no_input, uart16550_irq_level, uart16550_poll_input}
use tiny_linux_rv.Bus.Defs.{bus_read, device_update, device_irq_level}
use tiny_linux_rv.Bus.Sample.{machine}
use tiny_linux_rv.Cpu.Int.{pos, to_int, of_int}
use tiny_linux_rv.Cpu.Arith.{bits, sext, div, divu, rem, remu}
use tiny_linux_rv.Cpu.Inst.{imm, inst_addi}
use tiny_linux_rv.Cpu.Dispatch.{dispatch, first_match, inst_cases}
use tiny_linux_rv.Cpu.Division.{div-rem}
use tiny_linux_rv.Cpu.Immediate.{from_opcode, decode_imm-bits}
use tiny_linux_rv.Cpu.Meaning.{dispatch_iff}
use tiny_linux_rv.Cpu.Defs.{Machine, cpu_init, result, raise}
use tiny_linux_rv.Cpu.Decode.{InstDec, decode, decode_imm, imm_i}
use tiny_linux_rv.Cpu.Operate.{imm_value}
use tiny_linux_rv.Cpu.Execute.{execute}
use tiny_linux_rv.Cpu.Step.{
  end_exec, trap_interrupt, translate_pc, fetch, step_inst, begin_step, cpu_step,
}
use tiny_linux_rv.Cpu.Exec.{Host, connect_irq, reboot_if_requested, turn, cpu_exec}
use tiny_linux_rv.Cpu.Loop.{here, onward, Returns, cpu_exec-Returns}
use tiny_linux_rv.Cpu.Invariant.{IsSound, cpu_init-IsSound}
use tiny_linux_rv.Cpu.Boot.{Turns-IsSound}
use tiny_linux_rv.Cpu.Precise.{ready, IsTrapped, cpu_step-IsTrapped}
use tiny_linux_rv.Cpu.Delivery.{cpu_step-interrupted}
use tiny_linux_rv.Cpu.External.{TakesExternal, external_interrupt-delivered}

-- addi x1, x0, 5
abbrev program : ℕ → ℕ
program i = if i == 0 then 0x93 else if i == 2 then 0x50 else 0

abbrev start : Machine
start = record {
  cpu = cpu_init;
  bus = record machine { memory = record { bytes = program; base = 0x80000000; size = 0x1000 } };
  sent = [];
}

-- The host's terminal is silent and its clock stands still.
abbrev idle : Host
idle = record { input = λ n. no_input; time_ns = λ n. 0 }

dispatch_iff_example :
    (dispatch 0x500093 ≡ some (imm inst_addi) → bit_and 0x500093 0x707f ≡ 0x13)
    × (bit_and 0x500093 0x707f ≡ 0x13 → dispatch 0x500093 ≡ some (imm inst_addi))
dispatch_iff_example = dispatch_iff 0x500093 (imm inst_addi)

cpu_exec-Returns_example :
    Returns idle 3 0
      (record start {
        cpu = record (start.cpu) {
          i_tlb = tlb_void start.cpu.i_tlb;
          d_tlb = tlb_void start.cpu.d_tlb;
        };
      })
      (cpu_exec 5 idle (pos 3) start)
cpu_exec-Returns_example = cpu_exec-Returns idle 3 5 start (omega arith) (omega arith)

one_turn : (turn idle (pos 3) 0 start).1 ≡ none
unfolding turn cpu_step step_inst fetch translate_pc tlb_lookup bypass_address_translation bus_read
    check_addr_range ram_read cpu_access_check load_bytes csr_begin_update cpu_init csr_init
    csr_field_set csr_field_get interrupt_pending_and_enabled first_interrupt check_interrupt
    dispatch inst_cases bits first_match execute imm_value decode decode_imm imm_i sext to_int
    of_int end_exec syscon_poweroff_requested reboot_if_requested syscon_reboot_requested
    device_update uart16550_poll_input csr_end_update
one_turn = refl

Turns-IsSound_example :
    ((turn idle (pos 3) 0 start).0.cpu.regs 0 ≡ 0)
    × ((turn idle (pos 3) 0 start).0.cpu.pc % 4 ≡ 0)
    × IsLegal (turn idle (pos 3) 0 start).0.cpu.csr.csr_reg
    × IsMode (turn idle (pos 3) 0 start).0.cpu.priv
unfolding cpu_init
Turns-IsSound_example =
    Turns-IsSound {host = idle} {limit = pos 3} (onward refl one_turn here) cpu_init-IsSound

-- A machine whose RAM holds no instruction.
abbrev empty : Machine
empty = record { cpu = cpu_init; bus = machine; sent = [] }

raised : step_inst (ready empty) ≡ raise (ready empty) 2 0
unfolding step_inst fetch translate_pc tlb_lookup bypass_address_translation bus_read
    check_addr_range ram_read cpu_access_check load_bytes csr_begin_update csr_field_set
    csr_field_get cpu_init csr_init interrupt_pending_and_enabled first_interrupt check_interrupt
    dispatch inst_cases bits first_match
raised = refl

cpu_step-IsTrapped_example : IsTrapped empty (ready empty).cpu.csr 2 0 (cpu_step empty)
unfolding cpu_init
cpu_step-IsTrapped_example =
    cpu_step-IsTrapped empty (ready empty) 2 0 cpu_init-IsSound (inl refl) raised

-- User mode with the external interrupts of M-mode enabled, reached from reset by a write to mie and MRET.
abbrev listening : Csr
listening = state_after (csr_access csr_init 0x304 csr_op_rw 0x800 false true 0 priv_m)

-- The UART asks to be written to, and the PLIC passes its source on.
abbrev serving : Machine
serving = record {
  cpu = record cpu_init {
    csr = (trap_exit_mret listening).csr;
    priv = (trap_exit_mret listening).priv;
  };
  bus = record machine {
    uart0 = record (machine.uart0) { reg = record (machine.uart0.reg) { ier = 2 } };
    plic = record (machine.plic) {
      regs = record (machine.plic.regs) { priority = λ i. 1; enable = λ k i. 0x400 };
    };
  };
  sent = [];
}

serving-IsSound : IsSound serving.cpu
unfolding cpu_init
serving-IsSound = record {
  zero_reg = refl;
  pc_aligned = refl;
  csr_run = mret (access reset 0x304 csr_op_rw 0x800 false true 0);
}

serving-takes : TakesExternal serving.cpu.csr serving.cpu.priv
unfolding csr_init csr_access csr_field_get csr_field_set decode_addr access_reg read_phase
    read_value csr_ptr get_reg read_only write_phase imp_read_only write_reg written_value
    write_parts apply_op post_write set_reg mark_written trap_exit_mret pop_m test_bit
serving-takes = record { enabled = refl; not_delegated = refl; mode = inl (omega arith) }

fetched : fetch (ready (connect_irq serving)) ≡ result 0 (ready (connect_irq serving))
unfolding fetch translate_pc tlb_lookup bypass_address_translation bus_read check_addr_range
    ram_read cpu_access_check load_bytes csr_begin_update cpu_init csr_init csr_access csr_field_get
    csr_field_set decode_addr access_reg read_phase read_value csr_ptr get_reg read_only write_phase
    imp_read_only write_reg written_value write_parts apply_op post_write set_reg mark_written
    trap_exit_mret pop_m connect_irq device_irq_level
fetched = refl

external_interrupt-delivered_example :
    IsTrapped
      (connect_irq serving)
      (begin_step (connect_irq serving)).cpu.csr
      (bit_or trap_interrupt int_meip)
      0
      (cpu_step (connect_irq serving))
    × (bit_or trap_interrupt int_meip ≡ 9223372036854775819)
unfolding uart16550_irq_level field_read test_bit
external_interrupt-delivered_example =
    external_interrupt-delivered serving (ready (connect_irq serving)) 0 refl
      record { free = refl; enabled = refl; urgent = omega arith } serving-takes serving-IsSound
      fetched

-- The same interrupt at a CPU that waits for it.
abbrev waiting : Machine
waiting = record serving { cpu = record (serving.cpu) { wfi = true; meip = true } }

cpu_step-interrupted_example :
    IsTrapped waiting
      (begin_step waiting).cpu.csr
      (bit_or trap_interrupt int_meip)
      0
      (cpu_step waiting)
unfolding fetch translate_pc tlb_lookup bypass_address_translation bus_read check_addr_range
    ram_read cpu_access_check load_bytes csr_begin_update cpu_init csr_init csr_access csr_field_get
    csr_field_set decode_addr access_reg read_phase read_value csr_ptr get_reg read_only write_phase
    imp_read_only write_reg written_value write_parts apply_op post_write set_reg mark_written
    trap_exit_mret pop_m interrupt_pending_and_enabled first_interrupt check_interrupt test_bit
cpu_step-interrupted_example =
    cpu_step-interrupted waiting (ready waiting) 0 int_meip
      record { zero_reg = refl; pc_aligned = refl; csr_run = serving-IsSound.csr_run } refl refl

-- -7 by 2.
div-rem_example :
    ((div (2 ^ 64 - 7) 2 * 2 + rem (2 ^ 64 - 7) 2) % 2 ^ 64 ≡ 2 ^ 64 - 7)
    × ((divu (2 ^ 64 - 7) 2 * 2 + remu (2 ^ 64 - 7) 2) % 2 ^ 64 ≡ 2 ^ 64 - 7)
    × (0 < 2 → remu (2 ^ 64 - 7) 2 < 2)
div-rem_example = div-rem (2 ^ 64 - 7) 2 (omega arith) (omega arith)

-- The sign of the offset of a branch back.
decode_imm-bits_example : test_bit (decode_imm 0xfe000ee3 0x63) 12 ≡ from_opcode 0xfe000ee3 0x63 12
decode_imm-bits_example = decode_imm-bits 0xfe000ee3 0x63 12 (omega arith)

-- A store of 8 bytes under a reservation that covers it.
abbrev reserved : Machine
reserved = record start {
  cpu = record (start.cpu) {
    regs = λ i. if i == 5 then 0x80000100 else 7;
    res = record { valid = true; addr_start = 0x80000100; addr_end = 0x80000108 };
  };
}

abbrev sc_d : InstDec
sc_d = record { opcode = 0x2f; rs1 = 5; rs2 = 6; rd = 10; imm = 0; csr = 0 }
