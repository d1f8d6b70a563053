-- ===== src/Csr/Interrupt.antt =====
-- `check_interrupt`, the scan of the pending interrupts, and the updates of the CSRs before and
-- after an instruction, of emulator/src/cpu/csr.c.
use tiny_linux_rv.Prelude.{
  ℕ, ◌+◌, ◌==◌, ◌!=◌, ltb, Bool, false, not, ◌&&◌, Option, none, some, List, [], ◌∷◌, if◌then◌else◌,
  nonzero, to_num,
}
use tiny_linux_rv.Word.{u64}
use tiny_linux_rv.Csr.Field.{csr_field_get, csr_field_set}
use tiny_linux_rv.Csr.Masks.{
  sie_pos, mie_pos, int_ssip, int_msip, int_stip, int_mtip, int_seip, int_meip, counter_cy_pos,
  counter_ir_pos,
}
use tiny_linux_rv.Csr.Defs.{Csr, priv_s, priv_m}

unfoldable pub check_interrupt : Csr → ℕ → ℕ → Bool
check_interrupt c priv id =
    let r = c.csr_reg in
    let intr = nonzero (csr_field_get r.mip id 1) in
    let enable = nonzero (csr_field_get r.mie id 1) in
    let delegate = nonzero (csr_field_get r.mideleg id 1) in
    let mstatus_mie = nonzero (csr_field_get r.mstatus mie_pos 1) in
    let mstatus_sie = nonzero (csr_field_get r.mstatus sie_pos 1) in
    let target_priv = if delegate then priv_s else priv_m in
    if ltb priv target_priv
    then intr && enable
    else if priv == target_priv
    then intr && (enable && (if target_priv == priv_m then mstatus_mie else mstatus_sie))
    else false

-- The loop over `interrupt_id`.
unfoldable pub first_interrupt : Csr → ℕ → List ℕ → Option ℕ
first_interrupt c priv [] = none
first_interrupt c priv (id ∷ ids) =
    if check_interrupt c priv id then some id else first_interrupt c priv ids

abbrev pub interrupt_order : List ℕ
interrupt_order = int_meip ∷ int_msip ∷ int_mtip ∷ int_seip ∷ int_ssip ∷ int_stip ∷ []

-- `none` is a return of false; `some id` stands for true and `*int_id`.
unfoldable pub interrupt_pending_and_enabled : Csr → ℕ → Option ℕ
interrupt_pending_and_enabled c priv = first_interrupt c priv interrupt_order

unfoldable pub interrupt_pending : Csr → Bool
interrupt_pending c = c.csr_reg.mip != 0

set_mip : ℕ → Bool → Bool → Bool → Bool → ℕ
set_mip mip meip msip mtip seip =
    let m = csr_field_set mip int_meip 1 (to_num meip) in
    let m' = csr_field_set m int_msip 1 (to_num msip) in
    let m'' = csr_field_set m' int_mtip 1 (to_num mtip) in
    csr_field_set m'' int_seip 1 (to_num seip)

unfoldable pub csr_begin_update : Csr → Bool → Bool → Bool → Bool → Csr
unfolding set_mip
csr_begin_update c meip msip mtip seip = record {
  csr_reg = record (c.csr_reg) { mip = set_mip c.csr_reg.mip meip msip mtip seip };
  starting_mcountinhibit = c.csr_reg.mcountinhibit;
  mcycle_written = false;
  minstret_written = false;
  satp_written = false;
}

next_minstret : Csr → Bool → ℕ
next_minstret c retired =
    if not (nonzero (csr_field_get c.starting_mcountinhibit counter_ir_pos 1))
      && (not c.minstret_written && retired)
    then u64 (c.csr_reg.minstret + 1)
    else c.csr_reg.minstret

next_mcycle : Csr → ℕ
next_mcycle c =
    if not (nonzero (csr_field_get c.starting_mcountinhibit counter_cy_pos 1))
      && not c.mcycle_written
    then u64 (c.csr_reg.mcycle + 1)
    else c.csr_reg.mcycle

unfoldable pub csr_end_update : Csr → Bool → Csr
unfolding next_minstret next_mcycle
csr_end_update c retired = record {
  csr_reg = record (c.csr_reg) { minstret = next_minstret c retired; mcycle = next_mcycle c };
  starting_mcountinhibit = c.starting_mcountinhibit;
  mcycle_written = false;
  minstret_written = false;
  satp_written = false;
}
