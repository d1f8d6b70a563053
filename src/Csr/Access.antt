-- ===== src/Csr/Access.antt =====
-- `csr_init`, `check_counteren` and `csr_access` of emulator/src/cpu/csr.c. The long function is
-- split at its phases: privilege, decoding, read, write. A return of 1 is `denied`, with the state
-- as it is left; a return of 0 is `granted`, with what `*rdata` holds if the CSR was read.
use tiny_linux_rv.Prelude.{
  ℕ, ◌==◌, ltb, Bool, true, false, not, ◌&&◌, ◌||◌, Option, none, some, bit_and, bit_or,
  if◌then◌else◌, nonzero,
}
use tiny_linux_rv.Word.{not64}
use tiny_linux_rv.Csr.Field.{csr_field_get, csr_field_set}
use tiny_linux_rv.Csr.Masks.{
  counter_cy_pos, counter_tm_pos, counter_ir_pos, mstatus_write_mask, sstatus_read_mask,
  sstatus_write_mask, mie_write_mask, mip_write_mask, medeleg_write_mask, mideleg_write_mask,
  counteren_write_mask, mcountinhibit_write_mask, sie_read_mask, sie_write_mask, sip_read_mask,
  sip_write_mask, satp_write_mask, satp_mode_pos, tvm_pos, mpp_pos, uxl_pos, sxl_pos,
  trap_pc_align_mask,
}
use tiny_linux_rv.Csr.Defs.{
  Csr, CsrReg, CsrOp, csr_op_rw, csr_op_rs, csr_op_rc, CsrAddr, csr_sstatus, csr_sie, csr_stvec,
  csr_scounteren, csr_sepc, csr_sip, csr_satp, csr_mstatus, csr_misa, csr_medeleg, csr_mideleg,
  csr_mie, csr_mtvec, csr_mcounteren, csr_mepc, csr_mip, csr_mcountinhibit, csr_mcycle,
  csr_minstret, csr_cycle, csr_time, csr_instret, CsrPtr, csr_ptr, get_reg, set_reg, read_only,
  decode_addr, priv_u, priv_s,
}

zeroed : CsrReg
zeroed = record {
  mstatus = 0;
  misa = 0;
  medeleg = 0;
  mideleg = 0;
  mie = 0;
  mtvec = 0;
  mcounteren = 0;
  mscratch = 0;
  mepc = 0;
  mcause = 0;
  mtval = 0;
  mip = 0;
  mcountinhibit = 0;
  mcycle = 0;
  minstret = 0;
  mvendorid = 0;
  marchid = 0;
  mimpid = 0;
  mhartid = 0;
  stvec = 0;
  scounteren = 0;
  sscratch = 0;
  sepc = 0;
  scause = 0;
  stval = 0;
  satp = 0;
  mtime = 0;
}

-- The five extension letters of misa and its MXL, then the widths in mstatus.
csr_default : CsrReg → CsrReg
csr_default r =
    let misa_a = csr_field_set 0 0 1 1 in
    let misa_i = csr_field_set misa_a 8 1 1 in
    let misa_m = csr_field_set misa_i 12 1 1 in
    let misa_s = csr_field_set misa_m 18 1 1 in
    let misa_u = csr_field_set misa_s 20 1 1 in
    record r {
      misa = csr_field_set misa_u 62 2 2;
      mstatus = csr_field_set (csr_field_set r.mstatus uxl_pos 2 2) sxl_pos 2 2;
    }

unfoldable pub csr_init : Csr
unfolding zeroed csr_default csr_field_set
csr_init = record {
  csr_reg = csr_default zeroed;
  starting_mcountinhibit = 0;
  mcycle_written = false;
  minstret_written = false;
  satp_written = false;
}

unfoldable pub check_counteren : Csr → ℕ → ℕ → Bool
check_counteren c pos priv =
    if (priv == priv_s || priv == priv_u)
      && not (nonzero (csr_field_get c.csr_reg.mcounteren pos 1))
    then false
    else if priv == priv_u && not (nonzero (csr_field_get c.csr_reg.scounteren pos 1))
    then false
    else true

pub data CsrOutcome : Type 0 where
  denied : Csr → CsrOutcome
  granted : Option ℕ → Csr → CsrOutcome

-- A counter that the mode may not see is `none`.
counter_value : Csr → CsrPtr → ℕ → ℕ → Option ℕ
counter_value c p pos priv = if check_counteren c pos priv then some (get_reg p c.csr_reg) else none

-- The switch of the read operation.
unfoldable pub read_value : CsrAddr → Csr → ℕ → Option ℕ
unfolding counter_value
read_value csr_sstatus c priv = some (bit_and c.csr_reg.mstatus sstatus_read_mask)
read_value csr_sie c priv = some (bit_and (bit_and c.csr_reg.mie sie_read_mask) c.csr_reg.mideleg)
read_value csr_sip c priv = some (bit_and (bit_and c.csr_reg.mip sip_read_mask) c.csr_reg.mideleg)
read_value csr_cycle c priv = counter_value c (csr_ptr csr_cycle) counter_cy_pos priv
read_value csr_time c priv = counter_value c (csr_ptr csr_time) counter_tm_pos priv
read_value csr_instret c priv = counter_value c (csr_ptr csr_instret) counter_ir_pos priv
read_value a c priv = some (get_reg (csr_ptr a) c.csr_reg)

-- `write_value` and `csr_non_writable`.
pub record WriteParts : Type 0 where
  pub write_value : ℕ
  pub csr_non_writable : ℕ

abbrev pub under_mask : ℕ → ℕ → ℕ → WriteParts
under_mask mask value old = record {
  write_value = bit_and value mask;
  csr_non_writable = bit_and old (not64 mask);
}

-- The switch of the write operation: from the value written and `*csr_reg`.
unfoldable pub write_parts : CsrAddr → Csr → ℕ → ℕ → WriteParts
write_parts csr_mstatus c value old = under_mask mstatus_write_mask value old
write_parts csr_mie c value old = under_mask mie_write_mask value old
write_parts csr_mip c value old = under_mask mip_write_mask value old
write_parts csr_medeleg c value old = under_mask medeleg_write_mask value old
write_parts csr_mideleg c value old = under_mask mideleg_write_mask value old
write_parts csr_scounteren c value old = under_mask counteren_write_mask value old
write_parts csr_mcounteren c value old = under_mask counteren_write_mask value old
write_parts csr_mcountinhibit c value old = under_mask mcountinhibit_write_mask value old
write_parts csr_sstatus c value old = under_mask sstatus_write_mask value old
write_parts csr_sie c value old = record {
  write_value = bit_and (bit_and value sie_write_mask) c.csr_reg.mideleg;
  csr_non_writable = bit_and old (not64 (bit_and sie_write_mask c.csr_reg.mideleg));
}
write_parts csr_sip c value old = record {
  write_value = bit_and (bit_and value sip_write_mask) c.csr_reg.mideleg;
  csr_non_writable = bit_and old (not64 (bit_and sip_write_mask c.csr_reg.mideleg));
}
write_parts csr_satp c value old = under_mask satp_write_mask value old
write_parts _ c value old = record { write_value = value; csr_non_writable = 0 }

-- The flags that the same switch sets.
unfoldable pub mark_written : CsrAddr → Csr → Csr
mark_written csr_mcycle c = record c { mcycle_written = true }
mark_written csr_minstret c = record c { minstret_written = true }
mark_written csr_satp c = record c { satp_written = true }
mark_written _ c = c

unfoldable pub apply_op : CsrOp → ℕ → WriteParts → ℕ
apply_op csr_op_rw old w = bit_or w.csr_non_writable w.write_value
apply_op csr_op_rs old w = bit_or old w.write_value
apply_op csr_op_rc old w = bit_or (bit_and old (not64 w.write_value)) w.csr_non_writable

fix_mpp : ℕ → ℕ
fix_mpp v = if csr_field_get v mpp_pos 2 == 2 then csr_field_set v mpp_pos 2 0 else v

fix_vector_mode : ℕ → ℕ
fix_vector_mode v =
    let mode = csr_field_get v 0 2 in if mode == 2 || mode == 3 then csr_field_set v 0 2 0 else v

fix_satp : ℕ → ℕ → ℕ
fix_satp v csr_b4_write =
    let field = csr_field_get v satp_mode_pos 4 in
    if not (field == 0) && not (field == 8) then csr_b4_write else v

-- The post handling, from the new value and the one before the write.
unfoldable pub post_write : CsrAddr → ℕ → ℕ → ℕ
unfolding fix_mpp fix_vector_mode fix_satp
post_write csr_mstatus v csr_b4_write = fix_mpp v
post_write csr_mtvec v csr_b4_write = fix_vector_mode v
post_write csr_stvec v csr_b4_write = fix_vector_mode v
post_write csr_sepc v csr_b4_write = bit_and v trap_pc_align_mask
post_write csr_mepc v csr_b4_write = bit_and v trap_pc_align_mask
post_write csr_satp v csr_b4_write = fix_satp v csr_b4_write
post_write _ v csr_b4_write = v

-- What the write operation leaves in `*csr_reg`.
unfoldable pub written_value : CsrAddr → Csr → CsrOp → ℕ → ℕ
written_value a c op value =
    let old = get_reg (csr_ptr a) c.csr_reg in
    post_write a (apply_op op old (write_parts a c value old)) old

unfoldable pub write_reg : CsrAddr → Csr → CsrOp → ℕ → Csr
write_reg a c op value =
    let c' = mark_written a c in
    record c' { csr_reg = set_reg (csr_ptr a) (written_value a c op value) c'.csr_reg }

unfoldable pub imp_read_only : CsrAddr → Bool
imp_read_only csr_misa = true
imp_read_only _ = false

is_satp : CsrAddr → Bool
is_satp csr_satp = true
is_satp _ = false

unfoldable pub write_phase : CsrAddr → Csr → CsrOp → ℕ → Bool → Csr
unfolding imp_read_only
write_phase a c op value write_csr =
    if write_csr && not (imp_read_only a) then write_reg a c op value else c

unfoldable pub read_phase : CsrAddr → Csr → Bool → ℕ → Option (Option ℕ)
read_phase a c read_csr priv =
    if read_csr
    then elim (read_value a c priv) [ none ↦ none | some v ↦ some (some v) ]
    else some none

-- From the decoded address on.
unfoldable pub access_reg : CsrAddr → Csr → CsrOp → ℕ → Bool → Bool → ℕ → CsrOutcome
unfolding is_satp
access_reg a c op value read_csr write_csr priv =
    if is_satp a && (priv == priv_s && nonzero (csr_field_get c.csr_reg.mstatus tvm_pos 1))
    then denied c
    else if write_csr && read_only a
    then denied c
    else elim (read_phase a c read_csr priv) [
      | none ↦ denied c
      | some rdata ↦ granted rdata (write_phase a c op value write_csr)
    ]

-- The shadow copy of mtime, taken before anything else.
abbrev pub shadow_time : Csr → ℕ → Csr
shadow_time c time_value = record c { csr_reg = record (c.csr_reg) { mtime = time_value } }

unfoldable pub csr_access : Csr → ℕ → CsrOp → ℕ → Bool → Bool → ℕ → ℕ → CsrOutcome
csr_access c addr op value read_csr write_csr time_value priv =
    let c' = shadow_time c time_value in
    let addr_priv = csr_field_get addr 8 2 in
    if priv == priv_u && ltb priv_u addr_priv
    then denied c'
    else if priv == priv_s && ltb priv_s addr_priv
    then denied c'
    else elim (decode_addr addr) [
      | none ↦ denied c'
      | some a ↦ access_reg a c' op value read_csr write_csr priv
    ]
