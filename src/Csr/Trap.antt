-- ===== src/Csr/Trap.antt =====
-- `trap_enter`, `trap_exit_mret`, `trap_exit_sret`, the checks of the privileged instructions and
-- `effective_priv_mode` of emulator/src/cpu/csr.c.
use tiny_linux_rv.Prelude.{
  ℕ, ◌+◌, ◌*◌, ◌==◌, ltb, Bool, ◌&&◌, ◌||◌, bit_and, if◌then◌else◌, nonzero,
}
use tiny_linux_rv.Word.{not64, u64, ◌<<<◌}
use tiny_linux_rv.Csr.Field.{csr_field_get, csr_field_set}
use tiny_linux_rv.Csr.Masks.{
  sie_pos, mie_pos, spie_pos, mpie_pos, spp_pos, mpp_pos, mprv_pos, tvm_pos, tw_pos, tsr_pos,
  csr_bit, trap_pc_align_mask, trap_vector_mode_mask,
}
use tiny_linux_rv.Csr.Defs.{Csr, CsrReg, priv_u, priv_s, priv_m}

-- The CSRs, the privilege mode and the address that execution goes on at.
pub record Jump : Type 0 where
  pub csr : Csr
  pub priv : ℕ
  pub next_pc : ℕ

-- The mode that handles a trap.
unfoldable pub trap_target : CsrReg → ℕ → ℕ → ℕ → ℕ
trap_target r interrupt cause_code priv =
    let pos_mask = 1 <<< cause_code in
    if ltb priv priv_m
    then if nonzero interrupt
      then if nonzero (bit_and r.mideleg pos_mask) then priv_s else priv_m
      else if nonzero (bit_and r.medeleg pos_mask)
      then priv_s
      else priv_m
    else priv_m

-- MPIE = MIE, MIE = 0, MPP = the mode left.
unfoldable pub push_m : ℕ → ℕ → ℕ
push_m mstatus priv =
    let mstatus_mie = csr_field_get mstatus mie_pos 1 in
    csr_field_set (csr_field_set (csr_field_set mstatus mpie_pos 1 mstatus_mie) mie_pos 1 0) mpp_pos
      2 priv

-- SPIE = SIE, SIE = 0, SPP = the mode left.
unfoldable pub push_s : ℕ → ℕ → ℕ
push_s mstatus priv =
    let mstatus_sie = csr_field_get mstatus sie_pos 1 in
    csr_field_set (csr_field_set (csr_field_set mstatus spie_pos 1 mstatus_sie) sie_pos 1 0) spp_pos
      1 priv

unfoldable pub trap_vector : ℕ → ℕ → ℕ → ℕ
trap_vector tvec interrupt cause_code =
    let trap_vec_base = bit_and tvec (not64 trap_vector_mode_mask) in
    let trap_vec_mode = bit_and tvec trap_vector_mode_mask in
    if trap_vec_mode == 1 && nonzero interrupt
    then u64 (trap_vec_base + 4 * cause_code)
    else trap_vec_base

unfoldable pub trap_enter : Csr → ℕ → ℕ → ℕ → ℕ → Jump
trap_enter c cause tval pc priv =
    let r = c.csr_reg in
    let interrupt = csr_field_get cause 63 1 in
    let cause_code = csr_field_get cause 0 63 in
    if trap_target r interrupt cause_code priv == priv_m
    then record {
      csr = record c {
        csr_reg = record r {
          mstatus = push_m r.mstatus priv;
          mtval = tval;
          mcause = cause;
          mepc = bit_and pc trap_pc_align_mask;
        };
      };
      priv = priv_m;
      next_pc = trap_vector r.mtvec interrupt cause_code;
    }
    else record {
      csr = record c {
        csr_reg = record r {
          mstatus = push_s r.mstatus priv;
          stval = tval;
          scause = cause;
          sepc = bit_and pc trap_pc_align_mask;
        };
      };
      priv = priv_s;
      next_pc = trap_vector r.stvec interrupt cause_code;
    }

-- MIE = MPIE, MPIE = 1, MPP = U, and MPRV = 0 if the mode returned to is below M.
unfoldable pub pop_m : ℕ → ℕ → ℕ
pop_m mstatus priv =
    let mstatus_mpie = csr_field_get mstatus mpie_pos 1 in
    let s = csr_field_set mstatus mie_pos 1 mstatus_mpie in
    let s' = csr_field_set (csr_field_set s mpie_pos 1 1) mpp_pos 2 priv_u in
    if ltb priv priv_m then csr_field_set s' mprv_pos 1 0 else s'

unfoldable pub trap_exit_mret : Csr → Jump
trap_exit_mret c =
    let r = c.csr_reg in
    let priv = csr_field_get r.mstatus mpp_pos 2 in
    record {
      csr = record c { csr_reg = record r { mstatus = pop_m r.mstatus priv } };
      priv = priv;
      next_pc = bit_and r.mepc trap_pc_align_mask;
    }

-- SIE = SPIE, SPIE = 1, SPP = U, and MPRV = 0.
unfoldable pub pop_s : ℕ → ℕ → ℕ
pop_s mstatus priv =
    let spie = csr_field_get mstatus spie_pos 1 in
    let s = csr_field_set mstatus sie_pos 1 spie in
    let s' = csr_field_set (csr_field_set s spie_pos 1 1) spp_pos 1 priv_u in
    if ltb priv priv_m then csr_field_set s' mprv_pos 1 0 else s'

unfoldable pub trap_exit_sret : Csr → Jump
trap_exit_sret c =
    let r = c.csr_reg in
    let priv = csr_field_get r.mstatus spp_pos 1 in
    record {
      csr = record c { csr_reg = record r { mstatus = pop_s r.mstatus priv } };
      priv = priv;
      next_pc = bit_and r.sepc trap_pc_align_mask;
    }

unfoldable pub check_mret_privilege : ℕ → Bool
check_mret_privilege priv = priv == priv_s || priv == priv_u

unfoldable pub check_sret_trap : Csr → ℕ → Bool
check_sret_trap c priv =
    (priv == priv_s && nonzero (bit_and c.csr_reg.mstatus (csr_bit tsr_pos))) || priv == priv_u

unfoldable pub check_wfi_trap : Csr → ℕ → Bool
check_wfi_trap c priv =
    (nonzero (csr_field_get c.csr_reg.mstatus tw_pos 1) && priv == priv_s) || priv == priv_u

unfoldable pub check_sfence_vma : Csr → ℕ → Bool
check_sfence_vma c priv =
    priv == priv_u || (priv == priv_s && nonzero (csr_field_get c.csr_reg.mstatus tvm_pos 1))

unfoldable pub effective_priv_mode : Csr → ℕ → ℕ
effective_priv_mode c priv =
    if nonzero (csr_field_get c.csr_reg.mstatus mprv_pos 1)
    then csr_field_get c.csr_reg.mstatus mpp_pos 2
    else priv
