-- ===== src/Csr/Legal.antt =====
-- The WARL invariant of the CSRs: the values that the fields with restricted encodings may hold.
use tiny_linux_rv.Prelude.{ℕ, ◌<◌, bit_and, ◌≡◌, ◌≢◌, ◌⊎◌}
use tiny_linux_rv.Csr.Field.{csr_field_get}
use tiny_linux_rv.Csr.Masks.{
  mpp_pos, mie_write_mask, mideleg_write_mask, medeleg_write_mask, satp_mode_pos,
}
use tiny_linux_rv.Csr.Defs.{
  CsrReg, CsrPtr, ptr_mstatus, ptr_medeleg, ptr_mideleg, ptr_mie, ptr_mtvec, ptr_mepc, ptr_stvec,
  ptr_sepc, ptr_satp, get_reg, set_reg,
}

-- No bit outside the mask.
abbrev pub Within : ℕ → ℕ → Type 0
Within mask v = bit_and v mask ≡ v

-- What a register may hold; most may hold anything.
abbrev pub Allowed : CsrPtr → ℕ → Type 0
Allowed ptr_mstatus v = csr_field_get v mpp_pos 2 ≢ 2
Allowed ptr_mtvec v = csr_field_get v 0 2 < 2
Allowed ptr_stvec v = csr_field_get v 0 2 < 2
Allowed ptr_mepc v = csr_field_get v 0 2 ≡ 0
Allowed ptr_sepc v = csr_field_get v 0 2 ≡ 0
Allowed ptr_satp v = (csr_field_get v satp_mode_pos 4 ≡ 0) ⊎ (csr_field_get v satp_mode_pos 4 ≡ 8)
Allowed ptr_medeleg v = Within medeleg_write_mask v
Allowed ptr_mideleg v = Within mideleg_write_mask v
Allowed ptr_mie v = Within mie_write_mask v
Allowed _ v = Unit {0}

-- Of all the registers at once.
pub record IsLegal (r : CsrReg) : Type 0 where
  pub mpp : Allowed ptr_mstatus r.mstatus
  pub mtvec_mode : Allowed ptr_mtvec r.mtvec
  pub stvec_mode : Allowed ptr_stvec r.stvec
  pub mepc_aligned : Allowed ptr_mepc r.mepc
  pub sepc_aligned : Allowed ptr_sepc r.sepc
  pub satp_mode : Allowed ptr_satp r.satp
  pub medeleg_bits : Allowed ptr_medeleg r.medeleg
  pub mideleg_bits : Allowed ptr_mideleg r.mideleg
  pub mie_bits : Allowed ptr_mie r.mie

pub IsLegal-Allowed : (p : CsrPtr) (r : CsrReg) → IsLegal r → Allowed p (get_reg p r)
unfolding get_reg
IsLegal-Allowed ptr_mstatus r l = l.mpp
IsLegal-Allowed ptr_mtvec r l = l.mtvec_mode
IsLegal-Allowed ptr_stvec r l = l.stvec_mode
IsLegal-Allowed ptr_mepc r l = l.mepc_aligned
IsLegal-Allowed ptr_sepc r l = l.sepc_aligned
IsLegal-Allowed ptr_satp r l = l.satp_mode
IsLegal-Allowed ptr_medeleg r l = l.medeleg_bits
IsLegal-Allowed ptr_mideleg r l = l.mideleg_bits
IsLegal-Allowed ptr_mie r l = l.mie_bits
IsLegal-Allowed _ r l = tt

-- A store of an allowed value keeps the others.
pub set_reg-IsLegal :
    (p : CsrPtr) (v : ℕ) (r : CsrReg) → Allowed p v → IsLegal r → IsLegal (set_reg p v r)
unfolding set_reg
set_reg-IsLegal ptr_mstatus v r a l = assumption
set_reg-IsLegal _ v r a l = assumption
