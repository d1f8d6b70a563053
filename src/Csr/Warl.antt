-- ===== src/Csr/Warl.antt =====
-- `csr_access` keeps the WARL invariant: no write puts a value into a register that the register's
-- restricted fields do not admit.
use tiny_linux_rv.Prelude.{
  ℕ, ◌<◌, ◌≡◌, ◌≢◌, ◌⊎◌, refl, Bool, true, false, arith, bit_and, not, ◌&&◌, if◌then◌else◌,
}
use tiny_linux_rv.Bits.{test_bit-and, bits_ext}
use tiny_linux_rv.Csr.Field.{csr_field_get, get-set_self, get-aligned, get-lt}
use tiny_linux_rv.Csr.Masks.{
  mpp_pos, satp_mode_pos, sie_write_mask, mie_write_mask, mideleg_write_mask, medeleg_write_mask,
  sstatus_write_mask,
}
use tiny_linux_rv.Csr.Defs.{
  Csr, CsrOp, CsrAddr, csr_sstatus, csr_sie, csr_stvec, csr_sepc, csr_satp, csr_mstatus,
  csr_medeleg, csr_mideleg, csr_mie, csr_mtvec, csr_mepc, csr_ptr, get_reg,
}
use tiny_linux_rv.Csr.Access.{
  CsrOutcome, denied, granted, csr_access, shadow_time, written_value, write_parts, imp_read_only,
  post_write, write_reg, write_phase, csr_init,
}
use tiny_linux_rv.Csr.Legal.{Within, Allowed, IsLegal, set_reg-IsLegal}
use tiny_linux_rv.Csr.Write.{apply_op-get, apply_op-Within, write_parts-sie}
use tiny_linux_rv.Csr.Guards.{
  access_reg-granted, csr_access-granted, csr_access_denied_unchanged, csr_reg-mark_written,
}

Within-and : (outer m x : ℕ) → Within outer m → Within outer (bit_and m x)
Within-and outer m x h = bits_ext _ _ λ i.
    ground
      (arith, test_bit-and (bit_and m x) outer i, test_bit-and m x i, test_bit-and m outer i, h)

-- Each restricted register after a write.
written-mpp : (v old : ℕ) → csr_field_get (post_write csr_mstatus v old) mpp_pos 2 ≢ 2
unfolding post_write
written-mpp v old = ground (arith, get-set_self v mpp_pos 2 0)

written-vector_mode : (v old : ℕ) → csr_field_get (post_write csr_mtvec v old) 0 2 < 2
unfolding post_write
written-vector_mode v old = ground (arith, get-set_self v 0 2 0, get-lt v 0 2)

written-satp :
    (v old : ℕ)
    → (csr_field_get old satp_mode_pos 4 ≡ 0) ⊎ (csr_field_get old satp_mode_pos 4 ≡ 8)
    → (csr_field_get (post_write csr_satp v old) satp_mode_pos 4 ≡ 0)
      ⊎ (csr_field_get (post_write csr_satp v old) satp_mode_pos 4 ≡ 8)
unfolding post_write
written-satp v old h = ground arith

-- Whatever is written, the register then holds what it may hold.
written_value-Allowed :
    (a : CsrAddr) (c : Csr) (op : CsrOp) (value : ℕ)
    → IsLegal c.csr_reg
    → Allowed (csr_ptr a) (written_value a c op value)
unfolding written_value csr_ptr get_reg
written_value-Allowed csr_mstatus c op value l = written-mpp _ c.csr_reg.mstatus
written_value-Allowed csr_mtvec c op value l = written-vector_mode _ c.csr_reg.mtvec
written_value-Allowed csr_stvec c op value l =
    unfold post_write in written-vector_mode _ c.csr_reg.stvec
written_value-Allowed csr_mepc c op value l = unfold post_write in get-aligned _
written_value-Allowed csr_sepc c op value l = unfold post_write in get-aligned _
written_value-Allowed csr_satp c op value l = written-satp _ c.csr_reg.satp l.satp_mode
written_value-Allowed csr_sstatus c op value l =
    unfold post_write write_parts in
    rw
      (apply_op-get op sstatus_write_mask value c.csr_reg.mstatus mpp_pos 2 (omega arith)
        (omega arith) (unfold csr_field_get in refl))
      l.mpp
written_value-Allowed csr_medeleg c op value l =
    unfold post_write write_parts in
    apply_op-Within op medeleg_write_mask medeleg_write_mask value c.csr_reg.medeleg (omega arith)
      refl l.medeleg_bits
written_value-Allowed csr_mideleg c op value l =
    unfold post_write write_parts in
    apply_op-Within op mideleg_write_mask mideleg_write_mask value c.csr_reg.mideleg (omega arith)
      refl l.mideleg_bits
written_value-Allowed csr_mie c op value l =
    unfold post_write write_parts in
    apply_op-Within op mie_write_mask mie_write_mask value c.csr_reg.mie (omega arith) refl
      l.mie_bits
written_value-Allowed csr_sie c op value l =
    unfold post_write in
    rw (write_parts-sie c value c.csr_reg.mie) (
      apply_op-Within op mie_write_mask (bit_and sie_write_mask c.csr_reg.mideleg) value
        c.csr_reg.mie (omega arith)
        (Within-and mie_write_mask sie_write_mask c.csr_reg.mideleg refl) l.mie_bits)
written_value-Allowed _ c op value l = tt

pub if-IsLegal :
    (b : Bool) (x y : Csr)
    → IsLegal x.csr_reg
    → IsLegal y.csr_reg
    → IsLegal (if b then x else y).csr_reg
if-IsLegal true x y p q = p
if-IsLegal false x y p q = q

write_phase-IsLegal :
    (a : CsrAddr) (c : Csr) (op : CsrOp) (value : ℕ) (write_csr : Bool)
    → IsLegal c.csr_reg
    → IsLegal (write_phase a c op value write_csr).csr_reg
unfolding write_phase write_reg
write_phase-IsLegal a c op value write_csr l =
    if-IsLegal (write_csr && not (imp_read_only a)) (write_reg a c op value) c
      (rw (csr_reg-mark_written a c) (
        set_reg-IsLegal (csr_ptr a) (written_value a c op value) c.csr_reg
          (written_value-Allowed a c op value l) l))
      l

-- The state that an access leaves, refused or granted.
abbrev pub state_after : CsrOutcome → Csr
state_after (denied c) = c
state_after (granted rd c) = c

-- Every access to the CSRs, refused or granted, with any operation and value and in any mode, keeps
-- the restricted fields at values that they may hold: MPP is no reserved mode, MODE of the vectors
-- and of satp is a supported one, the return addresses are aligned, and medeleg, mideleg and mie
-- have no bit that is not implemented.
pub csr_access-IsLegal :
    (c : Csr) (addr : ℕ) (op : CsrOp) (value : ℕ) (read_csr write_csr : Bool) (time priv : ℕ)
    → IsLegal c.csr_reg
    → IsLegal (state_after (csr_access c addr op value read_csr write_csr time priv)).csr_reg
csr_access-IsLegal c addr op value read_csr write_csr time priv l =
    by_outcome (csr_access c addr op value read_csr write_csr time priv) refl
  where
    shadow : IsLegal (shadow_time c time).csr_reg
    shadow = assumption

    by_outcome :
        (o : CsrOutcome)
        → csr_access c addr op value read_csr write_csr time priv ≡ o
        → IsLegal (state_after o).csr_reg
    by_outcome (denied c') e =
        rw (csr_access_denied_unchanged c c' addr op value read_csr write_csr time priv e) shadow
    by_outcome (granted rd c') e =
        let (a, found, g) =
          csr_access-granted c c' addr op value read_csr write_csr time priv rd e in
        let (r, s, w) =
          access_reg-granted a (shadow_time c time) c' op value read_csr write_csr priv rd g in
        rw s (write_phase-IsLegal a (shadow_time c time) op value write_csr shadow)

-- The reset values are legal.
pub csr_init-IsLegal : IsLegal (csr_init).csr_reg
unfolding csr_init csr_field_get
csr_init-IsLegal = omega arith
