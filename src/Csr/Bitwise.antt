-- ===== src/Csr/Bitwise.antt =====
-- What a granted write does to each bit of the register: `csr_access` against a table of the bits
-- that software may write.
use tiny_linux_rv.Prelude.{
  ℕ, ◌^◌, ◌<◌, ◌≡◌, subst, inl, refl, Bool, true, false, Option, none, some, arith, bit_and,
  if◌then◌else◌,
}
use tiny_linux_rv.Bits.{
  test_bit, test_bit-and, bits_ext, test_bit-or, test_bit-mask, test_bit-zero, bit_and-lt,
}
use tiny_linux_rv.Word.{uint64_max, not64, test_bit-and_not64}
use tiny_linux_rv.Csr.Masks.{
  sstatus_write_mask, sie_write_mask, sip_write_mask, mie_write_mask, mip_write_mask,
  medeleg_write_mask, mideleg_write_mask, counteren_write_mask, mcountinhibit_write_mask,
}
use tiny_linux_rv.Csr.Defs.{
  Csr, CsrOp, csr_op_rw, csr_op_rs, csr_op_rc, CsrAddr, csr_sstatus, csr_sie, csr_sip, csr_mie,
  csr_mip, csr_medeleg, csr_mideleg, csr_scounteren, csr_mcounteren, csr_mcountinhibit,
  csr_sscratch, csr_scause, csr_stval, csr_mscratch, csr_mcause, csr_mtval, csr_mcycle,
  csr_minstret, csr_misa, csr_time, decode_addr, csr_ptr, get_reg, get-set_reg,
}
use tiny_linux_rv.Csr.Access.{
  granted, csr_access, shadow_time, apply_op, under_mask, WriteParts, written_value, write_parts,
  post_write, write_reg, write_phase, imp_read_only, mark_written,
}
use tiny_linux_rv.Csr.Write.{op_bit, test_bit-apply_op, write_parts-sie, write_parts-sip}
use tiny_linux_rv.Csr.Guards.{access_reg-granted, csr_access-granted}

-- The bits that a write may change, of the CSRs whose value is not adjusted afterwards.
unfoldable pub writable_bits : CsrAddr → Csr → Option ℕ
writable_bits csr_sstatus c = some sstatus_write_mask
writable_bits csr_sie c = some (bit_and sie_write_mask c.csr_reg.mideleg)
writable_bits csr_sip c = some (bit_and sip_write_mask c.csr_reg.mideleg)
writable_bits csr_mie c = some mie_write_mask
writable_bits csr_mip c = some mip_write_mask
writable_bits csr_medeleg c = some medeleg_write_mask
writable_bits csr_mideleg c = some mideleg_write_mask
writable_bits csr_scounteren c = some counteren_write_mask
writable_bits csr_mcounteren c = some counteren_write_mask
writable_bits csr_mcountinhibit c = some mcountinhibit_write_mask
writable_bits csr_sscratch c = some uint64_max
writable_bits csr_scause c = some uint64_max
writable_bits csr_stval c = some uint64_max
writable_bits csr_mscratch c = some uint64_max
writable_bits csr_mcause c = some uint64_max
writable_bits csr_mtval c = some uint64_max
writable_bits csr_mcycle c = some uint64_max
writable_bits csr_minstret c = some uint64_max
writable_bits _ c = none

abbrev pub Written : ℕ → CsrOp → ℕ → ℕ → ℕ → Type 0
Written mask op value old new =
    (i : ℕ)
    → i < 64
    → test_bit new i
      ≡ (if test_bit mask i then op_bit op (test_bit value i) (test_bit old i) else test_bit old i)

bit_and_comm : (a b : ℕ) → bit_and a b ≡ bit_and b a
bit_and_comm a b = bits_ext _ _ λ i. ground (arith, test_bit-and a b i, test_bit-and b a i)

plain_write :
    (op : CsrOp) (value old : ℕ)
    → value < 2 ^ 64
    → Written uint64_max op value old
        (apply_op op old (record { write_value = value; csr_non_writable = 0 }))
unfolding apply_op
plain_write csr_op_rw value old v i h =
    ground (arith, test_bit-or 0 value i, test_bit-zero i, test_bit-mask 64 i)
plain_write csr_op_rs value old v i h = ground (arith, test_bit-or old value i, test_bit-mask 64 i)
plain_write csr_op_rc value old v i h = ground (
  arith,
  test_bit-or (bit_and old (not64 value)) 0 i,
  test_bit-and_not64 old value i v,
  test_bit-zero i,
  test_bit-mask 64 i,
)

masked_write :
    (op : CsrOp) (mask value old : ℕ)
    → mask < 2 ^ 64
    → Written mask op value old (apply_op op old (under_mask mask value old))
masked_write op mask value old m i h = test_bit-apply_op op mask value old i m (inl h)

delegated_write :
    (c : Csr) (op : CsrOp) (value outer old : ℕ) (w : WriteParts)
    → outer < 2 ^ 64
    → w ≡ under_mask (bit_and outer c.csr_reg.mideleg) value old
    → Written (bit_and outer c.csr_reg.mideleg) op value old (apply_op op old w)
delegated_write c op value outer old w m e = rw e (
    masked_write op (bit_and outer c.csr_reg.mideleg) value old
      (rw (bit_and_comm outer c.csr_reg.mideleg) (bit_and-lt 64 c.csr_reg.mideleg outer m)))

with_mask :
    {m mask : ℕ} (op : CsrOp) (value old new : ℕ)
    → some m ≡ some mask
    → Written m op value old new
    → Written mask op value old new
with_mask {m} {mask} op value old new e w =
    let same : m ≡ mask = cc in subst (λ k. Written k op value old new) same w

Written-bits :
    (a : CsrAddr) (c : Csr) (op : CsrOp) (value mask : ℕ)
    → value < 2 ^ 64
    → writable_bits a c ≡ some mask
    → Written mask op value (get_reg (csr_ptr a) c.csr_reg) (written_value a c op value)
unfolding writable_bits written_value post_write
Written-bits csr_sie c op value mask v m =
    with_mask op value _ _ m
      (delegated_write c op value sie_write_mask _ _ (omega arith) (write_parts-sie c value _))
Written-bits csr_sip c op value mask v m =
    with_mask op value _ _ m
      (delegated_write c op value sip_write_mask _ _ (omega arith) (write_parts-sip c value _))
Written-bits csr_sstatus c op value mask v m =
    unfold write_parts in
    with_mask op value _ _ m (masked_write op sstatus_write_mask value _ (omega arith))
Written-bits csr_mie c op value mask v m =
    unfold write_parts in
    with_mask op value _ _ m (masked_write op mie_write_mask value _ (omega arith))
Written-bits csr_mip c op value mask v m =
    unfold write_parts in
    with_mask op value _ _ m (masked_write op mip_write_mask value _ (omega arith))
Written-bits csr_medeleg c op value mask v m =
    unfold write_parts in
    with_mask op value _ _ m (masked_write op medeleg_write_mask value _ (omega arith))
Written-bits csr_mideleg c op value mask v m =
    unfold write_parts in
    with_mask op value _ _ m (masked_write op mideleg_write_mask value _ (omega arith))
Written-bits csr_scounteren c op value mask v m =
    unfold write_parts in
    with_mask op value _ _ m (masked_write op counteren_write_mask value _ (omega arith))
Written-bits csr_mcounteren c op value mask v m =
    unfold write_parts in
    with_mask op value _ _ m (masked_write op counteren_write_mask value _ (omega arith))
Written-bits csr_mcountinhibit c op value mask v m =
    unfold write_parts in
    with_mask op value _ _ m (masked_write op mcountinhibit_write_mask value _ (omega arith))
Written-bits csr_sscratch c op value mask v m =
    unfold write_parts in with_mask op value _ _ m (plain_write op value _ v)
Written-bits csr_scause c op value mask v m =
    unfold write_parts in with_mask op value _ _ m (plain_write op value _ v)
Written-bits csr_stval c op value mask v m =
    unfold write_parts in with_mask op value _ _ m (plain_write op value _ v)
Written-bits csr_mscratch c op value mask v m =
    unfold write_parts in with_mask op value _ _ m (plain_write op value _ v)
Written-bits csr_mcause c op value mask v m =
    unfold write_parts in with_mask op value _ _ m (plain_write op value _ v)
Written-bits csr_mtval c op value mask v m =
    unfold write_parts in with_mask op value _ _ m (plain_write op value _ v)
Written-bits csr_mcycle c op value mask v m =
    unfold write_parts in with_mask op value _ _ m (plain_write op value _ v)
Written-bits csr_minstret c op value mask v m =
    unfold write_parts in with_mask op value _ _ m (plain_write op value _ v)
Written-bits _ c op value mask v m = cc

-- A CSR of the table is neither misa nor the shadow of mtime.
writable :
    (a : CsrAddr) (c : Csr) (time mask : ℕ)
    → writable_bits a c ≡ some mask
    → (imp_read_only a ≡ false)
      × (writable_bits a (shadow_time c time) ≡ some mask)
      × (get_reg (csr_ptr a) (shadow_time c time).csr_reg ≡ get_reg (csr_ptr a) c.csr_reg)
unfolding writable_bits imp_read_only csr_ptr get_reg
writable csr_misa c time mask m = cc
writable csr_time c time mask m = cc
writable _ c time mask m = (refl, m, refl)

stored_value :
    (a : CsrAddr) (c : Csr) (op : CsrOp) (value : ℕ)
    → imp_read_only a ≡ false
    → get_reg (csr_ptr a) (write_phase a c op value true).csr_reg ≡ written_value a c op value
unfolding write_phase write_reg
stored_value a c op value w =
    ground (arith, get-set_reg (csr_ptr a) (written_value a c op value) (mark_written a c).csr_reg)

-- A granted write of a 64-bit value to a CSR of the table changes exactly the bits that the table
-- gives, each as CSRRW, CSRRS or CSRRC does; all others keep their value.
pub csr_access_writes_bits :
    (c c' : Csr) (addr : ℕ) (op : CsrOp) (value : ℕ) (read_csr : Bool) (time priv : ℕ)
    (rd : Option ℕ) (a : CsrAddr) (mask : ℕ)
    → value < 2 ^ 64
    → decode_addr addr ≡ some a
    → writable_bits a c ≡ some mask
    → csr_access c addr op value read_csr true time priv ≡ granted rd c'
    → Written mask op value (get_reg (csr_ptr a) c.csr_reg) (get_reg (csr_ptr a) c'.csr_reg)
csr_access_writes_bits c c' addr op value read_csr time priv rd a mask v found m e =
    let (b, found', g) = csr_access-granted c c' addr op value read_csr true time priv rd e in
    let same : b ≡ a = cc in
    let (r, s, w) = access_reg-granted b (shadow_time c time) c' op value read_csr true priv rd g in
    let (w', m', old) = writable a c time mask m in
    rw (s, same, stored_value a (shadow_time c time) op value w', ← old)
      (Written-bits a (shadow_time c time) op value mask v m')
