-- ===== src/Csr/Write.antt =====
-- The bits that a masked write leaves in a register.
use tiny_linux_rv.Prelude.{
  ℕ, ◌+◌, ◌^◌, ◌≤◌, ◌<◌, bit_and, ◌≡◌, sym, ap, ◌∙◌, ◌⊎◌, inl, inr, Bool, false, ◌&&◌, ◌||◌, not,
  arith, ltb, if◌then◌else◌, Bool-cases,
}
use tiny_linux_rv.Bits.{
  test_bit, test_bit-zero, test_bit-and, test_bit-or, bits_ext, test_bit-high, bit_and-lt,
}
use tiny_linux_rv.Word.{not64, test_bit-and_not64}
use tiny_linux_rv.Csr.Field.{csr_field_get, test_bit-get}
use tiny_linux_rv.Csr.Masks.{sip_write_mask, sie_write_mask}
use tiny_linux_rv.Csr.Defs.{Csr, CsrOp, csr_op_rw, csr_op_rs, csr_op_rc, csr_sie, csr_sip}
use tiny_linux_rv.Csr.Access.{under_mask, write_parts, apply_op}
use tiny_linux_rv.Csr.Legal.{Within}

-- What each operation does to one writable bit: the value's bit, then the old one.
abbrev pub op_bit : CsrOp → Bool → Bool → Bool
op_bit csr_op_rw v o = v
op_bit csr_op_rs v o = o || v
op_bit csr_op_rc v o = o && not v

pub test_bit-apply_op :
    (op : CsrOp) (mask value old i : ℕ)
    → mask < 2 ^ 64
    → (i < 64) ⊎ (test_bit old i ≡ false)
    → test_bit (apply_op op old (under_mask mask value old)) i
      ≡ (if test_bit mask i then op_bit op (test_bit value i) (test_bit old i) else test_bit old i)
unfolding apply_op
test_bit-apply_op csr_op_rw mask value old i m o = ground (
  arith,
  test_bit-or (bit_and old (not64 mask)) (bit_and value mask) i,
  test_bit-and_not64 old mask i m,
  test_bit-and value mask i,
  test_bit-high 64 mask i m,
)
test_bit-apply_op csr_op_rs mask value old i m o =
    ground (arith, test_bit-or old (bit_and value mask) i, test_bit-and value mask i)
test_bit-apply_op csr_op_rc mask value old i m o = ground (
  arith,
  test_bit-or (bit_and old (not64 (bit_and value mask))) (bit_and old (not64 mask)) i,
  test_bit-and_not64 old mask i m,
  test_bit-and_not64 old (bit_and value mask) i (bit_and-lt 64 value mask m),
  test_bit-and value mask i,
  test_bit-high 64 mask i m,
)

-- A field that the mask leaves out is kept.
pub apply_op-get :
    (op : CsrOp) (mask value old p w : ℕ)
    → mask < 2 ^ 64
    → p + w ≤ 64
    → csr_field_get mask p w ≡ 0
    → csr_field_get (apply_op op old (under_mask mask value old)) p w ≡ csr_field_get old p w
apply_op-get op mask value old p w m fits clear = bits_ext _ _ λ i. elim (Bool-cases (ltb i w)) [
  | inl low ↦ ground (
    arith,
    test_bit-get (apply_op op old (under_mask mask value old)) p w i,
    test_bit-get old p w i,
    test_bit-get mask p w i,
    test_bit-zero i,
    ap (λ (t : ℕ). test_bit t i) clear,
    test_bit-apply_op op mask value old (i + p) m (inl (ground arith)),
  )
  | inr high ↦ ground (
    arith,
    test_bit-get (apply_op op old (under_mask mask value old)) p w i,
    test_bit-get old p w i,
  )
]

-- No bit outside `outer` is set by a write under a mask within `outer`.
pub apply_op-Within :
    (op : CsrOp) (outer mask value old : ℕ)
    → outer < 2 ^ 64
    → Within outer mask
    → Within outer old
    → Within outer (apply_op op old (under_mask mask value old))
apply_op-Within op outer mask value old small inside h = bits_ext _ _ λ i.
    let m : mask < 2 ^ 64 = rw (← inside) (bit_and-lt 64 mask outer small) in
    let o : test_bit old i ≡ (test_bit old i && test_bit outer i) =
      ap (λ (t : ℕ). test_bit t i) (sym h) ∙ test_bit-and old outer i in
    let n : test_bit mask i ≡ (test_bit mask i && test_bit outer i) =
      ap (λ (t : ℕ). test_bit t i) (sym inside) ∙ test_bit-and mask outer i in
    ground (
      arith,
      test_bit-and (apply_op op old (under_mask mask value old)) outer i,
      test_bit-apply_op op mask value old i m (low_or_clear small o),
      o,
      n,
    )
  where
    low_or_clear :
        {i : ℕ}
        → outer < 2 ^ 64
        → test_bit old i ≡ (test_bit old i && test_bit outer i)
        → (i < 64) ⊎ (test_bit old i ≡ false)
    low_or_clear {i} small o = ground (arith, o, test_bit-high 64 outer i small)

bit_and_assoc : (a b c : ℕ) → bit_and (bit_and a b) c ≡ bit_and a (bit_and b c)
bit_and_assoc a b c = bits_ext _ _ λ i. ground (
  arith,
  test_bit-and (bit_and a b) c i,
  test_bit-and a b i,
  test_bit-and a (bit_and b c) i,
  test_bit-and b c i,
)

-- sie and sip write under the bits that mideleg hands to S-mode.
pub write_parts-sie :
    (c : Csr) (value old : ℕ)
    → write_parts csr_sie c value old
      ≡ under_mask (bit_and sie_write_mask c.csr_reg.mideleg) value old
unfolding write_parts
write_parts-sie c value old = ground (arith, bit_and_assoc value sie_write_mask c.csr_reg.mideleg)

pub write_parts-sip :
    (c : Csr) (value old : ℕ)
    → write_parts csr_sip c value old
      ≡ under_mask (bit_and sip_write_mask c.csr_reg.mideleg) value old
unfolding write_parts
write_parts-sip c value old = ground (arith, bit_and_assoc value sip_write_mask c.csr_reg.mideleg)
