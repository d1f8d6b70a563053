-- ===== src/Csr/Tests.antt =====
-- Runs of the CSR functions on concrete states, and the theorems about them at such states.
use tiny_linux_rv.Prelude.{
  ℕ, ◌^◌, ◌<◌, ◌≤◌, ◌+◌, ◌-◌, ◌≡◌, ◌≢◌, inl, inr, refl, true, false, none, some, arith, bit_and,
  if◌then◌else◌, ◌==◌, ◌&&◌, ◌||◌,
}
use tiny_linux_rv.Bits.{test_bit}
use tiny_linux_rv.Csr.Field.{csr_field_get}
use tiny_linux_rv.Csr.Masks.{trap_pc_align_mask, mpie_pos, mpp_pos, mprv_pos, spie_pos, spp_pos}
use tiny_linux_rv.Csr.Defs.{
  Csr, csr_op_rw, csr_op_rs, csr_op_rc, csr_sie, csr_mscratch, ptr_satp, ptr_mie, csr_ptr, get_reg,
  set_reg, decode_addr, read_only, priv_u, priv_s, priv_m,
}
use tiny_linux_rv.Csr.Access.{
  denied, granted, csr_init, shadow_time, csr_access, access_reg, read_phase, read_value,
  write_phase, write_reg, written_value, write_parts, apply_op, post_write, mark_written,
  imp_read_only,
}
use tiny_linux_rv.Csr.Trap.{trap_enter, trap_target, trap_exit_mret, trap_exit_sret}
use tiny_linux_rv.Csr.Interrupt.{
  interrupt_pending_and_enabled, interrupt_order, csr_begin_update, csr_end_update,
}
use tiny_linux_rv.Csr.Legal.{IsLegal}
use tiny_linux_rv.Csr.Guards.{csr_access_denied_unchanged, csr_access_protected, csr_access_frame}
use tiny_linux_rv.Csr.Warl.{state_after}
use tiny_linux_rv.Csr.Bitwise.{Written, writable_bits, csr_access_writes_bits}
use tiny_linux_rv.Csr.Return.{mret-trap_enter, sret-trap_enter}
use tiny_linux_rv.Csr.Delegation.{trap_cause, trap_enter_delegation}
use tiny_linux_rv.Csr.Masking.{
  FiresFirst, NoneFires, interrupt_pending_and_enabled_first, trap_enter_masks_interrupts,
  csr_begin_update_mip,
}
use tiny_linux_rv.Csr.Counters.{csr_end_update_counters}
use tiny_linux_rv.Csr.Reach.{reset, access, enter, IsMode, CsrRun-IsLegal}

abbrev all_ones : ℕ
all_ones = 2 ^ 64 - 1

abbrev delegating : Csr
delegating = record csr_init {
  csr_reg = record ((csr_init).csr_reg) {
    medeleg = 0x100;
    mideleg = 0x222;
    mie = 0xaaa;
    mstatus = 0xa00000002;
  };
}

abbrev after_mscratch : Csr
after_mscratch = state_after (csr_access csr_init 0x340 csr_op_rw 7 true true 5 priv_m)

mscratch_written :
    csr_access csr_init 0x340 csr_op_rw 7 true true 5 priv_m ≡ granted (some 0) after_mscratch
unfolding csr_init csr_access csr_field_get decode_addr access_reg read_phase read_value csr_ptr
    get_reg read_only
mscratch_written = refl

mscratch_after : get_reg (csr_ptr csr_mscratch) after_mscratch.csr_reg ≡ 7
unfolding csr_init csr_access csr_field_get decode_addr access_reg read_phase read_value csr_ptr
    get_reg read_only write_phase imp_read_only write_reg written_value write_parts apply_op
    post_write set_reg mark_written
mscratch_after = refl

csr_access_protected_example :
    (csr_field_get 0x340 8 2 ≤ priv_m) × (true ≡ true → csr_field_get 0x340 10 2 ≢ 3)
csr_access_protected_example =
    csr_access_protected csr_init after_mscratch 0x340 csr_op_rw 7 true true 5 priv_m (some 0)
      mscratch_written (inr (inr refl))

csr_access_frame_example :
    get_reg ptr_satp after_mscratch.csr_reg ≡ get_reg ptr_satp (shadow_time csr_init 5).csr_reg
unfolding decode_addr csr_ptr
csr_access_frame_example =
    csr_access_frame csr_init after_mscratch 0x340 csr_op_rw 7 true true 5 priv_m (some 0)
      csr_mscratch ptr_satp mscratch_written refl (λ e. cc)

-- S-mode may not touch mscratch.
refused : csr_access csr_init 0x340 csr_op_rw 7 true true 5 priv_s ≡ denied (shadow_time csr_init 5)
unfolding csr_access csr_field_get
refused = refl

csr_access_denied_unchanged_example : shadow_time csr_init 5 ≡ shadow_time csr_init 5
csr_access_denied_unchanged_example =
    csr_access_denied_unchanged csr_init (shadow_time csr_init 5) 0x340 csr_op_rw 7 true true 5
      priv_s refused

-- A read of mscratch.
abbrev after_read : Csr
after_read = state_after (csr_access csr_init 0x340 csr_op_rs 7 true false 5 priv_m)

mscratch_read :
    csr_access csr_init 0x340 csr_op_rs 7 true false 5 priv_m ≡ granted (some 0) after_read
unfolding csr_init csr_access csr_field_get decode_addr access_reg read_phase read_value csr_ptr
    get_reg read_only
mscratch_read = refl

abbrev after_sie : Csr
after_sie = state_after (csr_access delegating 0x104 csr_op_rc all_ones true true 5 priv_s)

sie_cleared :
    csr_access delegating 0x104 csr_op_rc all_ones true true 5 priv_s
    ≡ granted (some 0x222) after_sie
unfolding csr_init csr_access csr_field_get decode_addr access_reg read_phase read_value csr_ptr
    get_reg read_only
sie_cleared = refl

-- Clearing all of sie clears the delegated bits of mie and no other.
mie_after_sie : get_reg ptr_mie after_sie.csr_reg ≡ 0x888
unfolding csr_init csr_access csr_field_get decode_addr access_reg read_phase read_value csr_ptr
    get_reg read_only write_phase imp_read_only write_reg written_value write_parts apply_op
    post_write set_reg mark_written
mie_after_sie = refl

csr_access_writes_bits_example :
    Written 0x222 csr_op_rc all_ones
      (get_reg (csr_ptr csr_sie) delegating.csr_reg)
      (get_reg (csr_ptr csr_sie) after_sie.csr_reg)
unfolding decode_addr writable_bits
csr_access_writes_bits_example =
    csr_access_writes_bits delegating after_sie 0x104 csr_op_rc all_ones true 5 priv_s (some 0x222)
      csr_sie 0x222 (omega arith) refl refl sie_cleared

CsrRun-IsLegal_example :
    IsLegal
      (trap_enter
        (state_after (csr_access csr_init 0x341 csr_op_rw 7 true true 5 priv_m))
        11
        0
        8
        priv_m).csr.csr_reg
    × IsMode
        (trap_enter
          (state_after (csr_access csr_init 0x341 csr_op_rw 7 true true 5 priv_m))
          11
          0
          8
          priv_m).priv
CsrRun-IsLegal_example = CsrRun-IsLegal (enter (access reset 0x341 csr_op_rw 7 true true 5) 11 0 8)

trapped : (trap_enter delegating 2 0 0x80000002 priv_s).priv ≡ priv_m
unfolding trap_enter trap_target csr_field_get
trapped = refl

mret-trap_enter_example :
    ((trap_exit_mret (trap_enter delegating 2 0 0x80000002 priv_s).csr).priv ≡ priv_s)
    × ((trap_exit_mret (trap_enter delegating 2 0 0x80000002 priv_s).csr).next_pc
        ≡ bit_and 0x80000002 trap_pc_align_mask)
    × ((i : ℕ)
        → i < 64
        → test_bit
            (trap_exit_mret (trap_enter delegating 2 0 0x80000002 priv_s).csr).csr.csr_reg.mstatus
            i
          ≡ (if i == mpie_pos
              then true
              else if i == mpp_pos || i == mpp_pos + 1
              then false
              else if i == mprv_pos && true
              then false
              else test_bit delegating.csr_reg.mstatus i))
mret-trap_enter_example = mret-trap_enter delegating 2 0 0x80000002 priv_s (inr (inl refl)) trapped

delegated : (trap_enter delegating 8 0 0x1000 priv_u).priv ≡ priv_s
unfolding trap_enter trap_target csr_field_get
delegated = refl

sret-trap_enter_example :
    ((trap_exit_sret (trap_enter delegating 8 0 0x1000 priv_u).csr).priv ≡ priv_u)
    × ((trap_exit_sret (trap_enter delegating 8 0 0x1000 priv_u).csr).next_pc
        ≡ bit_and 0x1000 trap_pc_align_mask)
    × ((i : ℕ)
        → i < 64
        → test_bit
            (trap_exit_sret (trap_enter delegating 8 0 0x1000 priv_u).csr).csr.csr_reg.mstatus
            i
          ≡ (if i == spie_pos
              then true
              else if i == spp_pos || i == mprv_pos
              then false
              else test_bit delegating.csr_reg.mstatus i))
sret-trap_enter_example = sret-trap_enter delegating 8 0 0x1000 priv_u (inl refl) delegated

trap_enter_delegation_example :
    ((trap_enter delegating (trap_cause true 5) 0 0x1000 priv_u).priv ≡ priv_s)
    × (priv_u ≤ (trap_enter delegating (trap_cause true 5) 0 0x1000 priv_u).priv)
unfolding test_bit
trap_enter_delegation_example =
    trap_enter_delegation delegating true 5 0 0x1000 priv_u (omega arith) (inl refl)

interrupt_pending_and_enabled_first_example :
    ((i : ℕ)
      → interrupt_pending_and_enabled delegating priv_m ≡ some i
      → FiresFirst delegating priv_m i interrupt_order)
    × (interrupt_pending_and_enabled delegating priv_m ≡ none
        → NoneFires delegating priv_m interrupt_order)
    × (NoneFires delegating priv_m interrupt_order
        → interrupt_pending_and_enabled delegating priv_m ≡ none)
interrupt_pending_and_enabled_first_example = interrupt_pending_and_enabled_first delegating priv_m

trap_enter_masks_interrupts_example :
    ((trap_enter delegating 2 0 0 priv_s).priv ≡ priv_m
      → interrupt_pending_and_enabled (trap_enter delegating 2 0 0 priv_s).csr priv_m ≡ none)
    × ((i : ℕ)
        → (trap_enter delegating 2 0 0 priv_s).priv ≡ priv_s
        → interrupt_pending_and_enabled (trap_enter delegating 2 0 0 priv_s).csr priv_s ≡ some i
        → csr_field_get delegating.csr_reg.mideleg i 1 ≡ 0)
trap_enter_masks_interrupts_example = trap_enter_masks_interrupts delegating 2 0 0 priv_s

csr_begin_update_mip_example :
    test_bit (csr_begin_update delegating true false false true).csr_reg.mip 9 ≡ true
csr_begin_update_mip_example = csr_begin_update_mip delegating true false false true 9 (omega arith)

-- A write of mcycle in M-mode.
csr_end_update_counters_example :
    let o =
      csr_access
        (csr_begin_update delegating false false false false)
        0xb00
        csr_op_rw
        41
        true
        true
        5
        priv_m in
    let d = csr_end_update (state_after o) true in
    (d.csr_reg.mcycle ≡ 41) × (d.csr_reg.minstret ≡ 1)
unfolding test_bit csr_init csr_access csr_begin_update csr_field_get decode_addr access_reg
    read_phase read_value csr_ptr get_reg set_reg read_only write_phase imp_read_only write_reg
    mark_written written_value write_parts apply_op post_write
csr_end_update_counters_example =
    csr_end_update_counters delegating false false false false 0xb00 csr_op_rw 41 true true 5 priv_m
      true
