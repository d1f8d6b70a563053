-- ===== src/Csr/Counters.antt =====
-- The counters of cycles and of instructions around an instruction of emulator/src/cpu/csr.c:
-- `csr_begin_update`, an access to the CSRs, and `csr_end_update`.
use tiny_linux_rv.Prelude.{
  ℕ, ◌+◌, ◌≡◌, ◌≢◌, inl, inr, refl, Bool, true, false, arith, ◌==◌, ◌&&◌, ◌||◌, not, if◌then◌else◌,
  Bool-cases, Option, some, ap, ◌∙◌,
}
use tiny_linux_rv.Word.{u64}
use tiny_linux_rv.Bits.{test_bit}
use tiny_linux_rv.Csr.Masks.{counter_cy_pos, counter_ir_pos}
use tiny_linux_rv.Csr.Defs.{
  Csr, CsrOp, CsrAddr, csr_sstatus, csr_mcycle, csr_minstret, CsrPtr, ptr_mcycle, ptr_minstret,
  csr_ptr, get_reg, read_only, decode_addr, decode_addr_sound, csr_value,
}
use tiny_linux_rv.Csr.Access.{
  CsrOutcome, denied, granted, shadow_time, csr_access, write_phase, write_reg, mark_written,
  imp_read_only,
}
use tiny_linux_rv.Csr.Guards.{
  access_reg-granted, csr_access-granted, csr_access_denied_unchanged, csr_access_read_unchanged,
  csr_access_frame,
}
use tiny_linux_rv.Csr.Interrupt.{csr_begin_update, csr_end_update}
use tiny_linux_rv.Csr.Masking.{low_bit}
use tiny_linux_rv.Csr.Warl.{state_after}

-- The access returns 0.
abbrev pub is_granted : CsrOutcome → Bool
is_granted (denied c) = false
is_granted (granted rd c) = true

-- The flags after the write of a register, from cleared ones.
cycle_flag :
    (a : CsrAddr) (c : Csr) (op : CsrOp) (value : ℕ) (write_csr : Bool)
    → c.mcycle_written ≡ false
    → (write_phase a c op value write_csr).mcycle_written ≡ (write_csr && csr_value a == 0xb00)
unfolding write_phase write_reg mark_written imp_read_only csr_value
cycle_flag a c op value false e = e
cycle_flag csr_mcycle c op value true e = refl
cycle_flag _ c op value true e = e

instruction_flag :
    (a : CsrAddr) (c : Csr) (op : CsrOp) (value : ℕ) (write_csr : Bool)
    → c.minstret_written ≡ false
    → (write_phase a c op value write_csr).minstret_written ≡ (write_csr && csr_value a == 0xb02)
unfolding write_phase write_reg mark_written imp_read_only csr_value
instruction_flag a c op value false e = e
instruction_flag csr_minstret c op value true e = refl
instruction_flag _ c op value true e = e

starting_kept :
    (a : CsrAddr) (c : Csr) (op : CsrOp) (value : ℕ) (write_csr : Bool)
    → (write_phase a c op value write_csr).starting_mcountinhibit ≡ c.starting_mcountinhibit
unfolding write_phase write_reg mark_written imp_read_only
starting_kept a c op value false = refl
starting_kept csr_mcycle c op value true = refl
starting_kept _ c op value true = refl

-- The writable address of each counter is the only one that reaches its register.
not_mcycle :
    (a : CsrAddr) → read_only a ≡ false → (csr_value a == 0xb00) ≡ false → ptr_mcycle ≢ csr_ptr a
unfolding read_only csr_value csr_ptr
not_mcycle csr_sstatus r e = λ p. cc
not_mcycle _ r e = λ p. cc

not_minstret :
    (a : CsrAddr) → read_only a ≡ false → (csr_value a == 0xb02) ≡ false → ptr_minstret ≢ csr_ptr a
unfolding read_only csr_value csr_ptr
not_minstret csr_sstatus r e = λ p. cc
not_minstret _ r e = λ p. cc

-- What an access does to the flags and to the two counters: an access that writes one of them sets its flag, and
-- any other leaves that counter as it was.
record Counts (c : Csr) (addr : ℕ) (write_csr : Bool) (o : CsrOutcome) : Type 0 where
  starting : (state_after o).starting_mcountinhibit ≡ c.starting_mcountinhibit
  cycle_written : (state_after o).mcycle_written ≡ (is_granted o && (write_csr && addr == 0xb00))
  instruction_written :
      (state_after o).minstret_written ≡ (is_granted o && (write_csr && addr == 0xb02))
  cycle :
      (is_granted o && (write_csr && addr == 0xb00)) ≡ false
      → (state_after o).csr_reg.mcycle ≡ c.csr_reg.mcycle
  instruction :
      (is_granted o && (write_csr && addr == 0xb02)) ≡ false
      → (state_after o).csr_reg.minstret ≡ c.csr_reg.minstret

module _ (c : Csr) (addr : ℕ) (op : CsrOp) (value : ℕ) (read_csr write_csr : Bool) (time priv : ℕ)
    (cleared : (c.mcycle_written ≡ false) × (c.minstret_written ≡ false)) where
  -- A register that a granted access does not name.
  other_kept :
      (rd : Option ℕ) (c' : Csr) (a : CsrAddr) (p : CsrPtr)
      → csr_access c addr op value read_csr write_csr time priv ≡ granted rd c'
      → decode_addr addr ≡ some a
      → (write_csr ≡ true → p ≢ csr_ptr a)
      → get_reg p c'.csr_reg ≡ get_reg p (shadow_time c time).csr_reg
  other_kept rd c' a p e found ne = elim (Bool-cases write_csr) [
    | inl on ↦
        csr_access_frame c c' addr op value read_csr write_csr time priv rd a p e found (ne on)
    | inr off ↦
        ap (λ x. get_reg p x.csr_reg)
          (csr_access_read_unchanged c c' addr op value read_csr write_csr time priv rd e off)
  ]

  access-Counts :
      (o : CsrOutcome)
      → csr_access c addr op value read_csr write_csr time priv ≡ o
      → Counts c addr write_csr o
  unfolding get_reg
  access-Counts (denied c') e =
      let same = csr_access_denied_unchanged c c' addr op value read_csr write_csr time priv e in
      record {
        starting = ap (λ x. x.starting_mcountinhibit) same;
        cycle_written = ap (λ x. x.mcycle_written) same ∙ cleared.0;
        instruction_written = ap (λ x. x.minstret_written) same ∙ cleared.1;
        cycle = λ _. ap (λ x. x.csr_reg.mcycle) same;
        instruction = λ _. ap (λ x. x.csr_reg.minstret) same;
      }
  access-Counts (granted rd c') e =
      let b = shadow_time c time in
      let (a, found, g) = csr_access-granted c c' addr op value read_csr write_csr time priv rd e in
      let (_, after, writable) = access_reg-granted a b c' op value read_csr write_csr priv rd g in
      let named = decode_addr_sound addr a found in
      record {
        starting = ap (λ x. x.starting_mcountinhibit) after ∙ starting_kept a b op value write_csr;
        cycle_written =
            ap (λ x. x.mcycle_written) after
            ∙ cycle_flag a b op value write_csr cleared.0
            ∙ ap (λ n. write_csr && n == 0xb00) named;
        instruction_written =
            ap (λ x. x.minstret_written) after
            ∙ instruction_flag a b op value write_csr cleared.1
            ∙ ap (λ n. write_csr && n == 0xb02) named;
        cycle = λ off.
            other_kept rd c' a ptr_mcycle e found
              (λ on. not_mcycle a (ground arith) (rw named (ground arith)));
        instruction = λ off.
            other_kept rd c' a ptr_minstret e found
              (λ on. not_minstret a (ground arith) (rw named (ground arith)));
      }

-- Around an instruction that accesses the CSRs, in any way and in any mode: a counter that the access writes, at
-- address 0xb00 or 0xb02, keeps what the access left in it. Else the cycle counter goes up by one unless it is
-- inhibited before the instruction, and the counter of retired instructions does unless it is inhibited before
-- or the instruction does not retire. An access that is refused writes none.
pub csr_end_update_counters :
    (c : Csr) (meip msip mtip seip : Bool) (addr : ℕ) (op : CsrOp) (value : ℕ)
    (read_csr write_csr : Bool) (time priv : ℕ) (retired : Bool)
    → let o =
        csr_access
          (csr_begin_update c meip msip mtip seip)
          addr
          op
          value
          read_csr
          write_csr
          time
          priv in
      let d = csr_end_update (state_after o) retired in
      (d.csr_reg.mcycle ≡ (
        if is_granted o && (write_csr && addr == 0xb00)
        then (state_after o).csr_reg.mcycle
        else if test_bit c.csr_reg.mcountinhibit counter_cy_pos
        then c.csr_reg.mcycle
        else u64 (c.csr_reg.mcycle + 1)))
      × (d.csr_reg.minstret ≡ (
          if is_granted o && (write_csr && addr == 0xb02)
          then (state_after o).csr_reg.minstret
          else if test_bit c.csr_reg.mcountinhibit counter_ir_pos || not retired
          then c.csr_reg.minstret
          else u64 (c.csr_reg.minstret + 1)))
unfolding csr_begin_update csr_end_update
csr_end_update_counters c meip msip mtip seip addr op value read_csr write_csr time priv retired =
    let b = csr_begin_update c meip msip mtip seip in
    let o = csr_access b addr op value read_csr write_csr time priv in
    let k = access-Counts b addr op value read_csr write_csr time priv (refl, refl) o refl in
    ground (
      arith,
      k.starting,
      k.cycle_written,
      k.instruction_written,
      k.cycle,
      k.instruction,
      low_bit c.csr_reg.mcountinhibit counter_cy_pos,
      low_bit c.csr_reg.mcountinhibit counter_ir_pos,
    )
