-- ===== src/Csr/Return.antt =====
-- Entering a trap and returning from it, of emulator/src/cpu/csr.c: `mret` and `sret` undo
-- `trap_enter`, and both keep the registers legal.
use tiny_linux_rv.Prelude.{
  ℕ, ◌<◌, ◌+◌, ◌%◌, ◌≡◌, ◌≢◌, ◌⊎◌, ◌-◌, true, false, ◌&&◌, ◌||◌, ◌!=◌, ltb, arith, bit_and, ◌==◌,
  if◌then◌else◌,
}
use tiny_linux_rv.Bits.{test_bit, test_bit-and, test_bit-zero, bits_ext}
use tiny_linux_rv.Csr.Field.{
  csr_field_get, csr_field_set, test_bit-get, test_bit-set, get-set_self, get-set_ne, get-lt,
  set_bit,
}
use tiny_linux_rv.Csr.Masks.{
  mie_pos, mpie_pos, mpp_pos, mprv_pos, sie_pos, spie_pos, spp_pos, trap_pc_align_mask,
}
use tiny_linux_rv.Csr.Defs.{Csr, priv_u, priv_s, priv_m}
use tiny_linux_rv.Csr.Trap.{
  trap_target, push_m, push_s, trap_enter, pop_m, trap_exit_mret, pop_s, trap_exit_sret,
}

aligned_twice :
    (v : ℕ)
    → bit_and (bit_and v trap_pc_align_mask) trap_pc_align_mask ≡ bit_and v trap_pc_align_mask
aligned_twice v = bits_ext _ _ λ i. ground (
  arith,
  test_bit-and (bit_and v trap_pc_align_mask) trap_pc_align_mask i,
  test_bit-and v trap_pc_align_mask i,
)

pub push_m-mpp : (s priv : ℕ) → csr_field_get (push_m s priv) mpp_pos 2 ≡ priv % 4
unfolding push_m
push_m-mpp s priv = get-set_self _ mpp_pos 2 priv (omega arith)

push_m-mpie : (s priv : ℕ) → csr_field_get (push_m s priv) mpie_pos 1 ≡ csr_field_get s mie_pos 1
unfolding push_m
push_m-mpie s priv =
    let v = csr_field_get s mie_pos 1 in
    let a = csr_field_set s mpie_pos 1 v in
    let b = csr_field_set a mie_pos 1 0 in
    ground (
      arith,
      get-set_ne b mpp_pos 2 priv mpie_pos 1,
      get-set_ne a mie_pos 1 0 mpie_pos 1,
      get-set_self s mpie_pos 1 v,
      get-lt s mie_pos 1,
    )

pub push_m-mie : (s priv : ℕ) → csr_field_get (push_m s priv) mie_pos 1 ≡ 0
unfolding push_m
push_m-mie s priv =
    let v = csr_field_get s mie_pos 1 in
    let a = csr_field_set s mpie_pos 1 v in
    let b = csr_field_set a mie_pos 1 0 in
    ground (arith, get-set_ne b mpp_pos 2 priv mie_pos 1, get-set_self a mie_pos 1 0)

push_m_bits :
    (s priv i : ℕ)
    → i < 64
    → (i ≢ mie_pos) × (i ≢ mpie_pos) × (i ≢ mpp_pos) × (i ≢ mpp_pos + 1)
    → test_bit (push_m s priv) i ≡ test_bit s i
unfolding push_m
push_m_bits s priv i h ne =
    let v = csr_field_get s mie_pos 1 in
    let a = csr_field_set s mpie_pos 1 v in
    let b = csr_field_set a mie_pos 1 0 in
    ground (
      arith,
      test_bit-set b mpp_pos 2 priv i,
      test_bit-set a mie_pos 1 0 i,
      test_bit-set s mpie_pos 1 v i,
    )

push_s-spp : (s priv : ℕ) → csr_field_get (push_s s priv) spp_pos 1 ≡ priv % 2
unfolding push_s
push_s-spp s priv = get-set_self _ spp_pos 1 priv (omega arith)

push_s-spie : (s priv : ℕ) → csr_field_get (push_s s priv) spie_pos 1 ≡ csr_field_get s sie_pos 1
unfolding push_s
push_s-spie s priv =
    let v = csr_field_get s sie_pos 1 in
    let a = csr_field_set s spie_pos 1 v in
    let b = csr_field_set a sie_pos 1 0 in
    ground (
      arith,
      get-set_ne b spp_pos 1 priv spie_pos 1,
      get-set_ne a sie_pos 1 0 spie_pos 1,
      get-set_self s spie_pos 1 v,
      get-lt s sie_pos 1,
    )

pub push_s-sie : (s priv : ℕ) → csr_field_get (push_s s priv) sie_pos 1 ≡ 0
unfolding push_s
push_s-sie s priv =
    let v = csr_field_get s sie_pos 1 in
    let a = csr_field_set s spie_pos 1 v in
    let b = csr_field_set a sie_pos 1 0 in
    ground (arith, get-set_ne b spp_pos 1 priv sie_pos 1, get-set_self a sie_pos 1 0)

push_s_bits :
    (s priv i : ℕ)
    → i < 64
    → (i ≢ sie_pos) × (i ≢ spie_pos) × (i ≢ spp_pos)
    → test_bit (push_s s priv) i ≡ test_bit s i
unfolding push_s
push_s_bits s priv i h ne =
    let v = csr_field_get s sie_pos 1 in
    let a = csr_field_set s spie_pos 1 v in
    let b = csr_field_set a sie_pos 1 0 in
    ground (
      arith,
      test_bit-set b spp_pos 1 priv i,
      test_bit-set a sie_pos 1 0 i,
      test_bit-set s spie_pos 1 v i,
    )

pop_m_bits :
    (s priv i : ℕ)
    → i < 64
    → test_bit (pop_m s priv) i ≡ (
        if i == mpie_pos
        then true
        else if i == mpp_pos || i == mpp_pos + 1
        then false
        else if i == mprv_pos && ltb priv priv_m
        then false
        else if i == mie_pos
        then test_bit s mpie_pos
        else test_bit s i)
unfolding pop_m
pop_m_bits s priv i h =
    let v = csr_field_get s mpie_pos 1 in
    let a = csr_field_set s mie_pos 1 v in
    let b = csr_field_set a mpie_pos 1 1 in
    let d = csr_field_set b mpp_pos 2 priv_u in
    ground (
      arith,
      set_bit d mprv_pos false i (omega arith) h,
      test_bit-set b mpp_pos 2 priv_u i,
      test_bit-zero (i - mpp_pos),
      set_bit a mpie_pos true i (omega arith) h,
      test_bit-set s mie_pos 1 v i,
      test_bit-get s mpie_pos 1 (i - mie_pos),
    )

pop_s_bits :
    (s priv i : ℕ)
    → i < 64
    → test_bit (pop_s s priv) i ≡ (
        if i == spie_pos
        then true
        else if i == spp_pos
        then false
        else if i == mprv_pos && ltb priv priv_m
        then false
        else if i == sie_pos
        then test_bit s spie_pos
        else test_bit s i)
unfolding pop_s
pop_s_bits s priv i h =
    let v = csr_field_get s spie_pos 1 in
    let a = csr_field_set s sie_pos 1 v in
    let b = csr_field_set a spie_pos 1 1 in
    let d = csr_field_set b spp_pos 1 priv_u in
    ground (
      arith,
      set_bit d mprv_pos false i (omega arith) h,
      set_bit b spp_pos false i (omega arith) h,
      set_bit a spie_pos true i (omega arith) h,
      test_bit-set s sie_pos 1 v i,
      test_bit-get s spie_pos 1 (i - sie_pos),
    )

-- A trap that M-mode handles, in a mode of the architecture, and the `mret` after it: the mode and
-- the (aligned) address that were left come back. In mstatus MPIE is set, MPP is cleared, MPRV is cleared
-- unless the mode left was M, and every other bit is as before the trap.
pub mret-trap_enter :
    (c : Csr) (cause tval pc priv : ℕ)
    → (priv ≡ priv_u) ⊎ ((priv ≡ priv_s) ⊎ (priv ≡ priv_m))
    → (trap_enter c cause tval pc priv).priv ≡ priv_m
    → ((trap_exit_mret (trap_enter c cause tval pc priv).csr).priv ≡ priv)
      × ((trap_exit_mret (trap_enter c cause tval pc priv).csr).next_pc
          ≡ bit_and pc trap_pc_align_mask)
      × ((i : ℕ)
          → i < 64
          → test_bit (trap_exit_mret (trap_enter c cause tval pc priv).csr).csr.csr_reg.mstatus i
            ≡ (if i == mpie_pos
                then true
                else if i == mpp_pos || i == mpp_pos + 1
                then false
                else if i == mprv_pos && priv != priv_m
                then false
                else test_bit c.csr_reg.mstatus i))
unfolding trap_enter trap_exit_mret
mret-trap_enter c cause tval pc priv p target =
    let s = c.csr_reg.mstatus in
    let top = csr_field_get (push_m s priv) mpp_pos 2 in
    let same : top ≡ priv = ground (arith, push_m-mpp s priv) in
    (
      ground (arith, push_m-mpp s priv),
      ground (arith, aligned_twice pc),
      λ i h. ground (
        arith,
        pop_m_bits (push_m s priv) top i h,
        push_m_bits s priv i h,
        push_m-mpie s priv,
        test_bit-get (push_m s priv) mpie_pos 1 0,
        test_bit-get s mie_pos 1 0,
      ),
    )

-- A trap that S-mode handles, from a mode of the architecture, and the `sret` after it: the mode and
-- the (aligned) address that were left come back. In mstatus SPIE is set, SPP and MPRV are cleared, and every
-- other bit is as before the trap.
pub sret-trap_enter :
    (c : Csr) (cause tval pc priv : ℕ)
    → (priv ≡ priv_u) ⊎ ((priv ≡ priv_s) ⊎ (priv ≡ priv_m))
    → (trap_enter c cause tval pc priv).priv ≡ priv_s
    → ((trap_exit_sret (trap_enter c cause tval pc priv).csr).priv ≡ priv)
      × ((trap_exit_sret (trap_enter c cause tval pc priv).csr).next_pc
          ≡ bit_and pc trap_pc_align_mask)
      × ((i : ℕ)
          → i < 64
          → test_bit (trap_exit_sret (trap_enter c cause tval pc priv).csr).csr.csr_reg.mstatus i
            ≡ (if i == spie_pos
                then true
                else if i == spp_pos || i == mprv_pos
                then false
                else test_bit c.csr_reg.mstatus i))
unfolding trap_enter trap_exit_sret trap_target
sret-trap_enter c cause tval pc priv p target =
    let s = c.csr_reg.mstatus in
    let top = csr_field_get (push_s s priv) spp_pos 1 in
    (
      ground (arith, push_s-spp s priv),
      ground (arith, aligned_twice pc),
      λ i h. ground (
        arith,
        pop_s_bits (push_s s priv) top i h,
        push_s-spp s priv,
        push_s_bits s priv i h,
        push_s-spie s priv,
        test_bit-get (push_s s priv) spie_pos 1 0,
        test_bit-get s sie_pos 1 0,
      ),
    )
