-- ===== src/Csr/Delegation.antt =====
-- Which mode handles a trap, what trap entry and return leave in the registers, and which
-- interrupts are taken: `trap_enter`, the returns and `interrupt_pending_and_enabled` of
-- emulator/src/cpu/csr.c.
use tiny_linux_rv.Prelude.{
  ℕ, zero, suc, ◌^◌, ◌<◌, ◌≤◌, ◌+◌, ◌-◌, ◌≡◌, ◌≢◌, ◌⊎◌, inl, inr, refl, Bool, true, false, arith,
  bit_and, ◌==◌, ◌&&◌, ltb, if◌then◌else◌, nonzero, Bool-cases,
}
use tiny_linux_rv.Bits.{test_bit, test_bit-zero, test_bit-and, bits_ext}
use tiny_linux_rv.Word.{◌<<<◌, test_bit-shl64}
use tiny_linux_rv.Csr.Field.{
  csr_field_get, csr_field_set, get-set_self, get-set_ne, get-lt, get-aligned, get-eq-mod,
}
use tiny_linux_rv.Csr.Masks.{mie_pos, mpie_pos, mpp_pos, mprv_pos, sie_pos, spie_pos, spp_pos}
use tiny_linux_rv.Csr.Defs.{Csr, priv_u, priv_s, priv_m}
use tiny_linux_rv.Csr.Trap.{
  trap_target, push_s, trap_enter, pop_m, trap_exit_mret, pop_s, trap_exit_sret,
}
use tiny_linux_rv.Csr.Return.{push_m-mpp}
use tiny_linux_rv.Csr.Legal.{IsLegal}

test_bit-one : (j : ℕ) → test_bit 1 j ≡ (j == 0)
unfolding test_bit
test_bit-one zero = refl
test_bit-one (suc j) = ground (arith, test_bit-zero j)

test_bit-single : (k i : ℕ) → k < 64 → test_bit (1 <<< k) i ≡ (i == k)
test_bit-single k i h = ground (arith, test_bit-shl64 1 k i, test_bit-one (i - k))

-- `x & (1 << k)` as a condition.
nonzero-single : (x k : ℕ) → k < 64 → nonzero (bit_and x (1 <<< k)) ≡ test_bit x k
nonzero-single x k h = elim (Bool-cases (test_bit x k)) [
  | inl set ↦ ground (arith, test_bit-and x (1 <<< k) k, test_bit-single k k h, test_bit-zero k)
  | inr clear ↦
      let none_set : bit_and x (1 <<< k) ≡ 0 =
        bits_ext _ _
          λ i. ground (arith, test_bit-and x (1 <<< k) i, test_bit-single k i h, test_bit-zero i) in
      ground (arith, none_set)
]

-- The cause of a trap, as the CPU builds it: bit 63 for an interrupt, and the code below it.
abbrev pub trap_cause : Bool → ℕ → ℕ
trap_cause interrupt code = if interrupt then 2 ^ 63 + code else code

-- A trap is handled in S-mode exactly if it comes from below M-mode and its bit is set in mideleg,
-- for an interrupt, or in medeleg, for an exception; in M-mode otherwise. Either way the mode does
-- not fall.
pub trap_enter_delegation :
    (c : Csr) (interrupt : Bool) (code tval pc priv : ℕ)
    → code < 64
    → (priv ≡ priv_u) ⊎ ((priv ≡ priv_s) ⊎ (priv ≡ priv_m))
    → ((trap_enter c (trap_cause interrupt code) tval pc priv).priv ≡ (
        if ltb priv priv_m
          && test_bit (if interrupt then c.csr_reg.mideleg else c.csr_reg.medeleg) code
        then priv_s
        else priv_m))
      × (priv ≤ (trap_enter c (trap_cause interrupt code) tval pc priv).priv)
unfolding trap_enter trap_target
trap_enter_delegation c true code tval pc priv h p =
    let flag : csr_field_get (2 ^ 63 + code) 63 1 ≡ 1 =
      omega (arith, get-eq-mod (2 ^ 63 + code) 63 1) in
    let low : csr_field_get (2 ^ 63 + code) 0 63 ≡ code =
      omega (arith, get-eq-mod (2 ^ 63 + code) 0 63) in
    rw (flag, low) (ground (arith, nonzero-single c.csr_reg.mideleg code h))
trap_enter_delegation c false code tval pc priv h p =
    let flag : csr_field_get code 63 1 ≡ 0 = omega (arith, get-eq-mod code 63 1) in
    let low : csr_field_get code 0 63 ≡ code = omega (arith, get-eq-mod code 0 63) in
    rw (flag, low) (ground (arith, nonzero-single c.csr_reg.medeleg code h))

push_s-mpp : (s priv : ℕ) → csr_field_get (push_s s priv) mpp_pos 2 ≡ csr_field_get s mpp_pos 2
unfolding push_s
push_s-mpp s priv =
    let v = csr_field_get s sie_pos 1 in
    let a = csr_field_set s spie_pos 1 v in
    let b = csr_field_set a sie_pos 1 0 in
    ground (
      arith,
      get-set_ne b spp_pos 1 priv mpp_pos 2,
      get-set_ne a sie_pos 1 0 mpp_pos 2,
      get-set_ne s spie_pos 1 v mpp_pos 2,
    )

pop_m-mpp : (s priv : ℕ) → csr_field_get (pop_m s priv) mpp_pos 2 ≡ 0
unfolding pop_m
pop_m-mpp s priv =
    let v = csr_field_get s mpie_pos 1 in
    let b = csr_field_set (csr_field_set s mie_pos 1 v) mpie_pos 1 1 in
    let d = csr_field_set b mpp_pos 2 priv_u in
    ground (arith, get-set_ne d mprv_pos 1 0 mpp_pos 2, get-set_self b mpp_pos 2 priv_u)

pop_s-mpp : (s priv : ℕ) → csr_field_get (pop_s s priv) mpp_pos 2 ≡ csr_field_get s mpp_pos 2
unfolding pop_s
pop_s-mpp s priv =
    let v = csr_field_get s spie_pos 1 in
    let a = csr_field_set s sie_pos 1 v in
    let b = csr_field_set a spie_pos 1 1 in
    let d = csr_field_set b spp_pos 1 priv_u in
    ground (
      arith,
      get-set_ne d mprv_pos 1 0 mpp_pos 2,
      get-set_ne b spp_pos 1 priv_u mpp_pos 2,
      get-set_ne a spie_pos 1 1 mpp_pos 2,
      get-set_ne s sie_pos 1 v mpp_pos 2,
    )

pub trap_enter-IsLegal :
    (c : Csr) (cause tval pc priv : ℕ)
    → (priv ≡ priv_u) ⊎ ((priv ≡ priv_s) ⊎ (priv ≡ priv_m))
    → IsLegal c.csr_reg
    → IsLegal (trap_enter c cause tval pc priv).csr.csr_reg
unfolding trap_enter
trap_enter-IsLegal c cause tval pc priv p l =
    ground
      (arith, push_s-mpp c.csr_reg.mstatus priv, push_m-mpp c.csr_reg.mstatus priv, get-aligned pc)

-- The two returns keep the registers legal, and go to a mode of the architecture.
pub trap_exit-IsLegal :
    (c : Csr)
    → IsLegal c.csr_reg
    → IsLegal (trap_exit_mret c).csr.csr_reg
      × IsLegal (trap_exit_sret c).csr.csr_reg
      × ((trap_exit_mret c).priv ≢ 2)
      × ((trap_exit_mret c).priv ≤ priv_m)
      × ((trap_exit_sret c).priv ≤ priv_s)
unfolding trap_exit_mret trap_exit_sret
trap_exit-IsLegal c l =
    let s = c.csr_reg.mstatus in
    let m : csr_field_get (pop_m s (csr_field_get s mpp_pos 2)) mpp_pos 2 ≡ 0 = pop_m-mpp s _ in
    let k : csr_field_get (pop_s s (csr_field_get s spp_pos 1)) mpp_pos 2
        ≡ csr_field_get s mpp_pos 2 =
      pop_s-mpp s _ in
    (
      ground arith,
      ground arith,
      l.mpp,
      ground (arith, get-lt s mpp_pos 2),
      ground (arith, get-lt s spp_pos 1),
    )

pub trap_enter-mode :
    (c : Csr) (cause tval pc priv : ℕ)
    → ((trap_enter c cause tval pc priv).priv ≡ priv_s)
      ⊎ ((trap_enter c cause tval pc priv).priv ≡ priv_m)
unfolding trap_enter
trap_enter-mode c cause tval pc priv = ground arith
