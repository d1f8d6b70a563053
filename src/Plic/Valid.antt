-- ===== src/Plic/Valid.antt =====
-- Source 0 of the PLIC stays silent: the invariant of the state, kept by every function of
-- emulator/src/device/plic.c, and the sources that a scan considers, bit by bit.
use native.Mathlib.Nat.{pow-le-pow_right}
use tiny_linux_rv.Prelude.{
  ℕ, zero, suc, ◌/◌, ◌%◌, ◌^◌, ◌<◌, ◌≤◌, ◌≡◌, inl, inr, refl, bit_and, bit_or, Bool, true, false,
  not, ◌&&◌, ◌||◌, ◌==◌, if◌then◌else◌, arith, Bool-cases,
}
use tiny_linux_rv.Bits.{
  test_bit, test_bit-and, test_bit-or, test_bit-zero, test_bit-two_pow, nonzero-two_pow,
}
use tiny_linux_rv.Word.{u32, test_bit-and_not32}
use tiny_linux_rv.Plic.Defs.{
  Plic, Kind, r_priority, r_pending, r_enable, r_threshold, r_claim, r_invalid, RegInfo,
  addr_decode, max_interrupt, plic_gateway_irq, plic_claim, plic_complete, enabled_pending,
  restore_source_zero, plic_write, plic_read, write_kind, read_kind, irq_update_scan,
  plic_irq_update, plic_reset, get_claim_id,
}

pub record IsValid (p : Plic) : Type 0 where
  pub no_priority : p.regs.priority 0 ≡ 0
  pub not_pending : test_bit (p.regs.pending 0) 0 ≡ false
  pub not_enabled : (k : ℕ) → k < 2 → test_bit (p.regs.enable k 0) 0 ≡ false
  pub not_busy : p.gw_busy 0 ≡ false

-- A source below 11 that is pending and enabled in the context.
abbrev pub is_candidate : Plic → ℕ → ℕ → Bool
is_candidate p context i = test_bit (p.regs.pending 0) i && test_bit (p.regs.enable context 0) i

pub enabled_pending-is_candidate :
    (p : Plic) (context i : ℕ)
    → i < max_interrupt
    → enabled_pending p context i ≡ is_candidate p context i
unfolding enabled_pending
enabled_pending-is_candidate p context i h =
    let word : i / 32 ≡ 0 = omega arith in
    let bit : i % 32 ≡ i = omega arith in
    rw (word, bit)
      (ground (
        arith,
        nonzero-two_pow (bit_and (p.regs.pending 0) (p.regs.enable context 0)) i,
        test_bit-and (p.regs.pending 0) (p.regs.enable context 0) i,
      ))

-- The pending bits and the busy gateways after each function.
module _ (p : Plic) (id : ℕ) (irq : Bool) where
  pub gateway_pending :
      (i : ℕ)
      → id < max_interrupt
      → i < 32
      → test_bit ((plic_gateway_irq p id irq).regs.pending 0) i ≡ (
          not (i == 0)
          && (test_bit (p.regs.pending 0) i || (irq && (not (p.gw_busy id) && i == id))))
  unfolding plic_gateway_irq
  gateway_pending i h h' =
      let word : id / 32 ≡ 0 = omega arith in
      let bit : id % 32 ≡ id = omega arith in
      elim (Bool-cases (irq && not (p.gw_busy id))) [
        | inl on ↦ ground (
          arith,
          test_bit-and_not32 (bit_or (p.regs.pending 0) (2 ^ id)) 1 i,
          test_bit-or (p.regs.pending 0) (2 ^ id) i,
          test_bit-two_pow id i,
          test_bit-two_pow 0 i,
        )
        | inr off ↦ ground (arith, test_bit-and_not32 (p.regs.pending 0) 1 i, test_bit-two_pow 0 i)
      ]

  pub gateway_busy :
      (i : ℕ)
      → (plic_gateway_irq p id irq).gw_busy i ≡ (not (i == 0) && (p.gw_busy i || (irq && i == id)))
  unfolding plic_gateway_irq
  gateway_busy i = ground arith

  pub gateway_regs :
      ((plic_gateway_irq p id irq).regs.priority ≡ p.regs.priority)
      × ((plic_gateway_irq p id irq).regs.enable ≡ p.regs.enable)
      × ((plic_gateway_irq p id irq).regs.threshold ≡ p.regs.threshold)
      × ((plic_gateway_irq p id irq).base ≡ p.base)
  unfolding plic_gateway_irq
  gateway_regs = ground arith

pub claim_pending :
    (p : Plic) (id i : ℕ)
    → id < max_interrupt
    → i < 32
    → test_bit ((plic_claim p id).regs.pending 0) i
      ≡ (test_bit (p.regs.pending 0) i && not (i == id))
unfolding plic_claim
claim_pending p id i h h' =
    let word : id / 32 ≡ 0 = omega arith in
    let bit : id % 32 ≡ id = omega arith in
    let small : 2 ^ id ≤ 2 ^ 10 = pow-le-pow_right (omega arith) {i = id} {j = 10} (omega arith) in
    ground
      (arith, word, bit, test_bit-and_not32 (p.regs.pending 0) (2 ^ id) i, test_bit-two_pow id i)

pub claim_regs :
    (p : Plic) (id : ℕ)
    → ((plic_claim p id).regs.priority ≡ p.regs.priority)
      × ((plic_claim p id).regs.enable ≡ p.regs.enable)
      × ((plic_claim p id).regs.threshold ≡ p.regs.threshold)
      × ((plic_claim p id).gw_busy ≡ p.gw_busy)
      × ((plic_claim p id).base ≡ p.base)
unfolding plic_claim
claim_regs p id = ground arith

gateway-IsValid :
    (p : Plic) (id : ℕ) (irq : Bool)
    → id < max_interrupt
    → IsValid p
    → IsValid (plic_gateway_irq p id irq)
gateway-IsValid p id irq h v =
    let (same_priority, same_enable, same_threshold, same_base) = gateway_regs p id irq in
    record {
      no_priority = ground arith;
      not_pending = ground (arith, gateway_pending p id irq 0);
      not_enabled = λ k hk. rw same_enable (v.not_enabled k hk);
      not_busy = ground (arith, gateway_busy p id irq 0);
    }

irq_update_scan-IsValid :
    (p : Plic) (irq : ℕ → Bool) (n : ℕ)
    → n ≤ max_interrupt
    → IsValid p
    → IsValid (irq_update_scan p irq n)
unfolding irq_update_scan
irq_update_scan-IsValid p irq zero h v = v
irq_update_scan-IsValid p irq (suc n) h v =
    gateway-IsValid (irq_update_scan p irq n) n (irq n) (omega arith)
      (irq_update_scan-IsValid p irq n (omega arith) v)

claim-IsValid : (p : Plic) (id : ℕ) → IsValid p → IsValid (plic_claim p id)
unfolding plic_claim
claim-IsValid p id v = record {
  no_priority = ground (arith, v.no_priority);
  not_pending = ground (
    arith,
    v.not_pending,
    test_bit-and_not32 (p.regs.pending 0) (2 ^ (id % 32)) 0,
    claim_pending p id 0,
  );
  not_enabled = λ k hk. ground (arith, v.not_enabled k hk);
  not_busy = ground (arith, v.not_busy);
}

-- After `restore_source_zero`, whatever was written, source 0 has no priority and is not enabled.
restore-IsValid :
    (p : Plic)
    → test_bit (p.regs.pending 0) 0 ≡ false
    → p.gw_busy 0 ≡ false
    → IsValid (restore_source_zero p)
unfolding restore_source_zero
restore-IsValid p h b = record {
  no_priority = refl;
  not_pending = h;
  not_enabled = λ k hk. ground (
    arith,
    test_bit-and_not32 (p.regs.enable 0 0) 1 0,
    test_bit-and_not32 (p.regs.enable 1 0) 1 0,
    test_bit-two_pow 0 0,
  );
  not_busy = b;
}

complete-silent :
    (p : Plic) (id context : ℕ)
    → ((plic_complete p id context).regs ≡ p.regs)
      × (p.gw_busy 0 ≡ false → (plic_complete p id context).gw_busy 0 ≡ false)
unfolding plic_complete
complete-silent p id context = (ground arith, λ b. ground arith)

finish_write : Plic × Bool → Plic × Bool
finish_write (p', valid) = if valid then (restore_source_zero p', true) else (p', false)

write_kind-IsValid :
    (k : Kind) (p : Plic) (info : RegInfo) (value : ℕ)
    → IsValid p
    → IsValid (finish_write (write_kind k p info value)).0
unfolding write_kind finish_write
write_kind-IsValid r_priority p info value v = restore-IsValid _ v.not_pending v.not_busy
write_kind-IsValid r_pending p info value v = restore-IsValid _ v.not_pending v.not_busy
write_kind-IsValid r_enable p info value v = restore-IsValid _ v.not_pending v.not_busy
write_kind-IsValid r_threshold p info value v = restore-IsValid _ v.not_pending v.not_busy
write_kind-IsValid r_claim p info value v =
    let (same, free) = complete-silent p value info.context in
    restore-IsValid _ (rw same v.not_pending) (free v.not_busy)
write_kind-IsValid r_invalid p info value v = v

read_kind-IsValid :
    (k : Kind) (p : Plic) (info : RegInfo) → IsValid p → IsValid (read_kind k p info).0
unfolding read_kind
read_kind-IsValid r_claim p info v = claim-IsValid p (get_claim_id p info.context) v
read_kind-IsValid _ p info v = v

-- Every function of the controller, on any address, size, value and interrupt lines, a refused access
-- included, keeps source 0 without priority, never pending, enabled in no context and not busy; the
-- reset establishes it.
pub plic-IsValid :
    (p : Plic) (addr size value : ℕ) (irq : ℕ → Bool)
    → IsValid (plic_reset p)
      × (IsValid p
          → IsValid (plic_write p addr size value).0
            × IsValid (plic_read p addr size).0
            × IsValid (plic_irq_update p irq))
plic-IsValid p addr size value irq =
    (reset_valid, λ v. (write_valid v, read_valid v, update_valid v))
  where
    reset_valid : IsValid (plic_reset p)
    reset_valid =
        unfold plic_reset in
        record {
          no_priority = refl;
          not_pending = test_bit-zero 0;
          not_enabled = λ k hk. test_bit-zero 0;
          not_busy = refl;
        }

    write_valid : IsValid p → IsValid (plic_write p addr size value).0
    write_valid v =
        unfold plic_write finish_write in
        write_kind-IsValid (addr_decode p addr size).kind p (addr_decode p addr size) (u32 value) v

    read_valid : IsValid p → IsValid (plic_read p addr size).0
    read_valid v =
        unfold plic_read in
        read_kind-IsValid (addr_decode p addr size).kind p (addr_decode p addr size) v

    update_valid : IsValid p → IsValid (plic_irq_update p irq)
    update_valid v =
        unfold plic_irq_update in irq_update_scan-IsValid p irq max_interrupt (omega arith) v
