-- ===== src/Plic/Service.antt =====
-- From the claim of an interrupt to its completion, in emulator/src/device/plic.c, the gateway of
-- the source lets no further interrupt through.
use tiny_linux_rv.Prelude.{
  ℕ, zero, suc, ◌<◌, ◌≤◌, ◌≡◌, ◌≢◌, ◌∙◌, inl, inr, refl, Bool, true, false, some, List, [], ◌∷◌,
  ◌==◌, if◌then◌else◌, arith, Bool-cases,
}
use tiny_linux_rv.Bits.{test_bit}
use tiny_linux_rv.Word.{u32}
use tiny_linux_rv.Plic.Defs.{
  Plic, Kind, r_claim, r_invalid, RegInfo, addr_decode, max_interrupt, plic_gateway_irq, plic_claim,
  plic_complete, restore_source_zero, claim_scan, get_claim_id, plic_read, plic_write, read_kind,
  write_kind, irq_update_scan, plic_irq_update,
}
use tiny_linux_rv.Plic.Valid.{
  IsValid, gateway_pending, gateway_busy, gateway_regs, claim_pending, claim_regs, plic-IsValid,
}
use tiny_linux_rv.Plic.Claim.{get_claim_id-IsBest}

claim_scan-le : (p : Plic) (context n : ℕ) → claim_scan p context n ≤ n
unfolding claim_scan
claim_scan-le p context zero = omega arith
claim_scan-le p context (suc n) = ground (arith, claim_scan-le p context n)

claim_scan-lt : (p : Plic) (context n : ℕ) → claim_scan p context (suc n) < suc n
unfolding claim_scan
claim_scan-lt p context n = ground (arith, claim_scan-le p context n)

pub get_claim_id-lt : (p : Plic) (context : ℕ) → get_claim_id p context < max_interrupt
unfolding get_claim_id
get_claim_id-lt p context = claim_scan-lt p context 10

-- What happens to the controller: the device loop raises and lowers lines, software reads and writes.
pub data PlicEvent : Type 0 where
  irq : (ℕ → Bool) → PlicEvent
  read : ℕ → ℕ → PlicEvent
  write : ℕ → ℕ → ℕ → PlicEvent

unfoldable pub plic_step : Plic → PlicEvent → Plic
plic_step p (irq lines) = plic_irq_update p lines
plic_step p (read addr size) = (plic_read p addr size).0
plic_step p (write addr size value) = (plic_write p addr size value).0

unfoldable pub plic_run : Plic → List PlicEvent → Plic
plic_run p [] = p
plic_run p (e ∷ es) = plic_run (plic_step p e) es

-- The event does not write `id` to a claim register, of a controller at the address of `p`.
abbrev pub Spares : Plic → ℕ → PlicEvent → Type 0
Spares p id (write addr size value) = (addr_decode p addr size).kind ≡ r_claim → u32 value ≢ id
Spares p id _ = Unit {0}

abbrev pub AllSpare : Plic → ℕ → List PlicEvent → Type 0
AllSpare p id [] = Unit {0}
AllSpare p id (e ∷ es) = Spares p id e × AllSpare p id es

-- Claimed and not completed.
pub record InService (p : Plic) (id : ℕ) : Type 0 where
  pub is_source : (0 < id) × (id < max_interrupt)
  pub taken : test_bit (p.regs.pending 0) id ≡ false
  pub busy : p.gw_busy id ≡ true

gateway-InService :
    (p : Plic) (id n : ℕ) (on : Bool)
    → n < max_interrupt
    → InService p id
    → InService (plic_gateway_irq p n on) id
gateway-InService p id n on h s = record {
  is_source = s.is_source;
  taken = elim (Bool-cases (id == n)) [
    | inl same ↦
        let e : id ≡ n = ground arith in
        let b : p.gw_busy n ≡ true = rw e at s.busy in ground (arith, gateway_pending p n on id)
    | inr other ↦ ground (arith, gateway_pending p n on id)
  ];
  busy = ground (arith, gateway_busy p n on id);
}

irq_update-InService :
    (p : Plic) (id : ℕ) (lines : ℕ → Bool) (n : ℕ)
    → n ≤ max_interrupt
    → InService p id
    → InService (irq_update_scan p lines n) id × ((irq_update_scan p lines n).base ≡ p.base)
unfolding irq_update_scan
irq_update-InService p id lines zero h s = (s, refl)
irq_update-InService p id lines (suc n) h s =
    let (s', same) = irq_update-InService p id lines n (omega arith) s in
    (
      gateway-InService (irq_update_scan p lines n) id n (lines n) (omega arith) s',
      ground (arith, gateway_regs (irq_update_scan p lines n) n (lines n)),
    )

claim-InService :
    (p : Plic) (m id : ℕ) → m < max_interrupt → InService p id → InService (plic_claim p m) id
claim-InService p m id h s =
    let (a, b, c, same, base) = claim_regs p m in
    record {
      is_source = s.is_source;
      taken = ground (arith, claim_pending p m id h);
      busy = rw same s.busy;
    }

read-InService :
    (k : Kind) (p : Plic) (info : RegInfo) (id : ℕ)
    → InService p id
    → InService (read_kind k p info).0 id × ((read_kind k p info).0.base ≡ p.base)
unfolding read_kind
read-InService r_claim p info id s =
    let m = get_claim_id p info.context in
    let (a, b, c, same, base) = claim_regs p m in
    (claim-InService p m id (get_claim_id-lt p info.context) s, base)
read-InService _ p info id s = (s, refl)

-- The end of `plic_write` leaves pending bits, gateways and the address alone.
complete-InService :
    (p : Plic) (value context id : ℕ)
    → value ≢ id
    → InService p id
    → InService (plic_complete p value context) id × ((plic_complete p value context).base ≡ p.base)
unfolding plic_complete
complete-InService p value context id ne s = (
  record {
    is_source = s.is_source;
    taken = ground (arith, s.taken);
    busy = ground (arith, s.busy);
  },
  ground arith,
)

restore-InService :
    (p : Plic) (id : ℕ)
    → InService p id
    → InService (restore_source_zero p) id × ((restore_source_zero p).base ≡ p.base)
unfolding restore_source_zero
restore-InService p id s =
    (record { is_source = s.is_source; taken = s.taken; busy = s.busy }, refl)

abbrev finish_write : Plic × Bool → Plic × Bool
finish_write (p', valid) = if valid then (restore_source_zero p', true) else (p', false)

write-InService :
    (k : Kind) (p : Plic) (info : RegInfo) (value id : ℕ)
    → (k ≡ r_claim → value ≢ id)
    → InService p id
    → InService (finish_write (write_kind k p info value)).0 id
      × ((finish_write (write_kind k p info value)).0.base ≡ p.base)
unfolding write_kind
write-InService r_claim p info value id ne s =
    let (s', base) = complete-InService p value info.context id (ne refl) s in
    let (s'', base') = restore-InService _ id s' in (s'', base' ∙ base)
write-InService r_invalid p info value id ne s = (s, refl)
write-InService _ p info value id ne s =
    restore-InService _ id (record { is_source = s.is_source; taken = s.taken; busy = s.busy })

step-InService :
    (p : Plic) (e : PlicEvent) (id : ℕ)
    → Spares p id e
    → InService p id
    → InService (plic_step p e) id × ((plic_step p e).base ≡ p.base)
unfolding plic_step
step-InService p (irq lines) id sp s =
    unfold plic_irq_update in irq_update-InService p id lines max_interrupt (omega arith) s
step-InService p (read addr size) id sp s =
    unfold plic_read in
    read-InService (addr_decode p addr size).kind p (addr_decode p addr size) id s
step-InService p (write addr size value) id sp s =
    unfold plic_write in
    write-InService (addr_decode p addr size).kind p (addr_decode p addr size) (u32 value) id sp s

addr_decode-base :
    (p q : Plic) (addr size : ℕ)
    → q.base ≡ p.base
    → addr_decode q addr size ≡ addr_decode p addr size
unfolding addr_decode
addr_decode-base p q addr size b = rw b

AllSpare-base :
    (p q : Plic) (id : ℕ) (es : List PlicEvent)
    → q.base ≡ p.base
    → AllSpare p id es
    → AllSpare q id es
AllSpare-base p q id [] b a = tt
AllSpare-base p q id (irq lines ∷ es) b a = (tt, AllSpare-base p q id es b a.1)
AllSpare-base p q id (read addr size ∷ es) b a = (tt, AllSpare-base p q id es b a.1)
AllSpare-base p q id (write addr size value ∷ es) b a =
    ((λ k. a.0 (rw (addr_decode-base p q addr size b) at k)), AllSpare-base p q id es b a.1)

run-InService :
    (p : Plic) (es : List PlicEvent) (id : ℕ)
    → AllSpare p id es
    → InService p id
    → InService (plic_run p es) id
unfolding plic_run
run-InService p [] id a s = s
run-InService p (e ∷ es) id a s =
    let (s', base) = step-InService p e id a.0 s in
    run-InService (plic_step p e) es id (AllSpare-base p (plic_step p e) id es base a.1) s'

step-IsValid : (p : Plic) (e : PlicEvent) → IsValid p → IsValid (plic_step p e)
unfolding plic_step
step-IsValid p (irq lines) v = ((plic-IsValid p 0 0 0 lines).1 v).2
step-IsValid p (read addr size) v = ((plic-IsValid p addr size 0 (λ i. false)).1 v).1
step-IsValid p (write addr size value) v = ((plic-IsValid p addr size value (λ i. false)).1 v).0

run-IsValid : (p : Plic) (es : List PlicEvent) → IsValid p → IsValid (plic_run p es)
unfolding plic_run
run-IsValid p [] v = v
run-IsValid p (e ∷ es) v = run-IsValid (plic_step p e) es (step-IsValid p e v)

claim_starts :
    (k : Kind) (p : Plic) (info : RegInfo) (id : ℕ)
    → k ≡ r_claim
    → (read_kind k p info).1 ≡ some id
    → id ≢ 0
    → p.gw_busy id ≡ true
    → InService (read_kind k p info).0 id
unfolding read_kind
claim_starts r_claim p info id e found ne busy =
    let same : get_claim_id p info.context ≡ id = cc in
    let bound : id < max_interrupt = omega (arith, same, get_claim_id-lt p info.context) in
    let (a, b, c, kept, base) = claim_regs p id in
    rw same (record {
      is_source = (omega arith, bound);
      taken = ground (arith, claim_pending p id id);
      busy = rw kept busy;
    })
claim_starts r_invalid p info id e found ne busy = cc
claim_starts _ p info id e found ne busy = cc

-- In a well-formed state, a read of a claim register that returns a source other than 0, whose gateway is busy, puts the
-- source in service: until software writes its number to a claim register, whatever the lines do and
-- whatever else is read and written, the source is not claimed again in any context.
pub claim_exclusive :
    (p : Plic) (addr size id context : ℕ) (es : List PlicEvent)
    → IsValid p
    → (addr_decode p addr size).kind ≡ r_claim
    → (plic_read p addr size).1 ≡ some id
    → id ≢ 0
    → p.gw_busy id ≡ true
    → AllSpare (plic_read p addr size).0 id es
    → get_claim_id (plic_run (plic_read p addr size).0 es) context ≢ id
claim_exclusive p addr size id context es v k found ne busy a e =
    let p' = (plic_read p addr size).0 in
    let s : InService p' id =
      unfold plic_read in
      claim_starts (addr_decode p addr size).kind p (addr_decode p addr size) id k found ne busy in
    let done = run-InService p' es id a s in
    let valid : IsValid (plic_run p' es) =
      run-IsValid p' es (((plic-IsValid p addr size 0 (λ i. false)).1 v).1) in
    let best = (get_claim_id-IsBest (plic_run p' es) context valid).0.none_or_candidate in
    ground (arith, done)
