-- ===== src/Plic/Claim.antt =====
-- What the scans of emulator/src/device/plic.c find: the claim takes the source of the highest
-- priority, and the interrupt line shows a source above the threshold.
use tiny_linux_rv.Prelude.{
  ℕ, zero, suc, ◌<◌, ◌≤◌, ◌≡◌, ◌⊎◌, ◌↔◌, inl, inr, refl, true, false, ◌&&◌, ltb, ◌==◌, arith,
  Bool-cases,
}
use tiny_linux_rv.Plic.Defs.{
  Plic, max_interrupt, enabled_pending, irq_scan, interrupt_per_context, claim_scan, get_claim_id,
}
use tiny_linux_rv.Plic.Valid.{IsValid, is_candidate, enabled_pending-is_candidate}

-- A source that may interrupt: pending, enabled, and of a priority above 0.
abbrev pub Candidate : Plic → ℕ → ℕ → Type 0
Candidate p context i = (is_candidate p context i ≡ true) × (0 < p.regs.priority i)

-- `id` is the source of the highest priority among the candidates below `n`, and the lowest of
-- those; it is 0 if there is none.
pub record IsBest (p : Plic) (context n id : ℕ) : Type 0 where
  pub none_or_candidate : (id ≡ 0) ⊎ ((id < n) × Candidate p context id)
  pub highest : (j : ℕ) → j < n → Candidate p context j → p.regs.priority j ≤ p.regs.priority id
  pub lowest :
      (j : ℕ) → j < n → Candidate p context j → p.regs.priority j ≡ p.regs.priority id → id ≤ j

claim_scan-IsBest :
    (p : Plic) (context n : ℕ)
    → n ≤ max_interrupt
    → IsValid p
    → IsBest p context n (claim_scan p context n)
unfolding claim_scan
claim_scan-IsBest p context zero h v = record {
  none_or_candidate = inl refl;
  highest = λ j lt c. absurd (omega arith);
  lowest = λ j lt c e. omega arith;
}
claim_scan-IsBest p context (suc n) h v =
    let id = claim_scan p context n in
    let b = claim_scan-IsBest p context n (omega arith) v in
    let same = enabled_pending-is_candidate p context n h in
    let at_n : (enabled_pending p context n
            && (ltb 0 (p.regs.priority n) && ltb (p.regs.priority id) (p.regs.priority n)))
          ≡ false
        → Candidate p context n
        → p.regs.priority n ≤ p.regs.priority id =
      λ worse c. ground (arith, same) in
    elim (Bool-cases (
      enabled_pending p context n
      && (ltb 0 (p.regs.priority n) && ltb (p.regs.priority id) (p.regs.priority n)))) [
        | inl better ↦ rw better (record {
          none_or_candidate = ground (arith, same);
          highest = λ j lt c. elim (Bool-cases (j == n)) [
            | inl e ↦ ground arith
            | inr e ↦ ground (arith, b.highest j)
          ];
          lowest = λ j lt c e. elim (Bool-cases (j == n)) [
            | inl q ↦ ground arith
            | inr q ↦ ground (arith, b.highest j)
          ];
        })
        | inr worse ↦ rw worse (record {
          none_or_candidate = ground (arith, b.none_or_candidate);
          highest = λ j lt c. elim (Bool-cases (j == n)) [
            | inl e ↦ let e' : j ≡ n = ground arith in rw e' (at_n worse (rw e' at c))
            | inr e ↦ b.highest j (ground arith) c
          ];
          lowest = λ j lt c e. elim (Bool-cases (j == n)) [
            | inl q ↦ ground (arith, b.none_or_candidate)
            | inr q ↦ b.lowest j (ground arith) c e
          ];
        })
      ]

-- Above the threshold of the context.
abbrev pub Interrupts : Plic → ℕ → ℕ → Type 0
Interrupts p context i = Candidate p context i × (p.regs.threshold context < p.regs.priority i)

irq_scan_sound :
    (p : Plic) (context n : ℕ)
    → n ≤ max_interrupt
    → irq_scan p context n ≡ true
    → (i : ℕ) × (i < n) × Interrupts p context i
unfolding irq_scan
irq_scan_sound p context zero h e = cc
irq_scan_sound p context (suc n) h e = elim (Bool-cases (irq_scan p context n)) [
  | inl before ↦
      let (i, lt, found) = irq_scan_sound p context n (omega arith) before in
      (i, omega arith, found)
  | inr not_before ↦ (n, omega arith, ground (arith, enabled_pending-is_candidate p context n h))
]

irq_scan_complete :
    (p : Plic) (context n i : ℕ)
    → n ≤ max_interrupt
    → i < n
    → Interrupts p context i
    → irq_scan p context n ≡ true
unfolding irq_scan
irq_scan_complete p context zero i h lt f = absurd (omega arith)
irq_scan_complete p context (suc n) i h lt f = elim (Bool-cases (i == n)) [
  | inl e ↦
      let e' : i ≡ n = ground arith in
      let f' : Interrupts p context n = rw e' at f in
      ground (arith, enabled_pending-is_candidate p context n h)
  | inr e ↦ ground (arith, irq_scan_complete p context n i (omega arith) (ground arith) f)
]

-- A context is interrupted exactly if some source from 0 to 10 is pending, enabled in the context,
-- and of a priority above 0 and above the context's threshold.
pub interrupt_per_context_iff :
    (p : Plic) (context : ℕ)
    → interrupt_per_context p context ≡ true
      ↔ ((i : ℕ) × (i < max_interrupt) × Interrupts p context i)
unfolding interrupt_per_context
interrupt_per_context_iff p context = (
  irq_scan_sound p context max_interrupt (omega arith),
  λ f. irq_scan_complete p context max_interrupt f.0 (omega arith) f.1 f.2,
)

-- The claimed source is the best one: of the highest priority among the candidates, the lowest of
-- those, and 0 exactly if no source is a candidate. The threshold plays no part.
pub get_claim_id-IsBest :
    (p : Plic) (context : ℕ)
    → IsValid p
    → IsBest p context max_interrupt (get_claim_id p context)
      × (get_claim_id p context ≡ 0 ↔ ((j : ℕ) → j < max_interrupt → ¬ Candidate p context j))
unfolding get_claim_id
get_claim_id-IsBest p context v =
    let b = claim_scan-IsBest p context max_interrupt (omega arith) v in
    (
      b,
      (
        λ e j lt c. silent e (b.highest j lt c) c.1,
        λ no. elim b.none_or_candidate [ inl e ↦ e | inr (lt, c) ↦ absurd (no _ lt c) ],
      ),
    )
  where
    silent :
        {j : ℕ}
        → claim_scan p context max_interrupt ≡ 0
        → p.regs.priority j ≤ p.regs.priority (claim_scan p context max_interrupt)
        → 0 < p.regs.priority j
        → ⊥
    silent {j} e le pos =
        let le' : p.regs.priority j ≤ p.regs.priority 0 = rw e at le in omega (arith, v.no_priority)
