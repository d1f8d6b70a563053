-- ===== src/Plic/Tests.antt =====
-- The PLIC with the UART's source 10 raised, claimed and completed.
use tiny_linux_rv.Prelude.{
  ℕ, ◌+◌, ◌*◌, ◌<◌, ◌≡◌, ◌≢◌, ◌↔◌, refl, Bool, true, false, some, List, [], ◌∷◌, arith, ◌==◌,
  if◌then◌else◌, bit_and,
}
use tiny_linux_rv.Word.{u32, not32}
use tiny_linux_rv.Plic.Defs.{
  Plic, r_invalid, addr_decode, max_interrupt, plic_write, plic_read, plic_irq_update, plic_init,
  plic_reset, plic_meip, interrupt_per_context, get_claim_id, claim_scan, enabled_pending,
  plic_claim, plic_gateway_irq, irq_update_scan, write_kind, read_kind, restore_source_zero,
  irq_scan,
}
use tiny_linux_rv.Plic.Valid.{IsValid, plic-IsValid}
use tiny_linux_rv.Plic.Claim.{Candidate, IsBest, get_claim_id-IsBest}
use tiny_linux_rv.Plic.Service.{PlicEvent, irq, read, write, plic_run, claim_exclusive}
use tiny_linux_rv.Plic.Decode.{InBounds, addr_decode-InBounds, plic_roundtrip}

abbrev blank : Plic
blank = record {
  base = 0;
  regs = record { priority = λ i. 0; pending = λ i. 0; enable = λ k i. 0; threshold = λ i. 0 };
  gw_busy = λ i. false;
}

abbrev uart_line : ℕ → Bool
uart_line i = i == 10

-- Source 10 with priority 3, enabled for M-mode, then raised.
abbrev started : Plic
started = plic_init blank 0xc000000

abbrev prioritised : Plic
prioritised = (plic_write started 0xc000028 4 3).0

abbrev enabled : Plic
enabled = (plic_write prioritised 0xc002000 4 0x401).0

abbrev raised : Plic
raised = plic_irq_update enabled uart_line

raised_interrupts : plic_meip raised ≡ true
unfolding plic_meip interrupt_per_context irq_scan enabled_pending plic_irq_update irq_update_scan
    plic_gateway_irq plic_write write_kind addr_decode restore_source_zero plic_init
raised_interrupts = refl

started-IsValid : IsValid started
unfolding plic_init
started-IsValid = (plic-IsValid (record blank { base = 0xc000000 }) 0 0 0 uart_line).0

prioritised-IsValid : IsValid prioritised
prioritised-IsValid = ((plic-IsValid started 0xc000028 4 3 uart_line).1 started-IsValid).0

enabled-IsValid : IsValid enabled
enabled-IsValid = ((plic-IsValid prioritised 0xc002000 4 0x401 uart_line).1 prioritised-IsValid).0

raised-IsValid : IsValid raised
raised-IsValid = ((plic-IsValid enabled 0 0 0 uart_line).1 enabled-IsValid).2

plic-IsValid_example :
    IsValid (plic_reset raised)
    × (IsValid raised
        → IsValid (plic_write raised 0xc000000 4 7).0
          × IsValid (plic_read raised 0xc000000 4).0
          × IsValid (plic_irq_update raised uart_line))
plic-IsValid_example = plic-IsValid raised 0xc000000 4 7 uart_line

get_claim_id-IsBest_example :
    IsBest raised 0 max_interrupt (get_claim_id raised 0)
    × (get_claim_id raised 0 ≡ 0 ↔ ((j : ℕ) → j < max_interrupt → ¬ Candidate raised 0 j))
get_claim_id-IsBest_example = get_claim_id-IsBest raised 0 raised-IsValid

abbrev later_events : List PlicEvent
later_events = irq uart_line ∷ read 0xc200004 4 ∷ write 0xc200004 4 9 ∷ irq uart_line ∷ []

claim_exclusive_example :
    get_claim_id (plic_run (plic_read raised 0xc200004 4).0 later_events) 0 ≢ 10
unfolding plic_read read_kind get_claim_id claim_scan enabled_pending plic_claim plic_irq_update
    irq_update_scan plic_gateway_irq plic_write write_kind addr_decode restore_source_zero plic_init
claim_exclusive_example =
    claim_exclusive raised 0xc200004 4 10 0 later_events raised-IsValid refl refl (omega arith) refl
      (tt, (tt, ((λ e. omega arith), (tt, tt))))

addr_decode-InBounds_example :
    InBounds
      (addr_decode raised 0xc002080 4).kind
      (addr_decode raised 0xc002080 4).context
      (addr_decode raised 0xc002080 4).index
    × (◌≢◌ {A = ℕ} 4 4 → (addr_decode raised 0xc002080 4).kind ≡ r_invalid)
addr_decode-InBounds_example = addr_decode-InBounds raised 0xc002080 4

plic_roundtrip_example :
    ((plic_read (plic_write blank (0 + 4 * 5) 4 6).0 (0 + 4 * 5) 4).1
      ≡ some (if 5 == 0 then 0 else u32 6))
    × ((plic_read (plic_write blank (0 + (0x2000 + 0x80 * 1)) 4 6).0 (0 + (0x2000 + 0x80 * 1)) 4).1
        ≡ some (bit_and (u32 6) (not32 1)))
    × ((plic_read
          (plic_write blank (0 + (0x200000 + 0x1000 * 1)) 4 6).0
          (0 + (0x200000 + 0x1000 * 1))
          4).1
        ≡ some (u32 6))
plic_roundtrip_example = plic_roundtrip blank 6 (omega arith) 5 1 (omega arith) (omega arith)
