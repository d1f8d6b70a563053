-- ===== src/Tlb/Page.antt =====
-- What an entry of the TLB of emulator/src/cpu/tlb.c holds for the addresses of its page.
use tiny_linux_rv.Prelude.{
  ℕ, ◌+◌, ◌-◌, ◌*◌, ◌^◌, ◌%◌, ◌<◌, ◌≤◌, ◌≡◌, refl, sym, ap, ◌∙◌, bit_and, bit_or, true, false,
  Option, ltb, arith, Bool-cases, inl, inr, fun_ext,
}
use tiny_linux_rv.Bits.{test_bit, test_bit-and, test_bit-or, test_bit-shr, test_bit-mask, bits_ext}
use tiny_linux_rv.Word.{◌>>>◌, ◌<<<◌, test_bit-shl64}
use tiny_linux_rv.Mmu.Defs.{parse_sv39_pte, three, canonical, leaf, step_2, misaligned, physical}
use tiny_linux_rv.Mmu.Walk.{fields, vpn_of, step_2-Walk}
use tiny_linux_rv.Mmu.Translate.{Walk-le, Splices, physical-Splices}
use tiny_linux_rv.Tlb.Defs.{Tlb, TlbEntry, matches, index_of}

-- What the entry says of `va` is what a walk finds.
pub record Serves (read : ℕ → Option ℕ) (satp : ℕ) (e : TlbEntry) (va : ℕ) : Type 0 where
  pub pte : ℕ
  pub k : ℕ
  pub good : canonical va ≡ true
  pub found : step_2 read (vpn_of va) 2 (satp % 2 ^ 44 * 4096) ≡ leaf pte k
  pub even : misaligned (parse_sv39_pte pte).ppnx k ≡ false
  pub flags : e.flag ≡ (parse_sv39_pte pte).flag
  pub at :
      bit_or (e.ppn <<< 12) (bit_and va 0xfff) ≡ physical (fields va) (parse_sv39_pte pte).ppnx k

abbrev pub Coherent : (ℕ → Option ℕ) → ℕ → Tlb → Type 0
Coherent read satp t =
    (va : ℕ)
    → matches (t.tlb (index_of va)) va satp ≡ true
    → Serves read satp (t.tlb (index_of va)) va

-- Addresses of one page.
same_vpn : (va va' : ℕ) → va >>> 12 ≡ va' >>> 12 → (i : ℕ) → vpn_of va i ≡ vpn_of va' i
unfolding three
same_vpn va va' h i =
    let one : va >>> 21 ≡ va' >>> 21 = omega arith in
    let two : va >>> 30 ≡ va' >>> 30 = omega arith in rw (h, one, two) refl

same_canonical : (va va' : ℕ) → va >>> 12 ≡ va' >>> 12 → canonical va ≡ canonical va'
same_canonical va va' h =
    let low : va >>> 38 ≡ va' >>> 38 = omega arith in
    let high : va >>> 39 ≡ va' >>> 39 = omega arith in rw (low, high) refl

high_bits : (va va' i : ℕ) → va >>> 12 ≡ va' >>> 12 → 12 ≤ i → test_bit va i ≡ test_bit va' i
high_bits va va' i h p =
    let at : (i - 12) + 12 ≡ i = omega arith in
    ap (test_bit va) (sym at)
    ∙ sym (test_bit-shr 12 va (i - 12))
    ∙ ap (λ x. test_bit x (i - 12)) h
    ∙ test_bit-shr 12 va' (i - 12)
    ∙ ap (test_bit va') at

-- The page number of an address, with the offset of another one of its page.
rejoin_bits :
    (pa pb va va' pte k i : ℕ)
    → k < 3
    → va >>> 12 ≡ va' >>> 12
    → Splices pa va pte k
    → Splices pb va' pte k
    → test_bit (bit_or ((pa >>> 12) <<< 12) (bit_and va' 0xfff)) i ≡ test_bit pb i
rejoin_bits pa pb va va' pte k i few h s s' =
    let joined = test_bit-or ((pa >>> 12) <<< 12) (bit_and va' 0xfff) i in
    let offset = test_bit-and va' 0xfff i in
    let mask = test_bit-mask 12 i in
    let shifted = test_bit-shl64 (pa >>> 12) 12 i in
    elim (Bool-cases (ltb i 12)) [
      | inl low ↦ ground (arith, joined, offset, mask, shifted, low, s' i)
      | inr high ↦
          let at : (i - 12) + 12 ≡ i = ground (arith, high) in
          let back = test_bit-shr 12 pa (i - 12) ∙ ap (test_bit pa) at in
          let same = high_bits va va' i h (ground (arith, high)) in
          ground (arith, joined, offset, mask, shifted, high, back, same, s i, s' i)
    ]

rejoin :
    (va va' pte k : ℕ)
    → va >>> 12 ≡ va' >>> 12
    → k < 3
    → bit_or ((physical (fields va) (parse_sv39_pte pte).ppnx k >>> 12) <<< 12) (bit_and va' 0xfff)
      ≡ physical (fields va') (parse_sv39_pte pte).ppnx k
rejoin va va' pte k h low = bits_ext _ _ λ i.
    rejoin_bits (physical (fields va) (parse_sv39_pte pte).ppnx k)
      (physical (fields va') (parse_sv39_pte pte).ppnx k) va va' pte k i low h
      (physical-Splices va pte k low) (physical-Splices va' pte k low)

-- A new entry serves every address of the page that was walked.
pub new_entry :
    (read : ℕ → Option ℕ) (satp : ℕ) (e : TlbEntry) (va va' pte k : ℕ)
    → va >>> 12 ≡ va' >>> 12
    → canonical va ≡ true
    → step_2 read (vpn_of va) 2 (satp % 2 ^ 44 * 4096) ≡ leaf pte k
    → misaligned (parse_sv39_pte pte).ppnx k ≡ false
    → e.flag ≡ (parse_sv39_pte pte).flag
    → e.ppn ≡ physical (fields va) (parse_sv39_pte pte).ppnx k >>> 12
    → Serves read satp e va'
new_entry read satp e va va' pte k h good found even flags ppn =
    let w = step_2-Walk read va 2 (satp % 2 ^ 44 * 4096) pte k (omega arith) (omega arith) found in
    let vpn : vpn_of va' ≡ vpn_of va = fun_ext λ i. sym (same_vpn va va' h i) in
    record {
      pte = pte;
      k = k;
      good = sym (same_canonical va va' h) ∙ good;
      found = ap (λ f. step_2 read f 2 (satp % 2 ^ 44 * 4096)) vpn ∙ found;
      even = even;
      flags = flags;
      at =
          ap (λ (n : ℕ). bit_or (n <<< 12) (bit_and va' 0xfff)) ppn
          ∙ rejoin va va' pte k h (omega (arith, Walk-le w));
    }
