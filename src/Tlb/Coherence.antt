-- ===== src/Tlb/Coherence.antt =====
-- The TLB of emulator/src/cpu/tlb.c answers as a fresh walk does, while satp and the tables stay.
use tiny_linux_rv.Prelude.{
  ℕ, ◌+◌, ◌≡◌, refl, sym, ap, subst, ◌∙◌, bit_and, bit_or, true, false, not, Option, ◌==◌,
  if◌then◌else◌, arith, Bool-cases, inl, inr, update,
}
use tiny_linux_rv.Word.{u64, ◌>>>◌, ◌<<<◌}
use tiny_linux_rv.Mmu.Defs.{
  PteFlag, AccessMode, Translation, mmu_valid, mmu_inst_access_fault, mmu_load_access_fault,
  mmu_store_amo_access_fault, mmu_inst_page_fault, mmu_load_page_fault, mmu_store_amo_page_fault,
  canonical, pte_permission_check, page_fault, mmu_translation, bypass_address_translation,
  effective_priv, finish_walk, walk_result,
}
use tiny_linux_rv.Mmu.Walk.{fields}
use tiny_linux_rv.Mmu.Translate.{
  finish_leaf, finish_some, translate_walk, translate_bad, translate_flag, leaf_of,
  page_fault_invalid,
}
use tiny_linux_rv.Tlb.Defs.{Tlb, TlbEntry, matches, index_of, asid_of, fill, tlb_lookup, tlb_void}
use tiny_linux_rv.Tlb.Page.{Serves, Coherent, new_entry}

module _ (read : ℕ → Option ℕ) (satp mstatus : ℕ) (mode : AccessMode) (priv : ℕ)
    (flag : PteFlag) where
  -- A hit gives what the walk gives.
  hit_lem :
      (e : TlbEntry) (va : ℕ)
      → bypass_address_translation satp mstatus mode priv ≡ false
      → effective_priv mstatus mode priv ≡ priv
      → Serves read satp e va
      → (if not (pte_permission_check e.flag mstatus mode priv)
          then page_fault mode
          else mmu_valid (bit_or (e.ppn <<< 12) (bit_and va 0xfff)))
        ≡ (mmu_translation read va satp mstatus mode priv flag).0
  hit_lem e va h eff s =
      let walk = translate_walk read va satp mstatus mode priv flag h s.good in
      let stop =
        ap
          (λ l.
            (walk_result
              (finish_walk l (fields va) mstatus mode (effective_priv mstatus mode priv) flag)
              mode).0)
          s.found in
      let last = finish_leaf va mstatus mode (effective_priv mstatus mode priv) flag s.pte s.k in
      rw (walk, stop, last, s.even, eff, s.flags, s.at) (ground arith)

-- The entry that `fill` stores.
abbrev stored : ℕ → ℕ → PteFlag → ℕ → TlbEntry
stored va satp flag pa = record {
  valid = true;
  flag = flag;
  asid = asid_of satp;
  tag = va >>> 12;
  ppn = pa >>> 12;
}

matches-tag :
    (va va' satp pa : ℕ) (flag : PteFlag)
    → matches (stored va satp flag pa) va' satp ≡ true
    → va >>> 12 ≡ va' >>> 12
matches-tag va va' satp pa flag h = ground (arith, h)

module _ (read : ℕ → Option ℕ) (satp : ℕ) where
  store-Coherent :
      (t : Tlb) (va pa : ℕ) (flag : PteFlag)
      → Coherent read satp t
      → ((va' : ℕ) → va >>> 12 ≡ va' >>> 12 → Serves read satp (stored va satp flag pa) va')
      → Coherent read satp (record t { tlb = update t.tlb (index_of va) (stored va satp flag pa) })
  store-Coherent t va pa flag c new va' m = elim (Bool-cases (index_of va' == index_of va)) [
    | inl same ↦
        let here : update t.tlb (index_of va) (stored va satp flag pa) (index_of va')
            ≡ stored va satp flag pa =
          rw same refl in
        subst (λ e. Serves read satp e va') (sym here)
          (new va' (matches-tag va va' satp pa flag (ap (λ e. matches e va' satp) (sym here) ∙ m)))
    | inr other ↦
        let here : update t.tlb (index_of va) (stored va satp flag pa) (index_of va')
            ≡ t.tlb (index_of va') =
          rw other refl in
        subst (λ e. Serves read satp e va') (sym here)
          (c va' (ap (λ e. matches e va' satp) (sym here) ∙ m))
  ]

  fill_lem :
      (t : Tlb) (va : ℕ) (r : Translation × PteFlag)
      → Coherent read satp t
      → ((pa : ℕ)
          → r.0 ≡ mmu_valid pa
          → (va' : ℕ) → va >>> 12 ≡ va' >>> 12
          → Serves read satp (stored va satp r.1 pa) va')
      → ((fill t va satp r).1 ≡ r.0) × Coherent read satp (fill t va satp r).0
  unfolding fill
  fill_lem t va (mmu_valid pa, flag) c new = (refl, store-Coherent t va pa flag c (new pa refl))
  fill_lem t va (mmu_inst_access_fault, flag) c new = (refl, c)
  fill_lem t va (mmu_load_access_fault, flag) c new = (refl, c)
  fill_lem t va (mmu_store_amo_access_fault, flag) c new = (refl, c)
  fill_lem t va (mmu_inst_page_fault, flag) c new = (refl, c)
  fill_lem t va (mmu_load_page_fault, flag) c new = (refl, c)
  fill_lem t va (mmu_store_amo_page_fault, flag) c new = (refl, c)

  -- What a walk that succeeds gives serves its whole page.
  walked-Serves :
      (mstatus : ℕ) (mode : AccessMode) (priv : ℕ) (flag : PteFlag) (va pa : ℕ)
      → bypass_address_translation satp mstatus mode priv ≡ false
      → (mmu_translation read va satp mstatus mode priv flag).0 ≡ mmu_valid pa
      → (va' : ℕ) → va >>> 12 ≡ va' >>> 12
      → Serves read satp
          (stored va satp (mmu_translation read va satp mstatus mode priv flag).1 pa)
          va'
  walked-Serves mstatus mode priv flag va pa h e va' page = elim (Bool-cases (canonical va)) [
    | inl good ↦
        let (pte, k, found, even, may, at) =
          finish_some (leaf_of read va satp mstatus mode priv flag) va mstatus mode
            (effective_priv mstatus mode priv) flag pa
            (sym (translate_walk read va satp mstatus mode priv flag h good) ∙ e) in
        let set = translate_flag read va satp mstatus mode priv flag pte k h good found even in
        new_entry read satp
          (stored va satp (mmu_translation read va satp mstatus mode priv flag).1 pa) va va' pte k
          page good found even set (ap (λ n. n >>> 12) at)
    | inr bad ↦ absurd (
        page_fault_invalid mode pa
          (sym (translate_bad read va satp mstatus mode priv flag h bad) ∙ e))
  ]

module _ (t : Tlb) (read : ℕ → Option ℕ) (va satp mstatus : ℕ) (mode : AccessMode) (priv : ℕ)
    (flag : PteFlag) where
  lookup_direct :
      bypass_address_translation satp mstatus mode priv ≡ true
      → tlb_lookup t read va satp mstatus mode priv flag
        ≡ (t, (mmu_translation read va satp mstatus mode priv flag).0)
  unfolding tlb_lookup mmu_translation
  lookup_direct h = rw h refl

  lookup_hit :
      bypass_address_translation satp mstatus mode priv ≡ false
      → matches (t.tlb (index_of va)) va satp ≡ true
      → ((tlb_lookup t read va satp mstatus mode priv flag).1 ≡ (
          if not (pte_permission_check (t.tlb (index_of va)).flag mstatus mode priv)
          then page_fault mode
          else mmu_valid (bit_or ((t.tlb (index_of va)).ppn <<< 12) (bit_and va 0xfff))))
        × ((tlb_lookup t read va satp mstatus mode priv flag).0.tlb ≡ t.tlb)
  unfolding tlb_lookup
  lookup_hit h m =
      elim (Bool-cases (pte_permission_check (t.tlb (index_of va)).flag mstatus mode priv)) [
        | inl may ↦ rw (h, m, may) (refl, refl)
        | inr may_not ↦ rw (h, m, may_not) (refl, refl)
      ]

  lookup_miss :
      bypass_address_translation satp mstatus mode priv ≡ false
      → matches (t.tlb (index_of va)) va satp ≡ false
      → tlb_lookup t read va satp mstatus mode priv flag
        ≡ fill
            (record t { miss = u64 (t.miss + 1) })
            va
            satp
            (mmu_translation read va satp mstatus mode priv flag)
  unfolding tlb_lookup
  lookup_miss h m = rw (h, m) refl

-- While satp and the tables in memory stay as they are, a coherent TLB answers every lookup with the
-- result of a fresh translation, hit or miss, and stays coherent. The mode is the one that the caller
-- has already computed from MPRV.
pub tlb_lookup_refines :
    (t : Tlb) (read : ℕ → Option ℕ) (va satp mstatus : ℕ) (mode : AccessMode) (priv : ℕ)
    (flag : PteFlag)
    → Coherent read satp t
    → effective_priv mstatus mode priv ≡ priv
    → ((tlb_lookup t read va satp mstatus mode priv flag).1
        ≡ (mmu_translation read va satp mstatus mode priv flag).0)
      × Coherent read satp (tlb_lookup t read va satp mstatus mode priv flag).0
tlb_lookup_refines t read va satp mstatus mode priv flag c eff =
    elim (Bool-cases (bypass_address_translation satp mstatus mode priv)) [
      | inl direct ↦ rw (lookup_direct t read va satp mstatus mode priv flag direct) (refl, c)
      | inr walk ↦ elim (Bool-cases (matches (t.tlb (index_of va)) va satp)) [
        | inl hit ↦
            let done = lookup_hit t read va satp mstatus mode priv flag walk hit in
            (
              done.0
                  ∙ hit_lem read satp mstatus mode priv flag (t.tlb (index_of va)) va walk eff
                      (c va hit),
              subst
                  (λ (f : ℕ → TlbEntry).
                    (va' : ℕ)
                    → matches (f (index_of va')) va' satp ≡ true
                    → Serves read satp (f (index_of va')) va')
                  (sym done.1) c,
            )
        | inr miss ↦ rw (lookup_miss t read va satp mstatus mode priv flag walk miss) (
            fill_lem read satp (record t { miss = u64 (t.miss + 1) }) va
              (mmu_translation read va satp mstatus mode priv flag) c
              (λ pa e. walked-Serves read satp mstatus mode priv flag va pa walk e))
      ]
    ]

-- A TLB that was just voided is coherent.
pub tlb_void-Coherent : (read : ℕ → Option ℕ) (satp : ℕ) (t : Tlb) → Coherent read satp (tlb_void t)
unfolding tlb_void
tlb_void-Coherent read satp t va m = ground (arith, m)
