-- ===== src/Tlb/Tests.antt =====
-- Lookups in a table with a 2 MiB page: a miss, a hit in the same page, and an address without a page.
use tiny_linux_rv.Prelude.{
  ℕ, ◌≡◌, refl, true, false, Option, none, some, List, [], ◌∷◌, ◌==◌, if◌then◌else◌,
}
use tiny_linux_rv.Mmu.Defs.{
  PteFlag, mmu_read, mmu_execute, mmu_valid, mmu_inst_access_fault, mmu_translation,
  bypass_address_translation, pte_permission_check, page_table_walk_sv39, parse_sv39_va,
  parse_sv39_pte, three, step_2, misaligned, physical, finish_walk, walk_result, mode_refused,
  access_fault,
}
use tiny_linux_rv.Tlb.Defs.{Tlb, tlb_void, tlb_lookup, fill}
use tiny_linux_rv.Tlb.History.{Request, lookups, translations, lookups_refine}

abbrev tables : ℕ → Option ℕ
tables addr =
    if addr == 0x80000008
    then some 0x20000401
    else if addr == 0x80001000
    then some 0x1800cf
    else none

abbrev satp : ℕ
satp = 0x8000000000080000

abbrev flags : PteFlag
flags = record { a = false; d = false; u = false; x = false; w = false; r = false }

abbrev used : Tlb
used = record {
  tlb = λ i. record { valid = true; flag = flags; asid = 0; tag = 0x40001; ppn = 5 };
  hit = 3;
  miss = 4;
}

abbrev requests : List Request
requests =
    record { va = 0x40001234; mstatus = 0; mode = mmu_read; priv = 1 }
    ∷ record { va = 0x40001300; mstatus = 0; mode = mmu_read; priv = 1 }
    ∷ record { va = 0x80000000; mstatus = 0; mode = mmu_execute; priv = 1 }
    ∷ []

results :
    lookups (tlb_void used) tables satp flags requests
    ≡ mmu_valid 0x601234 ∷ mmu_valid 0x601300 ∷ mmu_inst_access_fault ∷ []
unfolding lookups tlb_void tlb_lookup fill mmu_translation bypass_address_translation
    page_table_walk_sv39 parse_sv39_va parse_sv39_pte three step_2 misaligned physical finish_walk
    walk_result pte_permission_check mode_refused access_fault
results = refl

lookups_refine_example :
    lookups (tlb_void used) tables satp flags requests ≡ translations tables satp flags requests
lookups_refine_example =
    lookups_refine used tables satp flags requests (refl, (refl, (refl, record {})))
