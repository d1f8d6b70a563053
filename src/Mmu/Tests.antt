-- ===== src/Mmu/Tests.antt =====
-- A table with a 2 MiB page, and the access to it.
use tiny_linux_rv.Prelude.{
  ℕ, ◌≡◌, ◌↔◌, ◌&&◌, refl, true, false, Option, none, some, ◌==◌, if◌then◌else◌,
}
use tiny_linux_rv.Mmu.Defs.{
  PteFlag, mmu_read, mmu_write, mmu_valid, mmu_translation, bypass_address_translation,
  effective_priv, pte_permission_check, page_table_walk_sv39, parse_sv39_va, parse_sv39_pte, three,
  step_2, misaligned, physical, finish_walk, walk_result, mode_refused,
}
use tiny_linux_rv.Mmu.Permission.{
  privilege_rule, access_rule, accessed_rule, pte_permission_check_lem,
}
use tiny_linux_rv.Mmu.Translate.{Maps, mmu_translation_iff}

-- The root at 0x80000000 points to the table at 0x80001000, whose first entry is the page 0x600000.
abbrev tables : ℕ → Option ℕ
tables addr =
    if addr == 0x80000008
    then some 0x20000401
    else if addr == 0x80001000
    then some 0x1800cf
    else none

abbrev satp : ℕ
satp = 0x8000000000080000

abbrev flags : PteFlag
flags = record { a = true; d = false; u = true; x = true; w = true; r = true }

mapped : (mmu_translation tables 0x40001234 satp 0 mmu_read 1 flags).0 ≡ mmu_valid 0x601234
unfolding mmu_translation bypass_address_translation page_table_walk_sv39 parse_sv39_va
    parse_sv39_pte three step_2 misaligned physical finish_walk walk_result pte_permission_check
    mode_refused
mapped = refl

mmu_translation_iff_example :
    ((mmu_translation tables 0x40001234 satp 0 mmu_read 1 flags).0 ≡ mmu_valid 0x601234)
    ↔ Maps tables 0x40001234 satp 0 mmu_read (effective_priv 0 mmu_read 1) 0x601234
unfolding bypass_address_translation
mmu_translation_iff_example =
    mmu_translation_iff tables 0x40001234 satp 0 mmu_read 1 flags 0x601234 refl

-- A store of U-mode to a page whose D bit is clear.
pte_permission_check_lem_example : pte_permission_check flags 0 mmu_write 0 ≡ (
    privilege_rule flags 0 mmu_write 0
    && (access_rule flags 0 mmu_write && accessed_rule flags mmu_write))
pte_permission_check_lem_example = pte_permission_check_lem flags 0 mmu_write 0 refl
