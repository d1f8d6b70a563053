-- ===== src/Tlb/Defs.antt =====
-- The functions of emulator/src/cpu/tlb.c, with USE_TLB as tlb.h defines it.
use tiny_linux_rv.Prelude.{
  ℕ, ◌+◌, bit_and, bit_or, Bool, true, false, not, ◌&&◌, Option, ◌==◌, if◌then◌else◌, update,
}
use tiny_linux_rv.Word.{u16, u64, ◌>>>◌, ◌<<<◌}
use tiny_linux_rv.Mmu.Defs.{
  PteFlag, AccessMode, Translation, mmu_valid, bypass_address_translation, pte_permission_check,
  page_fault, mmu_translation,
}

pub record TlbEntry : Type 0 where
  pub valid : Bool
  pub flag : PteFlag
  pub asid : ℕ
  pub tag : ℕ
  pub ppn : ℕ

pub record Tlb : Type 0 where
  pub tlb : ℕ → TlbEntry
  pub hit : ℕ
  pub miss : ℕ

abbrev zero_entry : TlbEntry
zero_entry = record {
  valid = false;
  flag = record { a = false; d = false; u = false; x = false; w = false; r = false };
  asid = 0;
  tag = 0;
  ppn = 0;
}

unfoldable pub tlb_void : Tlb → Tlb
tlb_void t = record t { tlb = λ i. zero_entry }

-- The status that `tlb_init` returns is always 0.
unfoldable pub tlb_init : Tlb → Tlb
tlb_init t = tlb_void t

abbrev pub asid_of : ℕ → ℕ
asid_of satp = u16 (bit_and (satp >>> 44) 0xffff)

abbrev pub index_of : ℕ → ℕ
index_of va = bit_and (va >>> 12) 0xff

-- The entry that holds the translation of `va`.
abbrev pub matches : TlbEntry → ℕ → ℕ → Bool
matches e va satp = e.valid && (e.asid == asid_of satp && e.tag == (va >>> 12))

-- The result of the walk, stored in the TLB if it is valid.
unfoldable pub fill : Tlb → ℕ → ℕ → Translation × PteFlag → Tlb × Translation
fill t va satp (mmu_valid pa, flag) = (
  record t {
    tlb =
        update t.tlb (index_of va) record {
          valid = true;
          flag = flag;
          asid = asid_of satp;
          tag = va >>> 12;
          ppn = pa >>> 12;
        };
  },
  mmu_valid pa,
)
fill t va satp (fault, flag) = (t, fault)

-- `flag` is what the local variable of that name holds before it is set.
unfoldable pub tlb_lookup :
    Tlb → (ℕ → Option ℕ) → ℕ → ℕ → ℕ → AccessMode → ℕ → PteFlag → Tlb × Translation
tlb_lookup t read va satp mstatus mode priv flag =
    let e = t.tlb (index_of va) in
    if bypass_address_translation satp mstatus mode priv
    then (t, mmu_valid va)
    else if matches e va satp
    then (if not (pte_permission_check e.flag mstatus mode priv) then (t, page_fault mode) else (
      record t { hit = u64 (t.hit + 1) },
      mmu_valid (bit_or (e.ppn <<< 12) (bit_and va 0xfff)),
    ))
    else fill (record t { miss = u64 (t.miss + 1) }) va satp
        (mmu_translation read va satp mstatus mode priv flag)
