-- ===== src/Mmu/Defs.antt =====
-- The functions of emulator/src/cpu/mmu.c. The 8-byte reads of the bus that a walk makes are a
-- parameter: `read addr` is the page table entry at `addr`, or `none` where `bus_read` fails.
use tiny_linux_rv.Prelude.{
  ℕ, zero, suc, ◌+◌, ◌-◌, ◌*◌, bit_and, bit_or, Bool, true, false, not, ◌&&◌, ◌||◌, Option, none,
  some, ltb, ◌==◌, nonzero, to_num, if◌then◌else◌,
}
use tiny_linux_rv.Word.{u64, ◌>>>◌, ◌<<<◌}
use tiny_linux_rv.Csr.Defs.{priv_u, priv_s, priv_m}

pub record PteFlag : Type 0 where
  pub a : Bool
  pub d : Bool
  pub u : Bool
  pub x : Bool
  pub w : Bool
  pub r : Bool

pub data AccessMode : Type 0 where
  mmu_read mmu_write mmu_amo mmu_execute : AccessMode

-- `mmu_valid pa` is MMU_VALID with what is stored in `*pa`.
pub data Translation : Type 0 where
  mmu_valid : ℕ → Translation
  mmu_inst_access_fault mmu_load_access_fault mmu_store_amo_access_fault : Translation
  mmu_inst_page_fault mmu_load_page_fault mmu_store_amo_page_fault : Translation

pub record Sv39Va : Type 0 where
  pub page_offset : ℕ
  pub vpn : ℕ → ℕ

pub record Sv39Pte : Type 0 where
  pub v : Bool
  pub flag : PteFlag
  pub ppn : ℕ
  pub ppnx : ℕ → ℕ

abbrev pub levels_sv39 : ℕ
levels_sv39 = 3

abbrev pub pagesize : ℕ
pagesize = 4096

abbrev pub ppn_mask : ℕ
ppn_mask = 0xfffffffffff

-- The three entries of an array.
unfoldable pub three : ℕ → ℕ → ℕ → ℕ → ℕ
three x y z i = if i == 0 then x else if i == 1 then y else z

abbrev pub canonical : ℕ → Bool
canonical va =
    let bit63_39 = va >>> 39 in
    if bit_and (va >>> 38) 1 == 0 then bit63_39 == 0 else bit63_39 == 0x1ffffff

unfoldable pub parse_sv39_va : ℕ → Option Sv39Va
parse_sv39_va va =
    if not (canonical va)
    then none
    else some record {
      page_offset = bit_and va 0xfff;
      vpn =
          three (bit_and (va >>> 12) 0x1ff) (bit_and (va >>> 21) 0x1ff) (bit_and (va >>> 30) 0x1ff);
    }

abbrev pub pte_bit : ℕ → ℕ → Bool
pte_bit pte offset = nonzero (bit_and (pte >>> offset) 1)

-- The fields G, RSW, PBMT and N, which nothing reads, are left out.
unfoldable pub parse_sv39_pte : ℕ → Sv39Pte
parse_sv39_pte pte = record {
  v = pte_bit pte 0;
  flag = record {
    a = pte_bit pte 6;
    d = pte_bit pte 7;
    u = pte_bit pte 4;
    x = pte_bit pte 3;
    w = pte_bit pte 2;
    r = pte_bit pte 1;
  };
  ppn = bit_and (pte >>> 10) ppn_mask;
  ppnx =
      three (bit_and (pte >>> 10) 0x1ff) (bit_and (pte >>> 19) 0x1ff)
        (bit_and (pte >>> 28) 0x3ffffff);
}

abbrev pub is_execute : AccessMode → Bool
is_execute mmu_execute = true
is_execute _ = false

-- MMU_WRITE or MMU_AMO.
abbrev pub stores : AccessMode → Bool
stores mmu_write = true
stores mmu_amo = true
stores _ = false

-- MMU_READ or MMU_AMO.
abbrev pub loads : AccessMode → Bool
loads mmu_read = true
loads mmu_amo = true
loads _ = false

abbrev pub xwr : PteFlag → ℕ
xwr f = to_num f.x * 4 + to_num f.w * 2 + to_num f.r

-- The switch on `xwr`: whether it refuses the access.
unfoldable pub mode_refused : ℕ → ℕ → AccessMode → Bool
mode_refused n sstatus_mxr mode =
    if n == 1
    then is_execute mode || stores mode
    else if n == 3
    then is_execute mode
    else if n == 4
    then stores mode || (loads mode && not (nonzero sstatus_mxr))
    else if n == 5
    then stores mode
    else false

unfoldable pub pte_permission_check : PteFlag → ℕ → AccessMode → ℕ → Bool
pte_permission_check flag sstatus mode priv =
    let sstatus_sum = bit_and (sstatus >>> 18) 1 in
    let sstatus_mxr = bit_and (sstatus >>> 19) 1 in
    if priv == priv_u && not flag.u
    then false
    else if priv == priv_s && (flag.u && not (nonzero sstatus_sum))
    then false
    else if priv == priv_s && (flag.u && is_execute mode)
    then false
    else if mode_refused (xwr flag) sstatus_mxr mode
    then false
    else if not flag.a
    then false
    else if stores mode && not flag.d
    then false
    else true

-- `effective_priv` of `bypass_address_translation` and of `mmu_translation`.
abbrev pub effective_priv : ℕ → AccessMode → ℕ → ℕ
effective_priv mstatus mode priv =
    if nonzero (bit_and (mstatus >>> 17) 1) && not (is_execute mode)
    then bit_and (mstatus >>> 11) 3
    else priv

unfoldable pub bypass_address_translation : ℕ → ℕ → AccessMode → ℕ → Bool
bypass_address_translation satp mstatus mode priv =
    if bit_and (satp >>> 60) 0xf == 0
    then true
    else if priv == priv_m && is_execute mode
    then true
    else if effective_priv mstatus mode priv == priv_m
    then true
    else false

-- Steps 2 to 4 of a walk end at a leaf, with its level, or with a fault.
pub data Leaf : Type 0 where
  leaf : ℕ → ℕ → Leaf
  leaf_access_fault leaf_page_fault : Leaf

abbrev pub reserved : ℕ → Bool
reserved pte =
    let p = parse_sv39_pte pte in
    not p.v
    || ((not p.flag.r && p.flag.w)
        || ((xwr p.flag == 2 || xwr p.flag == 6) || nonzero (pte >>> 54)))

-- A pointer to the next table.
abbrev pub is_table : ℕ → Bool
is_table pte = let p = parse_sv39_pte pte in not (p.flag.r || p.flag.x)

abbrev pub table_bits : ℕ → Bool
table_bits pte = let p = parse_sv39_pte pte in p.flag.u || (p.flag.a || p.flag.d)

-- From step 2 on, at `level`, with `va_s.vpn`; `goto step_2` is the call one level down.
unfoldable pub step_2 : (ℕ → Option ℕ) → (ℕ → ℕ) → ℕ → ℕ → Leaf
step_2 read vpn zero pte_base_addr = elim (read (u64 (pte_base_addr + vpn 0 * 8))) [
  | none ↦ leaf_access_fault
  | some pte ↦
      if reserved pte then leaf_page_fault else if is_table pte then leaf_page_fault else leaf pte 0
]
step_2 read vpn (suc level) pte_base_addr =
    elim (read (u64 (pte_base_addr + vpn (suc level) * 8))) [
      | none ↦ leaf_access_fault
      | some pte ↦
          if reserved pte
          then leaf_page_fault
          else if is_table pte
          then (if table_bits pte
              then leaf_page_fault
              else step_2 read vpn level (u64 ((parse_sv39_pte pte).ppn * pagesize)))
          else leaf pte (suc level)
    ]

-- Step 5: whether a part of the page number below the leaf's level is not 0.
unfoldable pub misaligned : (ℕ → ℕ) → ℕ → Bool
misaligned ppnx zero = false
misaligned ppnx (suc i) = misaligned ppnx i || nonzero (ppnx i)

-- Step 10: `pa_s.ppn[i]`, and the address put together.
abbrev pub pa_part : Sv39Va → (ℕ → ℕ) → ℕ → ℕ → ℕ
pa_part va ppnx level i = if ltb i level then va.vpn i else ppnx i

unfoldable pub physical : Sv39Va → (ℕ → ℕ) → ℕ → ℕ
physical va ppnx level =
    bit_or
      (bit_or (bit_or va.page_offset (pa_part va ppnx level 0 <<< 12))
        (pa_part va ppnx level 1 <<< 21))
      (pa_part va ppnx level 2 <<< 30)

pub data WalkerResult : Type 0 where
  walker_valid : ℕ → WalkerResult
  walker_access_fault walker_page_fault : WalkerResult

-- The last argument and the second result are what `*flag` holds before and after.
unfoldable pub finish_walk : Leaf → Sv39Va → ℕ → AccessMode → ℕ → PteFlag → WalkerResult × PteFlag
finish_walk leaf_access_fault va sstatus mode priv flag = (walker_access_fault, flag)
finish_walk leaf_page_fault va sstatus mode priv flag = (walker_page_fault, flag)
finish_walk (leaf pte level) va sstatus mode priv flag =
    let pte_s = parse_sv39_pte pte in
    if misaligned pte_s.ppnx level
    then (walker_page_fault, flag)
    else if not (pte_permission_check pte_s.flag sstatus mode priv)
    then (walker_page_fault, pte_s.flag)
    else (walker_valid (physical va pte_s.ppnx level), pte_s.flag)

unfoldable pub page_table_walk_sv39 :
    (ℕ → Option ℕ) → ℕ → ℕ → ℕ → AccessMode → ℕ → PteFlag → WalkerResult × PteFlag
page_table_walk_sv39 read va satp sstatus mode priv flag = elim (parse_sv39_va va) [
  | none ↦ (walker_page_fault, flag)
  | some va_s ↦
      let found = step_2 read va_s.vpn (levels_sv39 - 1) (u64 (bit_and satp ppn_mask * pagesize)) in
      finish_walk found va_s sstatus mode priv flag
]

unfoldable pub access_fault : AccessMode → Translation
access_fault mmu_execute = mmu_inst_access_fault
access_fault mmu_read = mmu_load_access_fault
access_fault mmu_write = mmu_store_amo_access_fault
access_fault mmu_amo = mmu_store_amo_access_fault

unfoldable pub page_fault : AccessMode → Translation
page_fault mmu_execute = mmu_inst_page_fault
page_fault mmu_read = mmu_load_page_fault
page_fault mmu_write = mmu_store_amo_page_fault
page_fault mmu_amo = mmu_store_amo_page_fault

unfoldable pub walk_result : WalkerResult × PteFlag → AccessMode → Translation × PteFlag
walk_result (walker_valid pa, flag) mode = (mmu_valid pa, flag)
walk_result (walker_access_fault, flag) mode = (access_fault mode, flag)
walk_result (walker_page_fault, flag) mode = (page_fault mode, flag)

unfoldable pub mmu_translation :
    (ℕ → Option ℕ) → ℕ → ℕ → ℕ → AccessMode → ℕ → PteFlag → Translation × PteFlag
mmu_translation read va satp mstatus mode priv flag =
    if bypass_address_translation satp mstatus mode priv
    then (mmu_valid va, flag)
    else walk_result
        (page_table_walk_sv39 read va satp mstatus mode (effective_priv mstatus mode priv) flag)
        mode
