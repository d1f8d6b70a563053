-- ===== src/Mmu/Translate.antt =====
-- `mmu_translation` of emulator/src/cpu/mmu.c: which addresses it gives, by the tables in memory.
use tiny_linux_rv.Prelude.{
  ℕ, zero, suc, ◌+◌, ◌-◌, ◌*◌, ◌/◌, ◌^◌, ◌%◌, ◌<◌, ◌≤◌, ◌≡◌, ◌≢◌, ◌↔◌, refl, sym, ◌∙◌, bit_and,
  bit_or, true, false, not, ◌&&◌, ◌||◌, Option, none, some, ltb, nonzero, if◌then◌else◌, arith,
  Bool-cases, inl, inr,
}
use tiny_linux_rv.Bits.{
  test_bit, test_bit-and, test_bit-or, test_bit-shr, test_bit-mask, bit_and-mask, bits_ext,
}
use tiny_linux_rv.Word.{u64, ◌>>>◌, ◌<<<◌, test_bit-shl64}
use tiny_linux_rv.Mmu.Defs.{
  PteFlag, AccessMode, mmu_read, mmu_write, mmu_amo, mmu_execute, mmu_valid, parse_sv39_va,
  parse_sv39_pte, three, canonical, Leaf, leaf, leaf_access_fault, leaf_page_fault, step_2,
  misaligned, physical, pte_permission_check, finish_walk, walk_result, access_fault, page_fault,
  page_table_walk_sv39, mmu_translation, bypass_address_translation, effective_priv, ppn_mask,
  pagesize,
}
use tiny_linux_rv.Mmu.Walk.{Walk, at_leaf, down, fields, vpn_of, Walk-step_2, step_2-Walk}

-- The leaf's level is not above the level where the walk starts.
pub Walk-le :
    {read : ℕ → Option ℕ} {va level base pte k : ℕ} → Walk read va level base pte k → k ≤ level
Walk-le (at_leaf e ok) = omega arith
Walk-le (down e ok w) = omega (arith, Walk-le w)

-- The address below the leaf's page comes from `va`, the rest from the entry.
abbrev pub Splices : ℕ → ℕ → ℕ → ℕ → Type 0
Splices pa va pte k =
    (i : ℕ)
    → test_bit pa i
      ≡ (if ltb i (12 + 9 * k) then test_bit va i else ltb i 56 && test_bit pte (i - 2))

field_bits :
    (x s w j : ℕ) → test_bit (bit_and (x >>> s) (2 ^ w - 1)) j ≡ (ltb j w && test_bit x (j + s))
field_bits x s w j =
    ground (arith, test_bit-and (x >>> s) (2 ^ w - 1) j, test_bit-mask w j, test_bit-shr s x j)

offset_bits : (x i : ℕ) → test_bit (bit_and x 0xfff) i ≡ (ltb i 12 && test_bit x i)
offset_bits x i = ground (arith, test_bit-and x 0xfff i, test_bit-mask 12 i)

joined :
    (o x y z i : ℕ)
    → test_bit (bit_or (bit_or (bit_or o (x <<< 12)) (y <<< 21)) (z <<< 30)) i ≡ (
        ((test_bit o i || (ltb i 64 && (not (ltb i 12) && test_bit x (i - 12))))
          || (ltb i 64 && (not (ltb i 21) && test_bit y (i - 21))))
        || (ltb i 64 && (not (ltb i 30) && test_bit z (i - 30))))
joined o x y z i = ground (
  arith,
  test_bit-or (bit_or (bit_or o (x <<< 12)) (y <<< 21)) (z <<< 30) i,
  test_bit-or (bit_or o (x <<< 12)) (y <<< 21) i,
  test_bit-or o (x <<< 12) i,
  test_bit-shl64 x 12 i,
  test_bit-shl64 y 21 i,
  test_bit-shl64 z 30 i,
)

pub physical-Splices :
    (va pte k : ℕ) → k < 3 → Splices (physical (fields va) (parse_sv39_pte pte).ppnx k) va pte k
unfolding physical parse_sv39_pte three
physical-Splices va pte zero h i = ground (
  arith,
  joined (bit_and va 0xfff) (bit_and (pte >>> 10) 0x1ff) (bit_and (pte >>> 19) 0x1ff)
      (bit_and (pte >>> 28) 0x3ffffff) i,
  offset_bits va i,
  field_bits pte 10 9 (i - 12),
  field_bits pte 19 9 (i - 21),
  field_bits pte 28 26 (i - 30),
)
physical-Splices va pte (suc zero) h i = ground (
  arith,
  joined (bit_and va 0xfff) (bit_and (va >>> 12) 0x1ff) (bit_and (pte >>> 19) 0x1ff)
      (bit_and (pte >>> 28) 0x3ffffff) i,
  offset_bits va i,
  field_bits va 12 9 (i - 12),
  field_bits pte 19 9 (i - 21),
  field_bits pte 28 26 (i - 30),
)
physical-Splices va pte (suc (suc zero)) h i = ground (
  arith,
  joined (bit_and va 0xfff) (bit_and (va >>> 12) 0x1ff) (bit_and (va >>> 21) 0x1ff)
      (bit_and (pte >>> 28) 0x3ffffff) i,
  offset_bits va i,
  field_bits va 12 9 (i - 12),
  field_bits va 21 9 (i - 21),
  field_bits pte 28 26 (i - 30),
)
physical-Splices va pte (suc (suc (suc k))) h i = absurd (omega arith)

aligned_lem :
    (pte k : ℕ)
    → k < 3
    → misaligned (parse_sv39_pte pte).ppnx k ≡ nonzero (pte / 2 ^ 10 % 2 ^ (9 * k))
unfolding misaligned parse_sv39_pte three
aligned_lem pte zero h = ground arith
aligned_lem pte (suc zero) h = ground (arith, bit_and-mask 9 (pte >>> 10))
aligned_lem pte (suc (suc zero)) h =
    ground (arith, bit_and-mask 9 (pte >>> 10), bit_and-mask 9 (pte >>> 19))
aligned_lem pte (suc (suc (suc k))) h = absurd (omega arith)

-- What a walk gives: a leaf that is aligned and permits the access, and the address spliced from it.
pub record Maps (read : ℕ → Option ℕ) (va satp mstatus : ℕ) (mode : AccessMode) (priv pa : ℕ)
    : Type 0 where
  pub pte : ℕ
  pub k : ℕ
  pub va_canonical : canonical va ≡ true
  pub walked : Walk read va 2 (satp % 2 ^ 44 * 4096) pte k
  pub aligned : pte / 2 ^ 10 % 2 ^ (9 * k) ≡ 0
  pub permitted : pte_permission_check (parse_sv39_pte pte).flag mstatus mode priv ≡ true
  pub spliced : Splices pa va pte k

-- What `finish_walk` asks of a leaf.
abbrev pub Finishes : Leaf → ℕ → ℕ → AccessMode → ℕ → ℕ → Type 0
Finishes l va sstatus mode priv pa =
    (pte : ℕ) × (k : ℕ) × (l ≡ leaf pte k)
    × (misaligned (parse_sv39_pte pte).ppnx k ≡ false)
    × (pte_permission_check (parse_sv39_pte pte).flag sstatus mode priv ≡ true)
    × (pa ≡ physical (fields va) (parse_sv39_pte pte).ppnx k)

pub page_fault_invalid : (mode : AccessMode) (pa : ℕ) → page_fault mode ≢ mmu_valid pa
unfolding page_fault
page_fault_invalid mmu_read pa e = ground (arith, e)
page_fault_invalid mmu_write pa e = ground (arith, e)
page_fault_invalid mmu_amo pa e = ground (arith, e)
page_fault_invalid mmu_execute pa e = ground (arith, e)

access_fault_invalid : (mode : AccessMode) (pa : ℕ) → access_fault mode ≢ mmu_valid pa
unfolding access_fault
access_fault_invalid mmu_read pa e = ground (arith, e)
access_fault_invalid mmu_write pa e = ground (arith, e)
access_fault_invalid mmu_amo pa e = ground (arith, e)
access_fault_invalid mmu_execute pa e = ground (arith, e)

pub finish_leaf :
    (va sstatus : ℕ) (mode : AccessMode) (priv : ℕ) (flag : PteFlag) (pte k : ℕ)
    → (walk_result (finish_walk (leaf pte k) (fields va) sstatus mode priv flag) mode).0 ≡ (
        if misaligned (parse_sv39_pte pte).ppnx k
        then page_fault mode
        else if pte_permission_check (parse_sv39_pte pte).flag sstatus mode priv
        then mmu_valid (physical (fields va) (parse_sv39_pte pte).ppnx k)
        else page_fault mode)
unfolding finish_walk walk_result
finish_leaf va sstatus mode priv flag pte k =
    elim (Bool-cases (misaligned (parse_sv39_pte pte).ppnx k)) [
      | inl bad ↦ rw bad refl
      | inr good ↦
          rw good
            (elim (Bool-cases (pte_permission_check (parse_sv39_pte pte).flag sstatus mode priv)) [
              | inl may ↦ rw may refl
              | inr may_not ↦ rw may_not refl
            ])
    ]

pub finish_some :
    (l : Leaf) (va sstatus : ℕ) (mode : AccessMode) (priv : ℕ) (flag : PteFlag) (pa : ℕ)
    → (walk_result (finish_walk l (fields va) sstatus mode priv flag) mode).0 ≡ mmu_valid pa
    → Finishes l va sstatus mode priv pa
unfolding finish_walk walk_result
finish_some leaf_access_fault va sstatus mode priv flag pa e =
    absurd (access_fault_invalid mode pa e)
finish_some leaf_page_fault va sstatus mode priv flag pa e = absurd (page_fault_invalid mode pa e)
finish_some (leaf pte k) va sstatus mode priv flag pa e =
    let given = sym (finish_leaf va sstatus mode priv flag pte k) ∙ e in
    (
      pte,
      k,
      refl,
      ground (arith, given, page_fault_invalid mode pa),
      ground (arith, given, page_fault_invalid mode pa),
      ground (arith, given, page_fault_invalid mode pa),
    )

pub root : (satp : ℕ) → u64 (bit_and satp ppn_mask * pagesize) ≡ satp % 2 ^ 44 * 4096
root satp = ground (arith, bit_and-mask 44 satp)

parse_good : (va : ℕ) → canonical va ≡ true → parse_sv39_va va ≡ some (fields va)
unfolding parse_sv39_va
parse_good va c = rw c refl

parse_bad : (va : ℕ) → canonical va ≡ false → parse_sv39_va va ≡ none
unfolding parse_sv39_va
parse_bad va c = rw c refl

module _ (read : ℕ → Option ℕ) (va satp mstatus : ℕ) (mode : AccessMode) (priv : ℕ)
    (flag : PteFlag) where
  abbrev pub leaf_of : Leaf
  leaf_of = step_2 read (vpn_of va) 2 (satp % 2 ^ 44 * 4096)

  pub translate_walk :
      bypass_address_translation satp mstatus mode priv ≡ false
      → canonical va ≡ true
      → (mmu_translation read va satp mstatus mode priv flag).0
        ≡ (walk_result
            (finish_walk leaf_of (fields va) mstatus mode (effective_priv mstatus mode priv) flag)
            mode).0
  unfolding mmu_translation page_table_walk_sv39
  translate_walk h c = rw (h, page_table_walk_sv39, parse_good va c, root satp) refl

  -- The flags that the walk of a leaf leaves.
  pub translate_flag :
      (pte k : ℕ)
      → bypass_address_translation satp mstatus mode priv ≡ false
      → canonical va ≡ true
      → leaf_of ≡ leaf pte k
      → misaligned (parse_sv39_pte pte).ppnx k ≡ false
      → (mmu_translation read va satp mstatus mode priv flag).1 ≡ (parse_sv39_pte pte).flag
  unfolding mmu_translation page_table_walk_sv39 finish_walk walk_result
  translate_flag pte k h c found even =
      elim (Bool-cases (
        pte_permission_check (parse_sv39_pte pte).flag mstatus mode
          (effective_priv mstatus mode priv))) [
            | inl may ↦
                rw (h, page_table_walk_sv39, parse_good va c, root satp, found, even, may) refl
            | inr may_not ↦
                rw (h, page_table_walk_sv39, parse_good va c, root satp, found, even, may_not) refl
          ]

  pub translate_bad :
      bypass_address_translation satp mstatus mode priv ≡ false
      → canonical va ≡ false
      → (mmu_translation read va satp mstatus mode priv flag).0 ≡ page_fault mode
  unfolding mmu_translation page_table_walk_sv39 walk_result
  translate_bad h c = rw (h, page_table_walk_sv39, parse_bad va c) refl

-- A translation that is not bypassed gives an address exactly where the tables map one: the address is
-- canonical, the walk from the root in satp meets a leaf, the leaf's page number is aligned for its
-- level, the permission check in the effective mode allows the access, and the result has the page
-- offset (with the lower page numbers, for a large page) of the address and the rest of the leaf.
pub mmu_translation_iff :
    (read : ℕ → Option ℕ) (va satp mstatus : ℕ) (mode : AccessMode) (priv : ℕ) (flag : PteFlag)
    (pa : ℕ)
    → bypass_address_translation satp mstatus mode priv ≡ false
    → ((mmu_translation read va satp mstatus mode priv flag).0 ≡ mmu_valid pa)
      ↔ Maps read va satp mstatus mode (effective_priv mstatus mode priv) pa
mmu_translation_iff read va satp mstatus mode priv flag pa h = (
  λ e. elim (Bool-cases (canonical va)) [
    | inl good ↦
        let (pte, k, found, even, may, at) =
          finish_some (leaf_of read va satp mstatus mode priv flag) va mstatus mode
            (effective_priv mstatus mode priv) flag pa
            (sym (translate_walk read va satp mstatus mode priv flag h good) ∙ e) in
        let w =
          step_2-Walk read va 2 (satp % 2 ^ 44 * 4096) pte k (omega arith) (omega arith) found in
        let low : k < 3 = omega (arith, Walk-le w) in
        record {
          pte = pte;
          k = k;
          va_canonical = good;
          walked = w;
          aligned = ground (arith, aligned_lem pte k low, even);
          permitted = may;
          spliced = rw at (physical-Splices va pte k low);
        }
    | inr bad ↦ absurd (
        page_fault_invalid mode pa
          (sym (translate_bad read va satp mstatus mode priv flag h bad) ∙ e))
  ],
  λ m.
      let low : m.k < 3 = omega (arith, Walk-le m.walked) in
      let even : misaligned (parse_sv39_pte m.pte).ppnx m.k ≡ false =
        ground (arith, aligned_lem m.pte m.k low, m.aligned) in
      let at : physical (fields va) (parse_sv39_pte m.pte).ppnx m.k ≡ pa =
        bits_ext _ _ λ i. physical-Splices va m.pte m.k low i ∙ sym (m.spliced i) in
      translate_walk read va satp mstatus mode priv flag h m.va_canonical
      ∙ rw
          (Walk-step_2 read va 2 (satp % 2 ^ 44 * 4096) m.pte m.k (omega arith) (omega arith)
            m.walked)
          (finish_leaf va mstatus mode (effective_priv mstatus mode priv) flag m.pte m.k
            ∙ rw (even, m.permitted, at) refl),
)
