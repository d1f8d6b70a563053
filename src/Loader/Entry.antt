-- ===== src/Loader/Entry.antt =====
-- The entry point that emulator/src/memory/loader.c gives to the CPU.
use tiny_linux_rv.Prelude.{
  ℕ, zero, suc, ◌+◌, ◌-◌, ◌^◌, ◌≤◌, ◌<◌, ◌≡◌, ◌≢◌, bit_and, subst, ◌∙◌, refl, sym, ap, ap₂, inl,
  inr, Bool, true, false, not, ◌||◌, some, ltb, ◌==◌, ◌!=◌, if◌then◌else◌, arith, Bool-cases,
}
use tiny_linux_rv.Word.{u64}
use tiny_linux_rv.Memory.Defs.{Memory, check_addr_range, memory_set}
use tiny_linux_rv.Loader.Defs.{
  File, Ehdr, Phdr, Elf, Loading, holds_entry, memory_fread, elf_seek, fread_count, load_segment,
  load_phdr, load_phdrs, load_elf_segments,
}
use tiny_linux_rv.Loader.Checks.{
  segment-range, negated, verdict, from_tests, tested_equal, not_tested,
}

-- Where the header of segment `k` is in the file.
abbrev pub phdr_offset : Ehdr → ℕ → ℕ
phdr_offset ehdr zero = ehdr.e_phoff
phdr_offset ehdr (suc k) = u64 (phdr_offset ehdr k + ehdr.e_phentsize)

-- The segment is executable, it is to be loaded, and the address lies in it.
abbrev pub IsExecutableAt : Elf → Phdr → ℕ → Type 0
IsExecutableAt elf phdr addr =
    (phdr.p_type ≡ elf.pt_load)
    × (bit_and phdr.p_flags elf.pf_x ≢ 0)
    × (phdr.p_vaddr ≤ addr)
    × (addr < phdr.p_vaddr + phdr.p_memsz)

module _ (elf : Elf) (file : File) (ehdr : Ehdr) (ram : Memory)
    (h : ram.base + ram.size < 2 ^ 64) where
  -- The entry point is in the RAM, and in an executable segment of those that the ELF header lists.
  abbrev pub EntryFits : Type 0
  EntryFits =
      (ram.base ≤ ehdr.e_entry)
      × (ehdr.e_entry < ram.base + ram.size)
      × ((k : ℕ) × (k < ehdr.e_phnum)
          × IsExecutableAt elf (elf.phdr file (phdr_offset ehdr k)) ehdr.e_entry)

  -- While the segments are loaded: the RAM stays in its place, and `valid_entry` means what it says.
  record IsLoading (l : Loading) : Type 0 where
    base : l.memory.base ≡ ram.base
    size : l.memory.size ≡ ram.size
    entry : l.valid_entry ≡ true → EntryFits

  holds_inside :
      (phdr : Phdr)
      → holds_entry elf ehdr phdr ≡ true
      → (bit_and phdr.p_flags elf.pf_x ≢ 0)
        × (phdr.p_vaddr ≤ ehdr.e_entry)
        × (ehdr.e_entry - phdr.p_vaddr < phdr.p_memsz)
  holds_inside phdr e = ground arith

  memory_fread-place :
      (m : Memory) (addr n offset : ℕ)
      → ((memory_fread m addr n file offset).0.base ≡ m.base)
        × ((memory_fread m addr n file offset).0.size ≡ m.size)
        × ((memory_fread m addr n file offset).1 ≡ true
            → check_addr_range addr n m.base m.size ≡ true)
  unfolding memory_fread
  memory_fread-place m addr n offset = ground arith

  memory_set-place :
      (m : Memory) (addr c n : ℕ)
      → ((memory_set m addr c n).0.base ≡ m.base)
        × ((memory_set m addr c n).0.size ≡ m.size)
        × ((memory_set m addr c n).1 ≡ true → check_addr_range addr n m.base m.size ≡ true)
  unfolding memory_set
  memory_set-place m addr c n = ground arith

  entry_fits :
      (offset k : ℕ)
      → offset ≡ phdr_offset ehdr k
      → k < ehdr.e_phnum
      → ((elf.phdr file offset).p_type ≡ elf.pt_load)
      → (elf.phdr file offset).p_filesz ≤ (elf.phdr file offset).p_memsz
      → holds_entry elf ehdr (elf.phdr file offset) ≡ true
      → check_addr_range
          (elf.phdr file offset).p_vaddr
          (elf.phdr file offset).p_filesz
          ram.base
          ram.size
        ≡ true
      → check_addr_range
          (u64 ((elf.phdr file offset).p_vaddr + (elf.phdr file offset).p_filesz))
          ((elf.phdr file offset).p_memsz - (elf.phdr file offset).p_filesz)
          ram.base
          ram.size
        ≡ true
      → EntryFits
  entry_fits offset k at below t f holds c c' =
      let phdr = elf.phdr file offset in
      let (executable, from, to) = holds_inside phdr holds in
      let (low, high) =
        segment-range phdr.p_vaddr phdr.p_filesz phdr.p_memsz ehdr.e_entry ram.base ram.size h c c'
          f from to in
      let found : IsExecutableAt elf (elf.phdr file offset) ehdr.e_entry =
        (t, executable, from, omega arith) in
      (
        low,
        high,
        (k, below, subst (λ o. IsExecutableAt elf (elf.phdr file o) ehdr.e_entry) at found),
      )

  by_test :
      (b : Bool) (x y : Loading × Bool)
      → (b ≡ true → IsLoading x.0)
      → (b ≡ false → IsLoading y.0)
      → IsLoading (if b then x else y).0
  by_test true x y f g = f refl
  by_test false x y f g = g refl

  load_segment-IsLoading :
      (l : Loading) (offset k : ℕ)
      → offset ≡ phdr_offset ehdr k
      → k < ehdr.e_phnum
      → (elf.phdr file offset).p_type ≡ elf.pt_load
      → IsLoading l
      → IsLoading (load_segment elf file ehdr (elf.phdr file offset) l).0
  unfolding load_segment
  load_segment-IsLoading l offset k at below t s =
      let phdr = elf.phdr file offset in
      let read = memory_fread l.memory phdr.p_vaddr phdr.p_filesz file phdr.p_offset in
      let after = u64 (phdr.p_vaddr + phdr.p_filesz) in
      let cleared = memory_set read.0 after 0 (phdr.p_memsz - phdr.p_filesz) in
      let (base, size, in_range) =
        memory_fread-place l.memory phdr.p_vaddr phdr.p_filesz phdr.p_offset in
      let (base', size', in_range') =
        memory_set-place read.0 after 0 (phdr.p_memsz - phdr.p_filesz) in
      let loaded : Loading = record l {
        memory = cleared.0;
        loaded = true;
        valid_entry = l.valid_entry || holds_entry elf ehdr phdr;
      } in
      let half : IsLoading (record l { memory = read.0 }) = record {
        base = base ∙ s.base;
        size = size ∙ s.size;
        entry = s.entry;
      } in
      by_test (ltb phdr.p_memsz phdr.p_filesz) _ _ (λ _. s)
        (λ fits.
          by_test (not (elf_seek phdr.p_offset)) _ _ (λ _. s)
            (λ _.
              by_test (not read.1) _ _ (λ _. half)
                (λ was_read.
                  by_test (not cleared.1) (record l { memory = read.0 }, false) (loaded, true)
                    (λ _. half)
                    (λ was_cleared. record {
                      base = base' ∙ base ∙ s.base;
                      size = size' ∙ size ∙ s.size;
                      entry = λ valid. elim (Bool-cases l.valid_entry) [
                        | inl earlier ↦ s.entry earlier
                        | inr new ↦
                            entry_fits offset k at below t (not_tested fits) (rw new at valid)
                              (sym (
                                  ap₂ (λ b z. check_addr_range phdr.p_vaddr phdr.p_filesz b z)
                                    s.base s.size)
                                ∙ in_range (negated read.1 was_read))
                              (sym (
                                  ap₂
                                    (λ b z.
                                      check_addr_range after (phdr.p_memsz - phdr.p_filesz) b z)
                                    (base ∙ s.base) (size ∙ s.size))
                                ∙ in_range' (negated cleared.1 was_cleared))
                      ];
                    }))))

  load_phdr-IsLoading :
      (l : Loading) (k : ℕ)
      → l.next_phoff ≡ phdr_offset ehdr k
      → k < ehdr.e_phnum
      → IsLoading l
      → IsLoading (load_phdr elf file ehdr l).0
  unfolding load_phdr
  load_phdr-IsLoading l k at below s =
      let phdr = elf.phdr file l.next_phoff in
      let done : IsLoading
          (if phdr.p_type == elf.pt_load then load_segment elf file ehdr phdr l else (l, true)).0 =
        by_test (phdr.p_type == elf.pt_load) _ _
          (λ t. load_segment-IsLoading l l.next_phoff k at below (tested_equal t) s) (λ _. s) in
      by_test (not (elf_seek l.next_phoff)) _ _ (λ _. s)
        (λ _.
          by_test (fread_count file l.next_phoff elf.phdr_size != elf.phdr_size) _ _ (λ _. s)
            (λ _. record { base = done.base; size = done.size; entry = done.entry }))

  -- A turn that goes well steps to the next header.
  load_phdr-next_phoff :
      (l : Loading)
      → (load_phdr elf file ehdr l).1 ≡ true
      → (load_phdr elf file ehdr l).0.next_phoff ≡ u64 (l.next_phoff + ehdr.e_phentsize)
  unfolding load_phdr
  load_phdr-next_phoff l e = ground arith

  load_phdrs-IsLoading :
      (n k : ℕ) (l : Loading)
      → k + n ≡ ehdr.e_phnum
      → l.next_phoff ≡ phdr_offset ehdr k
      → IsLoading l
      → IsLoading (load_phdrs elf file ehdr n l).0
  unfolding load_phdrs
  load_phdrs-IsLoading zero k l total at s = s
  load_phdrs-IsLoading (suc n) k l total at s =
      let turn = load_phdr elf file ehdr l in
      let next = load_phdr-IsLoading l k at (omega arith) s in
      by_test turn.1 _ _
        (λ well.
          load_phdrs-IsLoading n (suc k) turn.0 (omega arith)
            (load_phdr-next_phoff l well ∙ ap (λ o. u64 (o + ehdr.e_phentsize)) at) next)
        (λ _. next)

  -- An entry point that the loader gives is that of the ELF header, for a RAM that ends below 2 ^ 64. It lies in
  -- the RAM. It also lies in a segment of type PT_LOAD with the flag PF_X, whose header is one of the e_phnum
  -- that start at e_phoff and are e_phentsize apart, modulo 2 ^ 64. The RAM has kept its base and its size.
  pub load_elf_segments-EntryFits :
      (ram' : Memory) (entry : ℕ)
      → load_elf_segments elf ram file ehdr ≡ (ram', some entry)
      → (entry ≡ ehdr.e_entry) × EntryFits × (ram'.base ≡ ram.base) × (ram'.size ≡ ram.size)
  unfolding load_elf_segments verdict
  load_elf_segments-EntryFits ram' entry e =
      let start : Loading = record {
        memory = ram;
        next_phoff = ehdr.e_phoff;
        valid_entry = false;
        loaded = false;
      } in
      let done = load_phdrs elf file ehdr ehdr.e_phnum start in
      let s =
        load_phdrs-IsLoading ehdr.e_phnum 0 start (omega arith) refl
          record { base = refl; size = refl; entry = λ v. absurd cc } in
      let (valid, same, given) =
        from_tests done.1 done.0.loaded done.0.valid_entry done.0.memory ram' ehdr.e_entry entry
          e in
      (given, s.entry valid, ap (λ m. m.base) same ∙ s.base, ap (λ m. m.size) same ∙ s.size)
