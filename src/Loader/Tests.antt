-- ===== src/Loader/Tests.antt =====
-- An ELF file with one segment, of four bytes and four more that are cleared.
use tiny_linux_rv.Prelude.{◌≡◌, refl, ◌==◌, if◌then◌else◌, true, some, arith}
use tiny_linux_rv.Memory.Defs.{Memory, check_addr_range, memory_set, fill_bytes}
use tiny_linux_rv.Loader.Defs.{
  File, Ehdr, Phdr, Elf, elf_header_ok, probe_elf, copy_bytes, elf_seek, memory_fread, load_segment,
  load_phdr, load_phdrs, load_elf_segments,
}
use tiny_linux_rv.Loader.Entry.{EntryFits, load_elf_segments-EntryFits}

abbrev header : Ehdr
header = record {
  e_class = 2;
  e_machine = 243;
  e_version = 1;
  e_entry = 0x80000004;
  e_phoff = 64;
  e_phentsize = 56;
  e_phnum = 1;
}

abbrev segment : Phdr
segment = record {
  p_type = 1;
  p_flags = 5;
  p_offset = 120;
  p_vaddr = 0x80000000;
  p_filesz = 4;
  p_memsz = 8;
}

abbrev elf : Elf
elf = record {
  ehdr_size = 64;
  phdr_size = 56;
  has_magic = λ f. true;
  ehdr = λ f. header;
  phdr = λ f offset. segment;
  em_riscv = 243;
  elfclass64 = 2;
  ev_current = 1;
  pn_xnum = 0xffff;
  pt_load = 1;
  pf_x = 1;
}

abbrev image : File
image = record { length = 124; bytes = λ i. if i == 121 then 7 else 0 }

abbrev ram : Memory
ram = record { bytes = λ i. 9; base = 0x80000000; size = 0x1000 }

probed : probe_elf elf image ≡ elf_header_ok
unfolding probe_elf
probed = refl

-- The second byte comes from the file, the fifth is cleared, and the ninth is as it was.
second : (load_elf_segments elf ram image header).0.bytes 1 ≡ 7
unfolding load_elf_segments load_phdrs load_phdr load_segment memory_fread memory_set elf_seek
    copy_bytes check_addr_range fill_bytes
second = refl

fifth : (load_elf_segments elf ram image header).0.bytes 4 ≡ 0
unfolding load_elf_segments load_phdrs load_phdr load_segment memory_fread memory_set elf_seek
    copy_bytes check_addr_range fill_bytes
fifth = refl

ninth : (load_elf_segments elf ram image header).0.bytes 8 ≡ 9
unfolding load_elf_segments load_phdrs load_phdr load_segment memory_fread memory_set elf_seek
    copy_bytes check_addr_range fill_bytes
ninth = refl

loaded :
    load_elf_segments elf ram image header
    ≡ ((load_elf_segments elf ram image header).0, some 0x80000004)
unfolding load_elf_segments load_phdrs load_phdr load_segment memory_fread memory_set elf_seek
    copy_bytes check_addr_range fill_bytes
loaded = refl

load_elf_segments-EntryFits_example :
    (0x80000004 ≡ header.e_entry)
    × EntryFits elf image header ram (omega arith)
    × ((load_elf_segments elf ram image header).0.base ≡ ram.base)
    × ((load_elf_segments elf ram image header).0.size ≡ ram.size)
load_elf_segments-EntryFits_example =
    load_elf_segments-EntryFits elf image header ram (omega arith)
      (load_elf_segments elf ram image header).0 0x80000004 loaded
