-- ===== src/Loader/Defs.antt =====
-- The functions of emulator/src/memory/loader.c but `load_symbol_table`, which only feeds the traces. The file
-- that the host opens, whose reads and seeks succeed as far as it has bytes, and what <elf.h> declares are
-- parameters.
use tiny_linux_rv.Prelude.{
  ℕ, zero, suc, ◌+◌, ◌-◌, ◌^◌, bit_and, Bool, true, false, not, ◌&&◌, ◌||◌, Option, none, some, ltb,
  leb, ◌==◌, ◌!=◌, if◌then◌else◌,
}
use tiny_linux_rv.Word.{u64, sub64}
use tiny_linux_rv.Memory.Defs.{Memory, check_addr_range, memory_set}

-- The content of a file.
pub record File : Type 0 where
  pub length : ℕ
  pub bytes : ℕ → ℕ

-- The fields of `Elf64_Ehdr` and `Elf64_Phdr` that the loader uses.
pub record Ehdr : Type 0 where
  pub e_class : ℕ
  pub e_machine : ℕ
  pub e_version : ℕ
  pub e_entry : ℕ
  pub e_phoff : ℕ
  pub e_phentsize : ℕ
  pub e_phnum : ℕ

pub record Phdr : Type 0 where
  pub p_type : ℕ
  pub p_flags : ℕ
  pub p_offset : ℕ
  pub p_vaddr : ℕ
  pub p_filesz : ℕ
  pub p_memsz : ℕ

-- What <elf.h> declares: the sizes of the structures and how the bytes of a file are read as them, whether the
-- first four are ELFMAG, and the constants.
pub record Elf : Type 0 where
  pub ehdr_size : ℕ
  pub phdr_size : ℕ
  pub has_magic : File → Bool
  pub ehdr : File → Ehdr
  pub phdr : File → ℕ → Phdr
  pub em_riscv : ℕ
  pub elfclass64 : ℕ
  pub ev_current : ℕ
  pub pn_xnum : ℕ
  pub pt_load : ℕ
  pub pf_x : ℕ

-- `elf_probe_result_t`
pub data ElfProbeResult : Type 0 where
  not_elf bad_elf elf_header_ok io_error bad_file : ElfProbeResult

-- How many of `size` bytes `fread` gives at `offset`.
abbrev pub fread_count : File → ℕ → ℕ → ℕ
fread_count file offset size =
    if leb size (file.length - offset) then size else file.length - offset

unfoldable pub probe_elf : Elf → File → ElfProbeResult
probe_elf elf file =
    let count = fread_count file 0 elf.ehdr_size in
    let ehdr = elf.ehdr file in
    if ltb count 4
    then bad_file
    else if not (elf.has_magic file)
    then not_elf
    else if ltb count elf.ehdr_size
    then bad_elf
    else if ehdr.e_machine != elf.em_riscv
    then bad_elf
    else if ehdr.e_class != elf.elfclass64
    then bad_elf
    else if ehdr.e_version != elf.ev_current
    then bad_elf
    else if ehdr.e_phoff == 0 || ehdr.e_phnum == 0
    then bad_elf
    else if leb elf.pn_xnum ehdr.e_phnum
    then bad_elf
    else elf_header_ok

-- The `count` bytes of the file from `offset` on are put at `start`.
unfoldable pub copy_bytes : (ℕ → ℕ) → ℕ → File → ℕ → ℕ → ℕ → ℕ
copy_bytes bytes start file offset count i =
    if leb start i && ltb i (start + count) then file.bytes (offset + (i - start)) else bytes i

-- The RAM has the bytes that fit even if the file is too large.
unfoldable pub load_binary_segment : Memory → File → Memory × Bool
load_binary_segment memory file =
    let count = fread_count file 0 memory.size in
    (record memory { bytes = copy_bytes memory.bytes 0 file 0 count }, not (ltb count file.length))

-- LONG_MAX bounds what `fseek` takes.
unfoldable pub elf_seek : ℕ → Bool
elf_seek offset = leb offset (2 ^ 63 - 1)

-- `file_offset` is where `elf_seek` has put the file.
unfoldable pub memory_fread : Memory → ℕ → ℕ → File → ℕ → Memory × Bool
memory_fread memory start_addr size file file_offset =
    let offset = sub64 start_addr memory.base in
    let count = fread_count file file_offset size in
    if not (check_addr_range start_addr size memory.base memory.size) then (memory, false) else (
      record memory { bytes = copy_bytes memory.bytes offset file file_offset count },
      count == size,
    )

-- The variables of the loop of `load_elf_segments`.
pub record Loading : Type 0 where
  pub memory : Memory
  pub next_phoff : ℕ
  pub valid_entry : Bool
  pub loaded : Bool

-- `p_flags` has PF_X, and the entry lies in the segment.
abbrev pub holds_entry : Elf → Ehdr → Phdr → Bool
holds_entry elf ehdr phdr =
    bit_and phdr.p_flags elf.pf_x != 0
    && (leb phdr.p_vaddr ehdr.e_entry && ltb (ehdr.e_entry - phdr.p_vaddr) phdr.p_memsz)

-- The body of the loop for a segment of type PT_LOAD; `false` is a return of -1.
unfoldable pub load_segment : Elf → File → Ehdr → Phdr → Loading → Loading × Bool
load_segment elf file ehdr phdr l =
    let read = memory_fread l.memory phdr.p_vaddr phdr.p_filesz file phdr.p_offset in
    let cleared =
      memory_set read.0 (u64 (phdr.p_vaddr + phdr.p_filesz)) 0 (phdr.p_memsz - phdr.p_filesz) in
    if ltb phdr.p_memsz phdr.p_filesz
    then (l, false)
    else if not (elf_seek phdr.p_offset)
    then (l, false)
    else if not read.1
    then (record l { memory = read.0 }, false)
    else if not cleared.1
    then (record l { memory = read.0 }, false)
    else (
      record l {
        memory = cleared.0;
        loaded = true;
        valid_entry = l.valid_entry || holds_entry elf ehdr phdr;
      },
      true,
    )

-- A turn of the loop.
unfoldable pub load_phdr : Elf → File → Ehdr → Loading → Loading × Bool
load_phdr elf file ehdr l =
    let phdr = elf.phdr file l.next_phoff in
    let done =
      if phdr.p_type == elf.pt_load then load_segment elf file ehdr phdr l else (l, true) in
    if not (elf_seek l.next_phoff)
    then (l, false)
    else if fread_count file l.next_phoff elf.phdr_size != elf.phdr_size
    then (l, false)
    else (record (done.0) { next_phoff = u64 (l.next_phoff + ehdr.e_phentsize) }, done.1)

-- The loop, with `n` turns left.
unfoldable pub load_phdrs : Elf → File → Ehdr → ℕ → Loading → Loading × Bool
load_phdrs elf file ehdr zero l = (l, true)
load_phdrs elf file ehdr (suc n) l =
    let turn = load_phdr elf file ehdr l in
    let rest = load_phdrs elf file ehdr n turn.0 in if turn.1 then rest else turn

-- The RAM, and the entry point unless the result is -1.
unfoldable pub load_elf_segments : Elf → Memory → File → Ehdr → Memory × Option ℕ
load_elf_segments elf memory file ehdr =
    let start : Loading = record {
      memory = memory;
      next_phoff = ehdr.e_phoff;
      valid_entry = false;
      loaded = false;
    } in
    let done = load_phdrs elf file ehdr ehdr.e_phnum start in
    if not done.1
    then (done.0.memory, none)
    else if not done.0.loaded
    then (done.0.memory, none)
    else if not done.0.valid_entry
    then (done.0.memory, none)
    else (done.0.memory, some ehdr.e_entry)

-- `none` in place of a file is one that the host cannot open.
unfoldable pub memory_load_binary : Memory → Option File → Memory × Bool
memory_load_binary memory none = (memory, false)
memory_load_binary memory (some file) = load_binary_segment memory file

abbrev load_probed : Elf → Memory → File → ElfProbeResult → Memory × Option ℕ
load_probed elf memory file elf_header_ok = load_elf_segments elf memory file (elf.ehdr file)
load_probed elf memory file _ = (memory, none)

unfoldable pub memory_load_elf : Elf → Memory → Option File → Memory × Option ℕ
memory_load_elf elf memory none = (memory, none)
memory_load_elf elf memory (some file) = load_probed elf memory file (probe_elf elf file)

-- What a loaded file leaves of the entry point.
pub data AutoResult : Type 0 where
  load_failed : AutoResult
  entry_set : ℕ → AutoResult
  entry_kept : AutoResult

abbrev of_elf : Memory × Option ℕ → Memory × AutoResult
of_elf (memory, none) = (memory, load_failed)
of_elf (memory, some entry) = (memory, entry_set entry)

abbrev auto_probed : Elf → Memory → File → ElfProbeResult → Memory × AutoResult
auto_probed elf memory file elf_header_ok =
    of_elf (load_elf_segments elf memory file (elf.ehdr file))
auto_probed elf memory file not_elf =
    let done = load_binary_segment memory file in
    (done.0, if done.1 then entry_kept else load_failed)
auto_probed elf memory file _ = (memory, load_failed)

unfoldable pub memory_load_auto : Elf → Memory → Option File → Memory × AutoResult
memory_load_auto elf memory none = (memory, load_failed)
memory_load_auto elf memory (some file) = auto_probed elf memory file (probe_elf elf file)
