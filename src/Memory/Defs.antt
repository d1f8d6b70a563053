-- ===== src/Memory/Defs.antt =====
-- `check_addr_range` of emulator/include/utils/address_range.h, the functions of
-- emulator/src/memory/memory.c and those of emulator/src/device/bootROM.c. The host is little-endian,
-- as the source assumes; `none` and `false` stand for a return of -1 or NULL. What `calloc` and
-- `malloc` do is outside the program.
use tiny_linux_rv.Prelude.{
  ℕ, zero, suc, ◌+◌, ◌-◌, ◌*◌, ◌/◌, ◌^◌, bit_and, Bool, true, false, not, ◌&&◌, Option, none, some,
  ltb, leb, ◌!=◌, if◌then◌else◌, update,
}
use tiny_linux_rv.Word.{u8, sub64}

pub record Memory : Type 0 where
  pub bytes : ℕ → ℕ
  pub base : ℕ
  pub size : ℕ

unfoldable pub check_addr_range : ℕ → ℕ → ℕ → ℕ → Bool
check_addr_range addr nbyte base size =
    leb base addr && (leb nbyte size && leb (addr - base) (size - nbyte))

unfoldable pub cpu_access_check : Memory → ℕ → ℕ → Bool
cpu_access_check memory addr size =
    if size != 1 && (size != 2 && (size != 4 && size != 8))
    then false
    else if bit_and addr (size - 1) != 0
    then false
    else check_addr_range addr size memory.base memory.size

-- `memcpy` to and from the bytes at `offset`, with the number that `n` bytes make, lowest first.
unfoldable pub load_bytes : (ℕ → ℕ) → ℕ → ℕ → ℕ
load_bytes bytes offset zero = 0
load_bytes bytes offset (suc n) = bytes offset + 2 ^ 8 * load_bytes bytes (offset + 1) n

unfoldable pub store_bytes : (ℕ → ℕ) → ℕ → ℕ → ℕ → ℕ → ℕ
store_bytes bytes offset zero value = bytes
store_bytes bytes offset (suc n) value =
    update (store_bytes bytes (offset + 1) n (value / 2 ^ 8)) offset (u8 value)

unfoldable pub ram_read : Memory → ℕ → ℕ → Option ℕ
ram_read memory addr size =
    if not (cpu_access_check memory addr size)
    then none
    else some (load_bytes memory.bytes (sub64 addr memory.base) size)

unfoldable pub ram_write : Memory → ℕ → ℕ → ℕ → Memory × Bool
ram_write memory addr size data' =
    if not (cpu_access_check memory addr size) then (memory, false) else (
      record memory { bytes = store_bytes memory.bytes (sub64 addr memory.base) size data' },
      true,
    )

-- `memset` of `n` bytes at `offset`.
unfoldable pub fill_bytes : (ℕ → ℕ) → ℕ → ℕ → ℕ → ℕ → ℕ
fill_bytes bytes offset n value i = if leb offset i && ltb i (offset + n) then value else bytes i

unfoldable pub memory_set : Memory → ℕ → ℕ → ℕ → Memory × Bool
memory_set memory start_addr c n =
    if not (check_addr_range start_addr n memory.base memory.size) then (memory, false) else (
      record memory { bytes = fill_bytes memory.bytes (sub64 start_addr memory.base) n (u8 c) },
      true,
    )

-- A write to the boot ROM fails, whatever its arguments.
unfoldable pub bootrom_write : Memory → ℕ → ℕ → ℕ → Memory × Bool
bootrom_write rom addr size data' = (rom, false)

unfoldable pub bootrom_read : Memory → ℕ → ℕ → Option ℕ
bootrom_read rom addr size = ram_read rom addr size
