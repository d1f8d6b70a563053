-- ===== src/Clint/Access.antt =====
-- The registers of emulator/src/device/clint.c: what is written is read back, whole and by halves.
use tiny_linux_rv.Prelude.{ℕ, ◌+◌, ◌/◌, ◌%◌, ◌^◌, ◌<◌, ◌≤◌, ◌≡◌, ◌⊎◌, ◌↔◌, true, false, some, arith}
use tiny_linux_rv.Word.{sub64}
use tiny_linux_rv.Clint.Defs.{Clint, clint_write, clint_read}

module _ (c : Clint) (value : ℕ) (fits : c.base + 0x10000 ≤ 2 ^ 64) (small : value < 2 ^ 64) where
  -- mtimecmp and mtime, written as eight bytes, are read back whole, and as two halves of four bytes
  -- from which the value is put together.
  pub clint_roundtrip :
      ((clint_read (clint_write c (c.base + 0x4000) 8 value).0 (c.base + 0x4000) 8 ≡ some value)
        × (clint_read (clint_write c (c.base + 0x4000) 8 value).0 (c.base + 0x4000) 4
            ≡ some (value % 2 ^ 32))
        × (clint_read (clint_write c (c.base + 0x4000) 8 value).0 (c.base + 0x4004) 4
            ≡ some (value / 2 ^ 32)))
      × ((clint_read (clint_write c (c.base + 0xbff8) 8 value).0 (c.base + 0xbff8) 8 ≡ some value)
          × (clint_read (clint_write c (c.base + 0xbff8) 8 value).0 (c.base + 0xbff8) 4
              ≡ some (value % 2 ^ 32))
          × (clint_read (clint_write c (c.base + 0xbff8) 8 value).0 (c.base + 0xbffc) 4
              ≡ some (value / 2 ^ 32)))
  unfolding clint_read clint_write
  clint_roundtrip = ground arith

-- A write that is refused changes nothing. A write is accepted exactly if it is of four bytes at
-- msip, or of eight bytes at mtimecmp or at mtime, and then leaves the interrupt lines alone.
pub clint_write_status :
    (c : Clint) (addr size value : ℕ)
    → ((clint_write c addr size value).1 ≡ false → (clint_write c addr size value).0 ≡ c)
      × ((clint_write c addr size value).1 ≡ true ↔ (
          ((sub64 addr c.base ≡ 0) × (size ≡ 4))
          ⊎ (((sub64 addr c.base ≡ 0x4000) ⊎ (sub64 addr c.base ≡ 0xbff8)) × (size ≡ 8))))
      × ((clint_write c addr size value).0.msip_line ≡ c.msip_line)
      × ((clint_write c addr size value).0.mtip_line ≡ c.mtip_line)
unfolding clint_write
clint_write_status c addr size value = ground arith
