-- ===== src/Memory/Tests.antt =====
-- A word stored in a small memory.
use tiny_linux_rv.Prelude.{
  ℕ, ◌+◌, ◌*◌, ◌^◌, ◌%◌, ◌<◌, ◌≤◌, ◌≡◌, ◌⊎◌, ◌↔◌, refl, true, false, some, arith,
}
use tiny_linux_rv.Memory.Defs.{
  Memory, ram_read, ram_write, cpu_access_check, check_addr_range, load_bytes, store_bytes,
}
use tiny_linux_rv.Memory.Access.{ram_read-ram_write, cpu_access_check_iff}

abbrev ram : Memory
ram = record { bytes = λ i. 0xa5; base = 0x80000000; size = 64 }

partly_over :
    ram_read (ram_write ram 0x80000008 4 0x1234567890).0 0x80000008 8 ≡ some 0xa5a5a5a534567890
unfolding ram_read ram_write cpu_access_check check_addr_range load_bytes store_bytes
partly_over = refl

ram_read-ram_write_example :
    ((ram_write ram 0x80000008 4 0x1234567890).1 ≡ true
      → (ram_read (ram_write ram 0x80000008 4 0x1234567890).0 0x80000008 4
          ≡ some (0x1234567890 % 2 ^ (8 * 4)))
        × ((addr' size' : ℕ)
            → addr' < 2 ^ 64
            → (addr' + size' ≤ 0x80000008) ⊎ (0x80000008 + 4 ≤ addr')
            → ram_read (ram_write ram 0x80000008 4 0x1234567890).0 addr' size'
              ≡ ram_read ram addr' size'))
    × ((ram_write ram 0x80000008 4 0x1234567890).1 ≡ false
        → (ram_write ram 0x80000008 4 0x1234567890).0 ≡ ram)
ram_read-ram_write_example = ram_read-ram_write ram 0x80000008 4 0x1234567890 (omega arith)

cpu_access_check_iff_example : (cpu_access_check ram 0x80000008 4 ≡ true) ↔ (
    ((◌≡◌ {A = ℕ} 4 1) ⊎ ((◌≡◌ {A = ℕ} 4 2) ⊎ ((◌≡◌ {A = ℕ} 4 4) ⊎ (◌≡◌ {A = ℕ} 4 8))))
    × (0x80000008 % 4 ≡ 0)
    × (0x80000000 ≤ 0x80000008)
    × (0x80000008 + 4 ≤ 0x80000000 + 64))
cpu_access_check_iff_example = cpu_access_check_iff ram 0x80000008 4
